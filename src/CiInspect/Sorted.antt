-- ===== src/CiInspect/Sorted.antt =====
-- Lemmas on the sorts of scripts/actions_ci_inspect.py.
use zach.Common.{
  ℕ, ltb, suc, ◌≡◌, refl, ap, ◌∙◌, Bool, true, false, List, [], ◌∷◌, arith, length, All,
  if◌then◌else◌,
}
use zach.CiInspect.Jobs.{JobSummary}
use zach.CiInspect.Order.{insert, sort, has_smaller_id, by_id}

module _ {A : Type 0} (earlier : A → A → Bool) where
  length-insert : (x : A) (xs : List A) → length (insert earlier x xs) ≡ suc (length xs)
  unfolding insert
  length-insert x [] = refl
  length-insert x (y ∷ ys) = ground (arith, length-insert x ys)

  pub length-sort : (xs : List A) → length (sort earlier xs) ≡ length xs
  unfolding sort
  length-sort [] = refl
  length-sort (x ∷ xs) = length-insert x (sort earlier xs) ∙ ap suc (length-sort xs)

  module _ (P : A → Type 0) where
    either : (b : Bool) (xs ys : List A) → All P xs → All P ys → All P (if b then xs else ys)
    either true xs ys h k = h
    either false xs ys h k = k

    All-insert : (x : A) (xs : List A) → P x → All P xs → All P (insert earlier x xs)
    unfolding insert
    All-insert x [] p h = (p, tt)
    All-insert x (y ∷ ys) p h = either (earlier y x) _ _ (h.0, All-insert x ys p h.1) (p, h)

    pub All-sort : (xs : List A) → All P xs → All P (sort earlier xs)
    unfolding sort
    All-sort [] h = tt
    All-sort (x ∷ xs) h = All-insert x (sort earlier xs) h.0 (All-sort xs h.1)

ltb_asymmetric : (m n : ℕ) → ltb n m ≡ true → ltb m n ≡ false
ltb_asymmetric m n h = ground arith

ltb_transitive : (m n k : ℕ) → ltb n m ≡ false → ltb k n ≡ false → ltb k m ≡ false
ltb_transitive m n k h j = ground arith

-- No later element comes strictly earlier.
abbrev pub IsOrdered : {A : Type 0} → (A → A → Bool) → List A → Type 0
IsOrdered earlier [] = Unit
IsOrdered earlier (x ∷ xs) = All (λ y. earlier y x ≡ false) xs × IsOrdered earlier xs

pub All-weaken :
    {A : Type 0} (P Q : A → Type 0) (xs : List A) → ((x : A) → P x → Q x) → All P xs → All Q xs
All-weaken P Q [] f h = tt
All-weaken P Q (x ∷ xs) f h = (f x h.0, All-weaken P Q xs f h.1)

module _ {A : Type 0} (earlier : A → A → Bool)
    (asymmetric : (x y : A) → earlier y x ≡ true → earlier x y ≡ false)
    (transitive : (x y z : A)
      → earlier y x ≡ false
      → earlier z y ≡ false
      → earlier z x ≡ false) where
  if_of_both :
      (b : Bool) (xs ys : List A)
      → (b ≡ true → IsOrdered earlier xs)
      → (b ≡ false → IsOrdered earlier ys)
      → IsOrdered earlier (if b then xs else ys)
  if_of_both true xs ys h k = h refl
  if_of_both false xs ys h k = k refl

  insert-IsOrdered :
      (x : A) (xs : List A) → IsOrdered earlier xs → IsOrdered earlier (insert earlier x xs)
  unfolding insert
  insert-IsOrdered x [] h = (tt, tt)
  insert-IsOrdered x (y ∷ ys) h =
      if_of_both (earlier y x) (y ∷ insert earlier x ys) (x ∷ y ∷ ys)
        (λ first. (
          All-insert earlier (λ z. earlier z y ≡ false) x ys (asymmetric x y first) h.0,
          insert-IsOrdered x ys h.1,
        ))
        λ first.
          ((first, All-weaken _ (λ z. earlier z x ≡ false) ys (λ z. transitive x y z first) h.0), h)

  sort-IsOrdered : (xs : List A) → IsOrdered earlier (sort earlier xs)
  unfolding sort
  sort-IsOrdered [] = tt
  sort-IsOrdered (x ∷ xs) = insert-IsOrdered x (sort earlier xs) (sort-IsOrdered xs)

-- The jobs of a result stand in the order of their ids: no later job has a smaller id.
pub by_id-IsOrdered : (jobs : List JobSummary) → IsOrdered has_smaller_id (by_id jobs)
unfolding by_id
by_id-IsOrdered =
    sort-IsOrdered has_smaller_id (λ x y h. ltb_asymmetric x.id y.id h)
      λ x y z h k. ltb_transitive x.id y.id z.id h k
