-- ===== src/CiInspect/Rows.antt =====
-- The rows of a page of scripts/actions_ci_inspect.py and their summaries.
use mathlib.Core.Path.{subst, subst⁻¹}
use zach.Common.{
  ℕ, ◌≡◌, refl, ap, ◌∙◌, Bool, true, false, not, ◌||◌, List, [], ◌∷◌, ◌++◌, map, arith, contains,
  ◌==◌,
}
use zach.Python.Value.{Value}
use zach.Action.{Result, ok, err, raise}
use zach.Action.Error.{Exc}
use zach.Action.Checks.{after_bind, after_require}
use zach.CiInspect.Pages.{collect_rows}

-- No number twice.
abbrev pub IsDistinct : List ℕ → Type 0
IsDistinct [] = Unit
IsDistinct (n ∷ ns) = (contains n ns ≡ false) × IsDistinct ns

pub or-false : (a b : Bool) → (a || b) ≡ false → (a ≡ false) × (b ≡ false)
or-false true b h = absurd (cc)
or-false false b h = (refl, h)

false-or : {a b : Bool} → a ≡ false → b ≡ false → (a || b) ≡ false
false-or {a} {b} h k = ap (λ x. x || b) h ∙ k

==-swap : (m n : ℕ) → (m == n) ≡ false → (n == m) ≡ false
==-swap m n h = ground arith

contains-last :
    (n m : ℕ) (ns : List ℕ)
    → contains n ns ≡ false
    → (n == m) ≡ false
    → contains n (ns ++ m ∷ []) ≡ false
contains-last n m [] h e = false-or e refl
contains-last n m (k ∷ ns) h e =
    let split = or-false (n == k) (contains n ns) h in
    false-or split.0 (contains-last n m ns split.1 e)

pub IsDistinct-last :
    (ns : List ℕ) (m : ℕ) → IsDistinct ns → contains m ns ≡ false → IsDistinct (ns ++ m ∷ [])
IsDistinct-last [] m d h = (refl, tt)
IsDistinct-last (n ∷ ns) m d h =
    let split = or-false (m == n) (contains m ns) h in
    (contains-last n m ns d.0 (==-swap m n split.0), IsDistinct-last ns m d.1 split.1)

pub map-append :
    {S : Type 0} (f : S → ℕ) (xs : List S) (x : S) → map f (xs ++ x ∷ []) ≡ map f xs ++ f x ∷ []
map-append f [] x = refl
map-append f (y ∷ xs) x = ap (λ zs. f y ∷ zs) (map-append f xs x)

pub true-is-not-false : (b : Bool) → not b ≡ true → b ≡ false
true-is-not-false false h = refl
true-is-not-false true h = absurd (cc)

pub raise-fails : {A W C : Type 0} (x : Exc) {w w' : W} {a : A} → raise {A = A} x w ≡ (ok a, w') → C
raise-fails x h = absurd (cc)

pub not-not : (b : Bool) → not (not b) ≡ true → b ≡ true
not-not true h = refl
not-not false h = h

-- The summaries are those of the rows, one by one.
abbrev pub AreSummaries : {S : Type 0} → (Value → Result S) → List Value → List S → Type 0
AreSummaries summarise [] [] = Unit {0}
AreSummaries summarise (row ∷ rows) (s ∷ summaries) =
    (summarise row ≡ ok s) × AreSummaries summarise rows summaries
AreSummaries summarise _ _ = ⊥

pub AreSummaries-last :
    {S : Type 0} (summarise : Value → Result S) (rows : List Value) (summaries : List S)
    (row : Value) (s : S)
    → AreSummaries summarise rows summaries
    → summarise row ≡ ok s
    → AreSummaries summarise (rows ++ row ∷ []) (summaries ++ s ∷ [])
AreSummaries-last summarise [] [] row s h e = (e, tt)
AreSummaries-last summarise [] (t ∷ summaries) row s h e = absurd h
AreSummaries-last summarise (r ∷ rows) [] row s h e = absurd h
AreSummaries-last summarise (r ∷ rows) (t ∷ summaries) row s h e =
    (h.0, AreSummaries-last summarise rows summaries row s h.1 e)

append-append :
    {A : Type 0} (xs : List A) (y : A) (zs : List A) → (xs ++ y ∷ []) ++ zs ≡ xs ++ y ∷ zs
append-append [] y zs = refl
append-append (x ∷ xs) y zs = ap (λ t. x ∷ t) (append-append xs y zs)

append_nil : {A : Type 0} (xs : List A) → xs ++ [] ≡ xs
append_nil [] = refl
append_nil (x ∷ xs) = ap (λ t. x ∷ t) (append_nil xs)

module _ {S : Type 0} (summarise : Value → Result S) (id_of : S → ℕ) where
  -- The summaries so far are those of the rows so far, their ids differ, and `seen` has exactly these.
  pub record Collected (rows : List Value) (seen : List ℕ) (summaries : List S) : Type 0 where
    pub are_summaries : AreSummaries summarise rows summaries
    pub distinct : IsDistinct (map id_of summaries)
    pub same_ids : (n : ℕ) → contains n seen ≡ false → contains n (map id_of summaries) ≡ false

  one_more :
      (past : List Value) (row : Value) (s : S) (seen : List ℕ) (summaries : List S)
      → Collected past seen summaries
      → summarise row ≡ ok s
      → contains (id_of s) seen ≡ false
      → Collected (past ++ row ∷ []) (id_of s ∷ seen) (summaries ++ s ∷ [])
  one_more past row s seen summaries c e fresh = record {
    are_summaries = AreSummaries-last summarise past summaries row s c.are_summaries e;
    distinct =
        subst⁻¹ IsDistinct (map-append id_of summaries s)
          (IsDistinct-last _ (id_of s) c.distinct (c.same_ids _ fresh));
    same_ids = λ n h.
        let split = or-false (n == id_of s) (contains n seen) h in
        subst⁻¹ (λ ns. contains n ns ≡ false) (map-append id_of summaries s)
          (contains-last n (id_of s) _ (c.same_ids n split.1) split.0);
  }

  pub collect_rows-Collected :
      (past rows : List Value) (seen : List ℕ) (summaries : List S) {c : List ℕ × List S}
      → Collected past seen summaries
      → collect_rows summarise id_of rows seen summaries ≡ ok c
      → Collected (past ++ rows) c.0 c.1
  unfolding collect_rows
  collect_rows-Collected past [] seen summaries h e =
      subst
        (λ (r : Result (List ℕ × List S)). elim r [
          | ok c ↦ Collected (past ++ []) c.0 c.1
          | err x ↦ Unit
        ])
        e (subst⁻¹ (λ rs. Collected rs seen summaries) (append_nil past) h)
  collect_rows-Collected past (row ∷ rows) seen summaries {c} h e = after_bind _ _ e λ s es e₁.
      after_require _ _ _ e₁ λ fresh e₂.
        subst (λ rs. Collected rs c.0 c.1) (append-append past row rows)
          (collect_rows-Collected (past ++ row ∷ []) rows (id_of s ∷ seen) (summaries ++ s ∷ [])
            (one_more past row s seen summaries h es (true-is-not-false _ fresh)) e₂)
