-- ===== src/Action/Inversion.antt =====
-- What a block of statements has gone through: inversion of a successful one, and the split into
-- "it stopped early" and "it got past this statement".
use zach.Common.{
  ◌≡◌, refl, ◌∙◌, ◌⊎◌, inl, inr, Bool, true, false, Option, none, some, if◌then◌else◌,
}
use zach.Action.Error.{Exc}
use zach.Action.{Result, ok, err, Action, pure, lift, try, resume, continue, ◌>>=◌}

module _ {W A B C : Type 0} where
  -- A successful block has a successful first statement.
  pub after_action :
      (m : Action W A) (f : A → Action W B) (w : W) {b : B} {w' : W}
      → (m >>= f) w ≡ (ok b, w')
      → ((a : A) (w₁ : W) → m w ≡ (ok a, w₁) → f a w₁ ≡ (ok b, w') → C)
      → C
  unfolding ◌>>=◌
  after_action m f w {b} {w'} h k = split (m w).0 (m w).1 refl h
    where
      split : (r : Result A) (w₁ : W) → m w ≡ (r, w₁) → continue r f w₁ ≡ (ok b, w') → C
      split (ok a) w₁ e j = k a w₁ e j
      split (err x) w₁ e j = absurd (cc)

  pub after_lift :
      (r : Result A) (f : A → Action W B) (w : W) {b : B} {w' : W}
      → (lift r >>= f) w ≡ (ok b, w')
      → ((a : A) → r ≡ ok a → f a w ≡ (ok b, w') → C)
      → C
  unfolding ◌>>=◌
  after_lift (ok a) f w h k = k a refl h
  after_lift (err e) f w h k = absurd (cc)

module _ {W A C : Type 0} where
  pub after_if :
      (t : Bool) (m n : Action W A) (w : W) {a : A} {w' : W}
      → (if t then m else n) w ≡ (ok a, w')
      → (t ≡ true → m w ≡ (ok a, w') → C)
      → (t ≡ false → n w ≡ (ok a, w') → C)
      → C
  after_if true m n w h k l = k refl h
  after_if false m n w h k l = l refl h

  -- A block that ended well has done so by itself or by its handler.
  pub after_try :
      (m : Action W A) (handler : Exc → Action W A) (w : W) {a : A} {w' : W}
      → try m handler w ≡ (ok a, w')
      → (m w ≡ (ok a, w') → C)
      → ((e : Exc) (w₁ : W) → m w ≡ (err e, w₁) → handler e w₁ ≡ (ok a, w') → C)
      → C
  unfolding try
  after_try m handler w {a} {w'} h k l = split (m w).0 (m w).1 refl h
    where
      split : (r : Result A) (w₁ : W) → m w ≡ (r, w₁) → resume r handler w₁ ≡ (ok a, w') → C
      split (ok b) w₁ e j = k (e ∙ j)
      split (err x) w₁ e j = l x w₁ e j

-- Either the state still has `P`, or `G`: the block got far enough to know `G`.
module _ {W A B G : Type 0} (P : W → Type 0) where
  pub past_lift :
      (r : Result A) (f : A → Action W B) (w : W)
      → P w
      → ((a : A) → r ≡ ok a → P (f a w).1 ⊎ G)
      → P ((lift r >>= f) w).1 ⊎ G
  unfolding ◌>>=◌
  past_lift (ok a) f w p k = k a refl
  past_lift (err e) f w p k = inl p

  pub past_bind :
      (m : Action W A) (f : A → Action W B) (w : W)
      → P (m w).1
      → ((a : A) → (m w).0 ≡ ok a → P (f a (m w).1).1 ⊎ G)
      → P ((m >>= f) w).1 ⊎ G
  unfolding ◌>>=◌
  past_bind m f w p k = split (m w).0 k
    where
      split :
          (r : Result A)
          → ((a : A) → r ≡ ok a → P (f a (m w).1).1 ⊎ G)
          → P (continue r f (m w).1).1 ⊎ G
      split (ok a) j = j a refl
      split (err e) j = inl p

module _ {W A G : Type 0} (P : W → Type 0) where
  pub past_if :
      (t : Bool) (m n : Action W A) (w : W)
      → P (m w).1
      → (t ≡ false → P (n w).1 ⊎ G)
      → P ((if t then m else n) w).1 ⊎ G
  past_if true m n w p k = inl p
  past_if false m n w p k = k refl

pub ok-injective :
    {A W : Type 0} {a b : A} {v w : W}
    → ◌≡◌ {A = Result A × W} (ok a, v) (ok b, w)
    → (a ≡ b) × (v ≡ w)
ok-injective h = (cc, cc)

-- A last `return` changes nothing.
pub past_last :
    {W A B G : Type 0} (P : W → Type 0) (m : Action W A) (f : A → B) (w : W)
    → P (m w).1 ⊎ G
    → P ((m >>= λ a. pure (f a)) w).1 ⊎ G
unfolding ◌>>=◌
past_last P m f w (inr g) = inr g
past_last {A = A} P m f w (inl h) = inl (split (m w).0)
  where
    split : (r : Result A) → P (continue r (λ a. pure (f a)) (m w).1).1
    split (ok a) = h
    split (err e) = h

pub past_map : {A G H : Type 0} → A ⊎ G → (G → H) → A ⊎ H
past_map (inl a) f = inl a
past_map (inr g) f = inr (f g)

pub past_option :
    {W A C G : Type 0} (P : W → Type 0) (o : Option C) (m : Action W A) (f : C → Action W A) (w : W)
    → (o ≡ none → P (m w).1 ⊎ G)
    → ((c : C) → o ≡ some c → P (f c w).1 ⊎ G)
    → P ((elim o as (λ _. Action W A) [ none ↦ m | some c ↦ f c ]) w).1 ⊎ G
past_option P none m f w k l = k refl
past_option P (some c) m f w k l = l c refl
