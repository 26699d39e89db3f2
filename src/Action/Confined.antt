-- ===== src/Action/Confined.antt =====
-- What an action leaves alone and what it raises, one rule for each way to build an action.
use zach.Common.{◌≡◌, refl, Option, none, some, Bool, true, false, if◌then◌else◌}
use zach.Action.Error.{Exc}
use zach.Action.{
  Result, ok, err, bind, require, Action, pure, raise, lift, try, resume, continue, ◌>>=◌,
}

-- A result that, if it is an error, is one of `E`.
abbrev pub Raises {ℓ} : {A : Type ℓ} → (Exc → Type 0) → Result A → Type 0
Raises E (ok a) = Unit
Raises E (err e) = E e

-- From a state with `P`, the action ends in one with `P`, and raises only exceptions of `E`.
pub record Confined {W A : Type 0} (P : W → Type 0) (E : Exc → Type 0) (m : Action W A)
    : Type 0 where
  pub keeps : (w : W) → P w → P (m w).1
  pub raises : (w : W) → P w → Raises E (m w).0

module _ {W A : Type 0} {P : W → Type 0} {E : Exc → Type 0} where
  pub Confined-pure : (a : A) → Confined P E (pure a)
  Confined-pure a = record { keeps = λ w h. h; raises = λ w h. tt }

  pub Confined-raise : {e : Exc} → E e → Confined P E (raise {A = A} e)
  Confined-raise ee = record { keeps = λ w h. h; raises = λ w h. ee }

  pub Confined-lift : (r : Result A) → Raises E r → Confined P E (lift r)
  Confined-lift r er = record { keeps = λ w h. h; raises = λ w h. er }

  pub Confined-if :
      (b : Bool) (m n : Action W A)
      → (b ≡ true → Confined P E m)
      → (b ≡ false → Confined P E n)
      → Confined P E (if b then m else n)
  Confined-if true m n cm cn = cm refl
  Confined-if false m n cm cn = cn refl

  pub Confined-elim :
      {C : Type 0} (o : Option C) {m : Action W A} {f : C → Action W A}
      → Confined P E m
      → ((c : C) → Confined P E (f c))
      → Confined P E (elim o [ none ↦ m | some c ↦ f c ])
  Confined-elim none cm cf = cm
  Confined-elim (some c) cm cf = cf c

  -- The handler decides which exceptions leave the block.
  pub Confined-try :
      (m : Action W A) (h : Exc → Action W A)
      → Confined P (λ _. Unit {0}) m
      → ((e : Exc) → Confined P E (h e))
      → Confined P E (try m h)
  unfolding try
  Confined-try m h cm ch = record {
    keeps = λ w p. resumed_keeps (m w).0 (m w).1 (cm.keeps w p);
    raises = λ w p. resumed_raises (m w).0 (m w).1 (cm.keeps w p);
  }
    where
      resumed_keeps : (r : Result A) (w : W) → P w → P (resume r h w).1
      resumed_keeps (ok a) w p = p
      resumed_keeps (err e) w p = (ch e).keeps w p

      resumed_raises : (r : Result A) (w : W) → P w → Raises E (resume r h w).0
      resumed_raises (ok a) w p = tt
      resumed_raises (err e) w p = (ch e).raises w p

module _ {W A B : Type 0} {P : W → Type 0} {E : Exc → Type 0} where
  -- The rest of the block may use that the validator returned.
  pub Confined-bind-lift :
      (r : Result A) (f : A → Action W B)
      → Raises E r
      → ((a : A) → r ≡ ok a → Confined P E (f a))
      → Confined P E (lift r >>= f)
  unfolding ◌>>=◌
  Confined-bind-lift (ok a) f er cf = cf a refl
  Confined-bind-lift (err e) f er cf = record { keeps = λ w h. h; raises = λ w h. er }

  pub Confined-bind :
      (m : Action W A) (f : A → Action W B)
      → Confined P E m
      → ((a : A) → Confined P E (f a))
      → Confined P E (m >>= f)
  unfolding ◌>>=◌
  Confined-bind m f cm cf = record {
    keeps = λ w p. let (r, w') = m w in continued_keeps r w' (cm.keeps w p);
    raises = λ w p. continued_raises (m w).0 (m w).1 (cm.keeps w p) (cm.raises w p);
  }
    where
      continued_keeps : (r : Result A) (w : W) → P w → P (continue r f w).1
      continued_keeps (ok a) w p = (cf a).keeps w p
      continued_keeps (err e) w p = p

      continued_raises : (r : Result A) (w : W) → P w → Raises E r → Raises E (continue r f w).0
      continued_raises (ok a) w p er = (cf a).raises w p
      continued_raises (err e) w p er = er

-- To forget which exceptions there are.
pub Confined-weaken :
    {W A : Type 0} {P : W → Type 0} {E F : Exc → Type 0} {m : Action W A}
    → ((e : Exc) → E e → F e)
    → Confined P E m
    → Confined P F m
Confined-weaken {A = A} {E = E} {F = F} {m = m} ef cm = record {
  keeps = cm.keeps;
  raises = λ w p. widened (m w).0 (cm.raises w p);
}
  where
    widened : (r : Result A) → Raises E r → Raises F r
    widened (ok a) er = tt
    widened (err e) er = ef e er

pub Raises-bind {ℓ κ} :
    {A : Type ℓ} {B : Type κ} (E : Exc → Type 0) (r : Result A) (f : A → Result B)
    → Raises E r
    → ((a : A) → r ≡ ok a → Raises E (f a))
    → Raises E (bind r f)
unfolding bind
Raises-bind E (ok a) f er ef = ef a refl
Raises-bind E (err e) f er ef = er

pub Raises-require : (E : Exc → Type 0) (b : Bool) {e : Exc} → E e → Raises E (require b e)
unfolding require
Raises-require E true ee = tt
Raises-require E false ee = ee

pub ruleset confined_rules =
    (Confined-pure, Confined-raise, Confined-lift, Confined-if, Confined-try, Confined-bind)
