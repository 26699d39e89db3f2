-- ===== src/Action/Checks.antt =====
-- Blocks of validations: the operators of `do` for results, and what a successful block has passed,
-- handed to the rest of a proof.
use zach.Common.{◌≡◌, refl, Option, none, some, Bool, true, false}
use zach.Action.Error.{Exc}
use zach.Action.{Result, ok, err, bind, require, or_raise}

infixl 5 ◌>>=◌ ◌>>◌
abbrev pub ◌>>=◌ {ℓ κ} : {A : Type ℓ} {B : Type κ} → Result A → (A → Result B) → Result B
r >>= f = bind r f

abbrev pub ◌>>◌ {ℓ κ} : {A : Type ℓ} {B : Type κ} → Result A → Result B → Result B
r >> s = bind r λ _. s

module _ {ℓ κ μ} {A : Type ℓ} {B : Type κ} {C : Type μ} where
  pub after_bind :
      (r : Result A) (f : A → Result B) {b : B}
      → bind r f ≡ ok b
      → ((a : A) → r ≡ ok a → f a ≡ ok b → C)
      → C
  unfolding bind
  after_bind (ok a) f h k = k a refl h
  after_bind (err e) f h k = absurd (cc)

module _ {ℓ μ} {B : Type ℓ} {C : Type μ} where
  pub after_require :
      (t : Bool) (e : Exc) (s : Result B) {b : B}
      → bind (require t e) (λ _. s) ≡ ok b
      → (t ≡ true → s ≡ ok b → C)
      → C
  unfolding bind require
  after_require true e s h k = k refl h
  after_require false e s h k = absurd (cc)

pub require-ok : (t : Bool) (e : Exc) → require t e ≡ ok tt → t ≡ true
unfolding require
require-ok true e h = refl
require-ok false e h = cc

pub or_raise-ok {ℓ} :
    {A : Type ℓ} (o : Option A) (e : Exc) {a : A} → or_raise o e ≡ ok a → o ≡ some a
unfolding or_raise
or_raise-ok none e h = cc
or_raise-ok (some a) e h = cc
