-- ===== src/Action.antt =====
-- Python code that talks to its surroundings and may raise. An action takes the state of the
-- surroundings (the remote API, the child processes, the file system) and returns a result with the
-- state that the calls have left, also when it raises.
pub mod Error
pub mod Codes
pub mod Confined
pub mod Checks
pub mod Inversion
use mathlib.Core.Path.{fun_ext}
use zach.Common.{◌≡◌, refl, Option, none, some, Bool, true, false, if◌then◌else◌}
use zach.Action.Error.{Exc}

pub data Result {ℓ} (A : Type ℓ) : Type ℓ where
  ok : A → Result A
  err : Exc → Result A

abbrev pub Action {ℓ} : Type ℓ → Type ℓ → Type ℓ
Action W A = W → Result A × W

-- A validator that talks to nobody.
unfoldable pub bind {ℓ κ} : {A : Type ℓ} {B : Type κ} → Result A → (A → Result B) → Result B
bind (ok a) f = f a
bind (err e) f = err e

-- `if not test: raise e`
unfoldable pub require : Bool → Exc → Result (Unit {0})
require true e = ok tt
require false e = err e

unfoldable pub or_raise {ℓ} : {A : Type ℓ} → Option A → Exc → Result A
or_raise none e = err e
or_raise (some a) e = ok a

-- `try: r except Exception: raise e`
unfoldable pub recode {ℓ} : {A : Type ℓ} → Exc → Result A → Result A
recode e (ok a) = ok a
recode e (err x) = err e

module _ {ℓ} {W A : Type ℓ} where
  abbrev pub pure : A → Action W A
  pure a w = (ok a, w)

  abbrev pub raise : Exc → Action W A
  raise e w = (err e, w)

  abbrev pub lift : Result A → Action W A
  lift r w = (r, w)

  -- `try: m except ...: handler`
  abbrev pub resume : Result A → (Exc → Action W A) → Action W A
  resume (ok a) h w = (ok a, w)
  resume (err e) h w = h e w

  unfoldable pub try : Action W A → (Exc → Action W A) → Action W A
  try m h w = let (r, w') = m w in resume r h w'

module _ {ℓ} {W A B : Type ℓ} where
  abbrev pub continue : Result A → (A → Action W B) → Action W B
  continue (ok a) f w = f a w
  continue (err e) f w = (err e, w)

  infixl 5 ◌>>=◌ ◌>>◌
  unfoldable pub ◌>>=◌ : Action W A → (A → Action W B) → Action W B
  ◌>>=◌ m f w = let (r, w') = m w in continue r f w'

  abbrev pub ◌>>◌ : Action W A → Action W B → Action W B
  m >> n = m >>= λ _. n
