-- ===== src/Python/Json.antt =====
-- `json.loads` with the scripts' hooks: the raw parse, in which an object still is its list of pairs,
-- is a parameter, and the hooks run over it from the inside out.
pub mod Unique
use zach.Common.{
  ℕ, ◌≡◌, refl, Bool, true, false, not, ◌&&◌, Option, none, some, arith, String, str_eq,
  if◌then◌else◌, Bool-cases, Option-cases, inl, inr, eq_iff,
}
use zach.Python.Value.{
  Value, null, bool, int, negative, float, constant, str, list, dict, Items, nil, cons, Fields, end,
  field, has_key,
}

infixl 5 ◌>>=◌
unfoldable pub ◌>>=◌ {ℓ κ} : {A : Type ℓ} {B : Type κ} → Option A → (A → Option B) → Option B
none >>= f = none
some a >>= f = f a

-- `obj[key] = value` for a key that is not there
abbrev pub append : Fields → String → Value → Fields
append end k v = field k v end
append (field j w fs) k v = field j w (append fs k v)

-- The loop of the hook over the pairs; `none` stands for the exception.
unfoldable pub reject_duplicate_keys : Fields → Fields → Option Fields
reject_duplicate_keys built end = some built
reject_duplicate_keys built (field k v pairs) =
    let rest = reject_duplicate_keys (append built k v) pairs in
    if has_key k built then none else rest

-- `strict` adds the coordinator's `parse_constant` hook, which refuses NaN and the infinities.
unfoldable mutual
  pub hooked : Bool → Value → Option Value
  hooked strict (constant c) = if strict then none else some (constant c)
  hooked strict (list vs) = hooked_items strict vs >>= λ ws. some (list ws)
  hooked strict (dict fs) =
      hooked_fields strict fs >>= λ gs. reject_duplicate_keys end gs >>= λ hs. some (dict hs)
  hooked strict null = some null
  hooked strict (bool b) = some (bool b)
  hooked strict (int n) = some (int n)
  hooked strict (negative n) = some (negative n)
  hooked strict (float s m e) = some (float s m e)
  hooked strict (str s) = some (str s)

  pub hooked_items : Bool → Items → Option Items
  hooked_items strict nil = some nil
  hooked_items strict (cons v vs) =
      hooked strict v >>= λ w. hooked_items strict vs >>= λ ws. some (cons w ws)

  pub hooked_fields : Bool → Fields → Option Fields
  hooked_fields strict end = some end
  hooked_fields strict (field k v fs) =
      hooked strict v >>= λ w. hooked_fields strict fs >>= λ gs. some (field k w gs)
