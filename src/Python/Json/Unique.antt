-- ===== src/Python/Json/Unique.antt =====
-- The hooks change no value, and in a value that they let pass all dictionaries have distinct keys.
use zach.Common.{
  ◌≡◌, refl, ap, Bool, true, false, not, ◌&&◌, ◌||◌, Option, none, some, arith, String, str_eq,
  eq_iff, eq_refl, Bool-cases, inl, inr,
}
use zach.Python.Value.{
  Value, null, bool, int, negative, float, constant, str, list, dict, Items, nil, cons, Fields, end,
  field, has_key,
}
use zach.Python.Json.{append, reject_duplicate_keys, hooked, hooked_items, hooked_fields, ◌>>=◌}

-- No key is there twice at the top of the dictionary.
pub are_distinct : Fields → Bool
are_distinct end = true
are_distinct (field k v fs) = not (has_key k fs) && are_distinct fs

-- No dictionary within the value holds a key twice.
unfoldable mutual
  pub has_unique_keys : Value → Bool
  has_unique_keys null = true
  has_unique_keys (bool b) = true
  has_unique_keys (int n) = true
  has_unique_keys (negative n) = true
  has_unique_keys (float s m e) = true
  has_unique_keys (constant c) = true
  has_unique_keys (str s) = true
  has_unique_keys (list vs) = items_unique vs
  has_unique_keys (dict fs) = are_distinct fs && fields_unique fs

  pub items_unique : Items → Bool
  items_unique nil = true
  items_unique (cons v vs) = has_unique_keys v && items_unique vs

  pub fields_unique : Fields → Bool
  fields_unique end = true
  fields_unique (field k v fs) = has_unique_keys v && fields_unique fs

-- `built` followed by `pairs`
followed_by : Fields → Fields → Fields
followed_by end pairs = pairs
followed_by (field k v fs) pairs = field k v (followed_by fs pairs)

has_key-append :
    (j : String) (fs : Fields) (k : String) (v : Value)
    → has_key j (append fs k v) ≡ (has_key j fs || str_eq k j)
has_key-append j end k v = ground arith
has_key-append j (field i w fs) k v = ground (arith, has_key-append j fs k v)

followed_by-append :
    (fs : Fields) (k : String) (v : Value) (pairs : Fields)
    → followed_by (append fs k v) pairs ≡ followed_by fs (field k v pairs)
unfolding followed_by
followed_by-append end k v pairs = refl
followed_by-append (field i w fs) k v pairs = ap (field i w) (followed_by-append fs k v pairs)

followed_by-end : (fs : Fields) → followed_by fs end ≡ fs
unfolding followed_by
followed_by-end end = refl
followed_by-end (field k v fs) = ap (field k v) (followed_by-end fs)

after_some {ℓ κ μ} :
    {A : Type ℓ} {B : Type κ} {C : Type μ} (o : Option A) (f : A → Option B) {b : B}
    → (o >>= f) ≡ some b
    → ((a : A) → o ≡ some a → f a ≡ some b → C)
    → C
unfolding ◌>>=◌
after_some none f h k = absurd (cc)
after_some (some a) f h k = k a refl h

-- The loop of the hook returns the pairs as they are, after finding all their keys new.
reject_duplicate_keys_sound :
    (built pairs : Fields) {r : Fields}
    → reject_duplicate_keys built pairs ≡ some r
    → (r ≡ followed_by built pairs)
      × (are_distinct pairs ≡ true)
      × ((j : String) → has_key j built ≡ true → has_key j pairs ≡ false)
unfolding reject_duplicate_keys are_distinct
reject_duplicate_keys_sound built end h = (ground (arith, followed_by-end built), refl, λ j _. refl)
reject_duplicate_keys_sound built (field k v pairs) {r} h = elim (Bool-cases (has_key k built)) [
  | inl old ↦ absurd (ground arith)
  | inr new ↦
      let (same, distinct, fresh) =
        reject_duplicate_keys_sound (append built k v) pairs {r = r} (ground arith) in
      (
        rw same (followed_by-append built k v pairs),
        ground (arith, fresh k, has_key-append k built k v, eq_refl k),
        λ j old. ground (arith, fresh j, has_key-append j built k v, eq_iff k j),
      )
]

-- What the hooks let pass they leave as it was.
mutual
  unfolding hooked has_unique_keys followed_by

  hooked_sound :
      (strict : Bool) (v : Value) {w : Value}
      → hooked strict v ≡ some w
      → (w ≡ v) × (has_unique_keys v ≡ true)
  hooked_sound strict null h = (ground arith, refl)
  hooked_sound strict (bool b) h = (ground arith, refl)
  hooked_sound strict (int n) h = (ground arith, refl)
  hooked_sound strict (negative n) h = (ground arith, refl)
  hooked_sound strict (float s m e) h = (ground arith, refl)
  hooked_sound strict (constant c) h = (ground arith, refl)
  hooked_sound strict (str s) h = (ground arith, refl)
  hooked_sound strict (list vs) h =
      after_some _ _ h
        λ ws e k. let (same, unique) = hooked_items_sound strict vs e in (ground arith, unique)
  hooked_sound strict (dict fs) h = after_some _ _ h λ gs e k. after_some _ _ k λ hs e' k'.
      let (same, unique) = hooked_fields_sound strict fs e in
      let (whole, distinct, _) = reject_duplicate_keys_sound end gs e' in
      (ground arith, ground arith)

  hooked_items_sound :
      (strict : Bool) (vs : Items) {ws : Items}
      → hooked_items strict vs ≡ some ws
      → (ws ≡ vs) × (items_unique vs ≡ true)
  hooked_items_sound strict nil h = (ground arith, refl)
  hooked_items_sound strict (cons v vs) h = after_some _ _ h λ w e k. after_some _ _ k λ ws e' k'.
      let (same, unique) = hooked_sound strict v e in
      let (same', unique') = hooked_items_sound strict vs e' in (ground arith, ground arith)

  hooked_fields_sound :
      (strict : Bool) (fs : Fields) {gs : Fields}
      → hooked_fields strict fs ≡ some gs
      → (gs ≡ fs) × (fields_unique fs ≡ true)
  hooked_fields_sound strict end h = (ground arith, refl)
  hooked_fields_sound strict (field k v fs) h = after_some _ _ h λ w e j.
      after_some _ _ j λ gs e' j'.
        let (same, unique) = hooked_sound strict v e in
        let (same', unique') = hooked_fields_sound strict fs e' in (ground arith, ground arith)

-- A text that is read with the hooks gives the value of the raw parse, and in it no dictionary, at any
-- depth, holds a key twice.
pub hooked-IsUnique :
    (strict : Bool) (raw v : Value)
    → hooked strict raw ≡ some v
    → (v ≡ raw) × (has_unique_keys raw ≡ true)
hooked-IsUnique strict raw v h = hooked_sound strict raw h
