-- ===== src/Python/Equal.antt =====
-- Python's comparison of decoded JSON values inside a tuple: by identity or `==`. The parser makes one
-- object of all NaN.
use zach.Common.{
  ℕ, suc, ◌*◌, ◌^◌, Bool, true, false, not, ◌&&◌, ◌||◌, List, [], ◌∷◌, str_eq, ◌==◌, if◌then◌else◌,
}
use zach.Python.Value.{
  Value, null, bool, int, negative, float, constant, str, list, dict, Items, nil, cons, Fields, end,
  field, has_key, lookup,
}

abbrev same_flag : Bool → Bool → Bool
same_flag true b = b
same_flag false b = not b

-- Equality with the number m / 2 ^ e, negated if the flag is set.
abbrev number_eq : Bool → ℕ → ℕ → Value → Bool
number_eq s m e (bool b) = (m == (if b then 1 else 0) * 2 ^ e) && (m == 0 || not s)
number_eq s m e (int n) = m == n * 2 ^ e && (m == 0 || not s)
number_eq s m e (negative n) = m == suc n * 2 ^ e && s
number_eq s m e (float t n f) = m * 2 ^ f == n * 2 ^ e && (m == 0 || same_flag s t)
number_eq s m e _ = false

abbrev size : Fields → ℕ
size end = 0
size (field k v fs) = suc (size fs)

unfoldable mutual
  pub value_eq : Value → Value → Bool
  value_eq null null = true
  value_eq (bool b) v = number_eq false (if b then 1 else 0) 0 v
  value_eq (int n) v = number_eq false n 0 v
  value_eq (negative n) v = number_eq true (suc n) 0 v
  value_eq (float s m e) v = number_eq s m e v
  value_eq (constant c) (constant d) = str_eq c d
  value_eq (str s) (str t) = str_eq s t
  value_eq (list vs) (list ws) = items_eq vs ws
  value_eq (dict fs) (dict gs) = size fs == size gs && fields_in fs gs
  value_eq _ _ = false

  pub items_eq : Items → Items → Bool
  items_eq nil nil = true
  items_eq (cons v vs) (cons w ws) = value_eq v w && items_eq vs ws
  items_eq _ _ = false

  pub fields_in : Fields → Fields → Bool
  fields_in end gs = true
  fields_in (field k v fs) gs = has_key k gs && value_eq v (lookup k gs) && fields_in fs gs

-- `==` of tuples
abbrev pub values_eq : List Value → List Value → Bool
values_eq [] [] = true
values_eq (v ∷ vs) (w ∷ ws) = value_eq v w && values_eq vs ws
values_eq _ _ = false
