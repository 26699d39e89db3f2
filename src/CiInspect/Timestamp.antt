-- ===== src/CiInspect/Timestamp.antt =====
-- `_validate_timestamp` of scripts/actions_ci_inspect.py: the pattern, and the calendar of `strptime`.
use zach.Common.{
  ℕ, ◌+◌, ◌-◌, ◌*◌, Bool, false, ◌&&◌, ◌||◌, List, [], ◌∷◌, String, ltb, leb, ◌==◌, is_digit, codes,
  if◌then◌else◌,
}
use Prim.Native.Nat.{◌%◌}
use zach.Python.Value.{Value, str}
use zach.Action.{Result, ok, err}
use zach.Action.Error.{CiCode}
use zach.CiInspect.Policy.{fatal}

abbrev pub is_pair : ℕ → ℕ → Bool
is_pair a b = is_digit a && is_digit b

abbrev pub pair_value : ℕ → ℕ → ℕ
pair_value a b = (a - b'0') * 10 + (b - b'0')

abbrev pub is_leap : ℕ → Bool
is_leap y = (y % 4 == 0 && ltb 0 (y % 100)) || y % 400 == 0

abbrev pub days_in_month : ℕ → ℕ → ℕ
days_in_month y m =
    if m == 2
    then (if is_leap y then 29 else 28)
    else if m == 4 || m == 6 || m == 9 || m == 11
    then 30
    else 31

-- A date that `datetime` has: its years begin at 1.
abbrev pub is_calendar_day : ℕ → ℕ → ℕ → Bool
is_calendar_day y m d = leb 1 y && leb d (days_in_month y m)

-- YYYY-MM-DDThh:mm:ssZ with the ranges of `TIMESTAMP_RE`
unfoldable pub is_timestamp_text : List ℕ → Bool
is_timestamp_text
      (y₁ ∷ y₂ ∷ y₃ ∷ y₄ ∷ s₁ ∷ m₁ ∷ m₂ ∷ s₂ ∷ d₁ ∷ d₂ ∷ t ∷ h₁ ∷ h₂ ∷ s₃ ∷ n₁ ∷ n₂ ∷ s₄ ∷ c₁ ∷ c₂
        ∷ z ∷ []) =
    (is_pair y₁ y₂
      && is_pair y₃ y₄
      && is_pair m₁ m₂
      && is_pair d₁ d₂
      && is_pair h₁ h₂
      && is_pair n₁ n₂
      && is_pair c₁ c₂)
    && (s₁ == b'-' && s₂ == b'-' && t == b'T' && s₃ == b':' && s₄ == b':' && z == b'Z')
    && (leb 1 (pair_value m₁ m₂) && leb (pair_value m₁ m₂) 12)
    && (leb 1 (pair_value d₁ d₂) && leb (pair_value d₁ d₂) 31)
    && (leb (pair_value h₁ h₂) 23 && leb (pair_value n₁ n₂) 59 && leb (pair_value c₁ c₂) 59)
    && is_calendar_day (pair_value y₁ y₂ * 100 + pair_value y₃ y₄) (pair_value m₁ m₂)
        (pair_value d₁ d₂)
is_timestamp_text _ = false

unfoldable pub validate_timestamp : Value → CiCode → Result String
validate_timestamp (str value) code =
    if is_timestamp_text (codes value) then ok value else err (fatal code)
validate_timestamp _ code = err (fatal code)
