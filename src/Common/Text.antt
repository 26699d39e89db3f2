-- ===== src/Common/Text.antt =====
-- Native texts: concatenation, equality, character classes, decimal numbers.
use Prim.Native.Nat.{ℕ, zero, suc, ◌+◌, ◌/◌, ◌%◌}
use Prim.Native.Char.{code}
use Prim.Native.String as String
use Prim.Native.String.{String, count}
use mathlib.Core.Bool.{Bool, true, false, ◌&&◌, ◌||◌}
use mathlib.Core.List.{List, [], ◌∷◌}
use mathlib.Core.Path.{◌≡◌, refl}
use text.Mathlib.Text.{◌==◌}
use zach.Common.Tests.{ltb, leb, ◌==◌ as nat_eq, if◌then◌else◌}

infixr 65 ◌⊹◌
-- Concatenation of texts, as in an f-string.
abbrev pub ◌⊹◌ : String → String → String
s ⊹ t = String.◌++◌ s t

abbrev pub str_eq : String → String → Bool
str_eq s t = s == t

-- Every character of the text has a code that passes the test.
unfoldable pub all_codes : (ℕ → Bool) → String → Bool
all_codes p String.[] = true
all_codes p (String.◌∷◌ c s) = p (code c) && all_codes p s

-- `value.isascii()`
unfoldable pub is_ascii : String → Bool
unfolding all_codes
is_ascii = all_codes (λ c. ltb c 128)

abbrev pub is_digit : ℕ → Bool
is_digit c = leb b'0' c && leb c b'9'

abbrev pub is_lower_hex : ℕ → Bool
is_lower_hex c = is_digit c || leb b'a' c && leb c b'f'

abbrev pub is_lower : ℕ → Bool
is_lower c = leb b'a' c && leb c b'z'

abbrev pub is_alnum : ℕ → Bool
is_alnum c = is_digit c || is_lower c || leb b'A' c && leb c b'Z'

-- `value.split("/")`: the parts between slashes, `part` the one that is being read.
split_from : String → String → List String
split_from part String.[] = part ∷ []
split_from part (String.◌∷◌ c s) =
    if nat_eq (code c) b'/'
    then part ∷ split_from "" s
    else split_from (part ⊹ String.◌∷◌ c String.[]) s

unfoldable pub split_slash : String → List String
unfolding split_from
split_slash s = split_from "" s

-- The code points of a text.
unfoldable pub codes : String → List ℕ
codes String.[] = []
codes (String.◌∷◌ c s) = code c ∷ codes s

-- `str.lower` on ASCII
abbrev to_lower : ℕ → ℕ
to_lower c = if leb b'A' c && leb c b'Z' then c + 32 else c

abbrev lowered : List ℕ → List ℕ
lowered [] = []
lowered (c ∷ cs) = to_lower c ∷ lowered cs

abbrev begins : List ℕ → List ℕ → Bool
begins [] cs = true
begins (a ∷ as') [] = false
begins (a ∷ as') (c ∷ cs) = nat_eq a c && begins as' cs

-- `pattern in text`
occurs : List ℕ → List ℕ → Bool
occurs pattern' [] = begins pattern' []
occurs pattern' (c ∷ cs) = begins pattern' (c ∷ cs) || occurs pattern' cs

-- `value.startswith(prefix)`
unfoldable pub starts : String → String → Bool
unfolding codes
starts value prefix = begins (codes prefix) (codes value)

-- `value.lower().startswith(prefix)` for ASCII texts
unfoldable pub lower_starts : String → String → Bool
unfolding codes
lower_starts value prefix = begins (codes prefix) (lowered (codes value))

-- `prefix in value.lower()` for ASCII texts
unfoldable pub lower_has : String → String → Bool
unfolding codes occurs
lower_has value part = occurs (codes part) (lowered (codes value))

-- `value.count(c)` for one character
unfoldable pub count_code : ℕ → String → ℕ
count_code c String.[] = 0
count_code c (String.◌∷◌ d s) =
    let rest = count_code c s in if nat_eq (code d) c then suc rest else rest

digit : ℕ → String
digit zero = "0"
digit (suc zero) = "1"
digit (suc (suc zero)) = "2"
digit (suc (suc (suc zero))) = "3"
digit (suc (suc (suc (suc zero)))) = "4"
digit (suc (suc (suc (suc (suc zero))))) = "5"
digit (suc (suc (suc (suc (suc (suc zero)))))) = "6"
digit (suc (suc (suc (suc (suc (suc (suc zero))))))) = "7"
digit (suc (suc (suc (suc (suc (suc (suc (suc zero)))))))) = "8"
digit (suc (suc (suc (suc (suc (suc (suc (suc (suc n))))))))) = "9"

-- `str(n)`; the fuel `n + 1` is more than the number of digits
decimal : ℕ → ℕ → String → String
decimal zero n acc = acc
decimal (suc fuel) n acc =
    let rest = decimal fuel (n / 10) (digit (n % 10) ⊹ acc) in
    if ltb n 10 then digit n ⊹ acc else rest

unfoldable pub show : ℕ → String
unfolding decimal digit
show n = decimal (suc n) n ""

show-2043 : show 2043 ≡ "2043"
unfolding show
show-2043 = refl

-- `(?:[A-Za-z0-9]...)`: a first character by one test, the others by another, at most `most` in all.
abbrev pub is_word : (ℕ → Bool) → (ℕ → Bool) → ℕ → String → Bool
is_word first rest most String.[] = false
is_word first rest most (String.◌∷◌ c s) =
    first (code c) && (all_codes rest s && leb (suc (count s)) most)
