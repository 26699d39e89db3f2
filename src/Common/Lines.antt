-- ===== src/Common/Lines.antt =====
-- Texts that are searched for a part or split into lines.
use Prim.Native.Nat.{ℕ, zero, suc, ◌-◌}
use Prim.Native.Char.{code}
use Prim.Native.String.{String, count}
use mathlib.Core.Bool.{Bool, ◌||◌}
use mathlib.Core.List.{List, [], ◌∷◌}
use mathlib.Core.Option.{Option, none, some}
use zach.Common.Tests.{◌==◌ as nat_eq, if◌then◌else◌}
use zach.Common.Text.{◌⊹◌, str_eq, starts}

-- `value.split(c)` for a character of code `c`, where `line` is the part that is being read
parts_from : ℕ → String → String → List String
parts_from separator line String.[] = line ∷ []
parts_from separator line (String.◌∷◌ c s) =
    if nat_eq (code c) separator
    then line ∷ parts_from separator "" s
    else parts_from separator (line ⊹ String.◌∷◌ c String.[]) s

unfoldable pub split_code : ℕ → String → List String
unfolding parts_from
split_code separator s = parts_from separator "" s

-- `value.split("\n")`
unfoldable pub split_lines : String → List String
split_lines s = split_code b'\n' s

-- `"\n".join(lines)`
unfoldable pub join_lines : List String → String
join_lines [] = ""
join_lines (s ∷ []) = s
join_lines (s ∷ t ∷ lines) = s ⊹ "\n" ⊹ join_lines (t ∷ lines)

-- `part in value`
unfoldable pub has_part : String → String → Bool
has_part part String.[] = str_eq part ""
has_part part (String.◌∷◌ c s) = let rest = has_part part s in starts (String.◌∷◌ c s) part || rest

-- `value.count(part)` without overlaps, where `skip` characters belong to the last one found
parts_after : ℕ → String → String → ℕ
parts_after skip part String.[] = 0
parts_after (suc skip) part (String.◌∷◌ c s) = parts_after skip part s
parts_after zero part (String.◌∷◌ c s) =
    let found = parts_after (count part - 1) part s in
    let rest = parts_after zero part s in if starts (String.◌∷◌ c s) part then suc found else rest

-- `value.count(part)` for a part that is not empty
unfoldable pub count_part : String → String → ℕ
unfolding parts_after
count_part part value = parts_after zero part value

unfoldable pub drop_chars : ℕ → String → String
drop_chars zero s = s
drop_chars (suc n) String.[] = ""
drop_chars (suc n) (String.◌∷◌ c s) = drop_chars n s

add_char : String → Option (String × String) → Option (String × String)
add_char c none = none
add_char c (some (before, after)) = some (c ⊹ before, after)

-- What stands before and after the first occurrence of a part that is not empty.
unfoldable pub split_at : String → String → Option (String × String)
unfolding add_char
split_at part String.[] = none
split_at part (String.◌∷◌ c s) =
    let rest = add_char (String.◌∷◌ c String.[]) (split_at part s) in
    if starts (String.◌∷◌ c s) part
    then some ("", drop_chars (count part) (String.◌∷◌ c s))
    else rest
