-- ===== src/Journal/Parsed.antt =====
-- What an accepted record text is.
use mathlib.Core.Path.{subst}
use zach.Action.Error.{journal_validation_error}
use zach.Common.{
  ◌≡◌, ◌≤◌, refl, ap, sym, ◌∙◌, Option, none, some, Bool, true, false, String, arith, eq_iff,
}
use zach.Python.Value.{Value, str, get, is_dict, eq_str}
use zach.Python.Json.{hooked}
use zach.Python.Json.Unique.{has_unique_keys, hooked-IsUnique}
use zach.Action.{Result, ok, err}
use zach.Action.Checks.{after_bind, after_require}
use zach.Platform.{Platform}
use zach.Journal.Record.{decoded, parse_and_validate_record, max_record_bytes}

pub eq_str_sound : (v : Value) (s : String) → eq_str v s ≡ true → v ≡ str s
eq_str_sound (str t) s h = ground (arith, eq_iff t s)
eq_str_sound v s h = ground arith

pub decoded-IsUnique :
    (strict : Bool) (raw : Option Value) {v : Value}
    → decoded strict raw ≡ ok v
    → (raw ≡ some v) × (has_unique_keys v ≡ true)
unfolding decoded
decoded-IsUnique strict none h = absurd (cc)
decoded-IsUnique strict (some raw) {v} h = split (hooked strict raw) refl h
  where
    split :
        (o : Option Value)
        → hooked strict raw ≡ o
        → ◌≡◌ {A = Result Value}
            (elim o [ none ↦ err journal_validation_error | some u ↦ ok u ])
            (ok v)
        → (some raw ≡ some v) × (has_unique_keys v ≡ true)
    split none e k = absurd (cc)
    split (some u) e k =
        let (same, unique) = hooked-IsUnique strict raw u e in
        let path : u ≡ v = cc in
        (cc, subst (λ x. has_unique_keys x ≡ true) (sym same ∙ path) unique)

-- A record text that `parse_and_validate_record` accepts is at most 64 KiB of UTF-8, and the value that
-- it returns is the JSON parse of that text: a dictionary in which, at any depth, no key is repeated,
-- and whose `request_id` is the expected one.
pub parse_and_validate_record_sound :
    {B : Type 0} (p : Platform B) (content request_id : String) {v : Value}
    → parse_and_validate_record p content request_id ≡ ok v
    → (p.size (p.encode content) ≤ max_record_bytes)
      × (p.loads content ≡ some v)
      × (is_dict v ≡ true)
      × (has_unique_keys v ≡ true)
      × (get "request_id" v ≡ str request_id)
unfolding parse_and_validate_record
parse_and_validate_record_sound p content request_id {v} h = after_require _ _ _ h λ small h₁.
    after_bind _ _ h₁ λ parsed good h₂. after_require _ _ _ h₂ λ shaped h₃.
      after_require _ _ _ h₃ λ named h₄.
        let same : parsed ≡ v = cc in
        let (raw, unique) = decoded-IsUnique false (p.loads content) good in
        (
          ground arith,
          raw ∙ ap some same,
          subst (λ x. is_dict x ≡ true) same shaped,
          subst (λ x. has_unique_keys x ≡ true) same unique,
          subst (λ x. get "request_id" x ≡ str request_id) same
              (eq_str_sound (get "request_id" parsed) request_id named),
        )
