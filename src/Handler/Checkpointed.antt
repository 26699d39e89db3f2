-- ===== src/Handler/Checkpointed.antt =====
-- What a parsed comment of the Publisher is, in scripts/actions_request_handler.py.
use mathlib.Core.Path.{subst}
use zach.Common.{
  ℕ, ◌≡◌, ◌≤◌, refl, sym, ap, ◌∙◌, Bool, true, false, ◌&&◌, Option, none, some, List, String, arith,
  leb, str_eq, has_part, if◌then◌else◌,
}
use zach.Python.Value.{Value, str, get}
use zach.Action.{Result, ok, err, recode}
use zach.Action.Error.{Exc}
use zach.Action.Checks.{after_bind, after_require, require-ok}
use zach.Platform.{Platform}
use zach.Handler.Bundle.{ExecutionBundle, from_dict, validate_execution_bundle}
use zach.Handler.Marker.{
  PublisherKind, PublisherMarker, intent, prepare, publication, published, publisher_prefix,
}
use zach.Handler.Handoff.{validate_ledger_publication}
use zach.Handler.Receipt.{as_expected}
use zach.Journal.Parsed.{eq_str_sound}
use zach.Handler.Publisher.{
  check_intent, max_publisher_checkpoint_bytes, carries_publication, format_publisher_comment,
  check_publication, is_bundle_marked, check_bundle_envelope, check_publisher_envelope,
  parse_checkpoint, parse_prefixed, parse_publisher_comment,
}
use zach.Handler.Canonical.{same_text, some-same, if_some}

and-true : (a b : Bool) → (a && b) ≡ true → (a ≡ true) × (b ≡ true)
and-true true b h = (refl, h)
and-true false b h = absurd (cc)

recode-ok : {A : Type 0} (e : Exc) (r : Result A) {a : A} → recode e r ≡ ok a → r ≡ ok a
unfolding recode
recode-ok e (ok b) h = h
recode-ok e (err x) h = absurd (cc)

leb_le : (m n : ℕ) → leb m n ≡ true → m ≤ n
leb_le m n h = ground arith

-- `kind != "intent"`
abbrev pub carries_bundle : PublisherKind → Bool
carries_bundle intent = false
carries_bundle _ = true

if_true :
    {b : Bool} {r : Result (Unit {0})} {u : Unit {0}}
    → b ≡ true
    → (if b then r else ok tt) ≡ ok u
    → r ≡ ok tt
if_true {b = true} e k = k
if_true {b = false} e k = absurd (cc)

if_asked :
    {C : Type 0} (b : Bool) {r : Result (Option Value)} {envelope : Value}
    → (if b then r else ok none) ≡ ok (some envelope)
    → (b ≡ true → r ≡ ok (some envelope) → C)
    → C
if_asked true h k = k refl h
if_asked false h k = absurd (cc)

-- The envelope itself names the request and the execution.
pub record IsNamed (execution_id request_id : String) (envelope : Value) : Type 0 where
  pub names_request : get "request_id" envelope ≡ str request_id
  pub names_execution : get "execution_id" envelope ≡ str execution_id

module _ {B : Type 0} (p : Platform B) where
  -- The envelope carries a bundle of the execution, which repeats the record that it carries, and a
  -- publication that the bundle's request asked for where the kind has one.
  pub record IsCarried (kind : PublisherKind) (execution_id request_id : String) (envelope : Value)
      : Type 0 where
    pub bundle : ExecutionBundle
    pub frozen : Value
    pub read : from_dict (get "bundle" envelope) ≡ ok bundle
    pub validated : validate_execution_bundle p bundle ≡ ok frozen
    pub of_request : bundle.request_id ≡ request_id
    pub of_execution : bundle.execution_id ≡ execution_id
    pub publishes :
        carries_publication kind ≡ true
        → validate_ledger_publication p bundle (get "publication" envelope) ≡ ok tt

  pub record IsCheckpoint (body : String) (kind : PublisherKind) (execution_id : String)
      (expected : Option String) (envelope : Value) : Type 0 where
    pub request_id : String
    pub as_asked : as_expected expected request_id ≡ true
    pub is_bounded : p.size (p.encode body) ≤ max_publisher_checkpoint_bytes
    pub canonical : format_publisher_comment p kind envelope ≡ ok body
    pub carried : carries_bundle kind ≡ true → IsCarried kind execution_id request_id envelope
    pub intended : kind ≡ intent → IsNamed execution_id request_id envelope

  check_bundle_envelope-IsCarried :
      (kind : PublisherKind) (marker : PublisherMarker) (execution_id : String) (envelope : Value)
      → check_bundle_envelope p kind marker execution_id envelope ≡ ok tt
      → IsCarried kind execution_id marker.request_id envelope
  unfolding check_bundle_envelope check_publication is_bundle_marked
  check_bundle_envelope-IsCarried kind marker execution_id envelope h =
      after_require _ _ _ h λ _ h₁. after_require _ _ _ h₁ λ _ h₂. after_bind _ _ h₂ λ _ _ h₃.
        after_bind _ _ h₃ λ bundle read h₄. after_bind _ _ h₄ λ _ publishes h₅.
          after_bind _ _ h₅ λ frozen validated h₆.
            let marked = and-true _ _ (require-ok _ _ h₆) in
            let executed = and-true _ _ marked.0 in
            let digested = and-true _ _ executed.0 in
            record {
              bundle = bundle;
              frozen = frozen;
              read = read;
              validated = recode-ok _ _ validated;
              of_request = same_text _ _ digested.0;
              of_execution = same_text _ _ executed.1;
              publishes = λ carries. if_true carries publishes;
            }

  -- The branches of the kinds.
  check_publisher_envelope-IsCarried :
      (kind : PublisherKind) (marker : PublisherMarker) (execution_id : String) (envelope : Value)
      → check_publisher_envelope p kind marker execution_id envelope ≡ ok tt
      → carries_bundle kind ≡ true
      → IsCarried kind execution_id marker.request_id envelope
  check_publisher_envelope-IsCarried intent marker execution_id envelope h c = absurd (cc)
  check_publisher_envelope-IsCarried prepare marker execution_id envelope h c =
      check_bundle_envelope-IsCarried _ _ _ _ h
  check_publisher_envelope-IsCarried publication marker execution_id envelope h c =
      check_bundle_envelope-IsCarried _ _ _ _ h
  check_publisher_envelope-IsCarried published marker execution_id envelope h c =
      check_bundle_envelope-IsCarried _ _ _ _ h

  check_intent-IsNamed :
      (marker : PublisherMarker) (execution_id : String) (envelope : Value)
      → check_intent p marker execution_id envelope ≡ ok tt
      → IsNamed execution_id marker.request_id envelope
  unfolding check_intent
  check_intent-IsNamed marker execution_id envelope h = after_require _ _ _ h λ _ h₁.
      after_require _ _ _ h₁ λ named _.
        let to_execution = and-true _ _ (and-true _ _ named).0 in
        let to_digest = and-true _ _ to_execution.0 in
        let to_request = and-true _ _ to_digest.0 in
        record {
          names_request = eq_str_sound _ _ to_request.1;
          names_execution = eq_str_sound _ _ to_execution.1;
        }

  check_publisher_envelope-IsNamed :
      (kind : PublisherKind) (marker : PublisherMarker) (execution_id : String) (envelope : Value)
      → check_publisher_envelope p kind marker execution_id envelope ≡ ok tt
      → kind ≡ intent
      → IsNamed execution_id marker.request_id envelope
  check_publisher_envelope-IsNamed intent marker execution_id envelope h c =
      check_intent-IsNamed marker execution_id envelope h
  check_publisher_envelope-IsNamed prepare marker execution_id envelope h c = absurd (cc)
  check_publisher_envelope-IsNamed publication marker execution_id envelope h c = absurd (cc)
  check_publisher_envelope-IsNamed published marker execution_id envelope h c = absurd (cc)

  parse_checkpoint-IsCheckpoint :
      (body : String) (inner : List String) (kind : PublisherKind) (marker : PublisherMarker)
      (execution_id : String) (expected : Option String) {envelope : Value}
      → as_expected expected marker.request_id ≡ true
      → p.size (p.encode body) ≤ max_publisher_checkpoint_bytes
      → parse_checkpoint p body inner kind marker execution_id ≡ ok (some envelope)
      → IsCheckpoint body kind execution_id expected envelope
  unfolding parse_checkpoint
  parse_checkpoint-IsCheckpoint body inner kind marker execution_id expected asked bounded h =
      after_bind _ _ h λ envelope _ h₁. after_require _ _ _ h₁ λ _ h₂.
        after_bind _ _ h₂ λ _ checked h₃. after_bind _ _ h₃ λ canonical formatted h₄.
          after_require _ _ _ h₄ λ same h₅.
            subst (IsCheckpoint body kind execution_id expected) (some-same h₅) (record {
              request_id = marker.request_id;
              as_asked = asked;
              is_bounded = bounded;
              canonical = formatted ∙ ap ok (sym (same_text _ _ same));
              carried =
                  check_publisher_envelope-IsCarried kind marker execution_id envelope checked;
              intended = check_publisher_envelope-IsNamed kind marker execution_id envelope checked;
            })

  parse_prefixed-IsCheckpoint :
      (body : String) (kind : PublisherKind) (execution_id : String) (expected : Option String)
      {envelope : Value}
      → parse_prefixed p body kind execution_id expected ≡ ok (some envelope)
      → IsCheckpoint body kind execution_id expected envelope
  unfolding parse_prefixed
  parse_prefixed-IsCheckpoint body kind execution_id expected h = after_require _ _ _ h λ size h₁.
      after_require _ _ _ h₁ λ _ h₂. after_bind _ _ h₂ λ inner _ h₃.
        after_bind _ _ h₃ λ marker _ h₄.
          if_asked (as_expected expected marker.request_id) h₄ λ asked h₅.
            after_bind _ _ h₅ λ digest _ h₆. if_some (str_eq marker.execution_digest digest) h₆ (
              parse_checkpoint-IsCheckpoint body inner kind marker execution_id expected asked
                (leb_le _ _ size))

  -- A comment of the Publisher that is found in a body is no longer than 64 KiB, formats to the body, and
  -- belongs to the request that is asked for: an intent names the request and the execution itself; in any
  -- other kind, the bundle is of the request and the execution and repeats the record that it carries,
  -- and a publication has been checked against it.
  pub parse_publisher_comment-IsCheckpoint :
      (body : String) (kind : PublisherKind) (execution_id : String) (expected : Option String)
      {envelope : Value}
      → parse_publisher_comment p (str body) kind execution_id expected ≡ ok (some envelope)
      → IsCheckpoint body kind execution_id expected envelope
  unfolding parse_publisher_comment
  parse_publisher_comment-IsCheckpoint body kind execution_id expected h =
      if_some (has_part (publisher_prefix kind) body) h
        (parse_prefixed-IsCheckpoint body kind execution_id expected)
