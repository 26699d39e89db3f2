-- ===== src/Journal/Snapshot.antt =====
-- What a loaded snapshot guarantees.
use zach.Common.{◌⊎◌, inl, inr, ap, ◌≡◌, ◌≤◌, true, Option, none, some, String, arith, eq_iff}
use zach.Python.Value.{Value, str}
use zach.Action.{Result, ok}
use zach.Action.Checks.{after_bind, after_require, or_raise-ok}
use zach.Action.Inversion.{after_action, after_lift}
use zach.Platform.{Platform, git_blob_sha}
use zach.Journal.Record.{
  JournalSnapshot, is_sha40, validate_sha40, parse_and_validate_record, max_record_bytes,
  extract_tree_sha, extract_ref_sha,
}
use zach.Journal.Contents.{checked_record}
use zach.Journal.Api.{Transport}
use zach.Journal.Load.{snapshot_of, load_at, load}

-- The record's bytes: within the limit, hashed to the blob of the pinned tree, and valid for the request.
pub record IsBound {B : Type 0} (p : Platform B) (request_id content blob_sha : String)
    : Type 0 where
  pub raw : B
  pub bounded : p.size raw ≤ max_record_bytes
  pub decodes : p.decode raw ≡ some content
  pub hashes : git_blob_sha p raw ≡ blob_sha
  pub parsed : Value
  pub parses : parse_and_validate_record p content request_id ≡ ok parsed

validate_sha40_sound :
    (v : Value) (s : String) → validate_sha40 v ≡ ok s → (v ≡ str s) × (is_sha40 s ≡ true)
unfolding validate_sha40
validate_sha40_sound v s h = ground arith

module _ {B : Type 0} (p : Platform B) where
  checked_record-IsBound :
      (request_id : String) (expected : Option String) (answer : Value) {checked : String × String}
      → checked_record p request_id expected answer ≡ ok checked
      → (expected ≡ some checked.1) × IsBound p request_id checked.0 checked.1
  unfolding checked_record
  checked_record-IsBound request_id expected answer h = after_bind _ _ h λ blob known h₁.
      after_require _ _ _ h₁ λ _ h₂. after_require _ _ _ h₂ λ _ h₃. after_bind _ _ h₃ λ size _ h₄.
        after_bind _ _ h₄ λ raw_b64 _ h₅. after_bind _ _ h₅ λ raw _ h₆.
          after_require _ _ _ h₆ λ fits h₇. after_bind _ _ h₇ λ content decodes h₈.
            after_bind _ _ h₈ λ v parses h₉. after_bind _ _ h₉ λ blob_sha _ h₁₀.
              after_require _ _ _ h₁₀ λ same h₁₁.
                let known_blob = or_raise-ok expected _ known in
                (
                  ground (arith, eq_iff blob_sha blob),
                  record {
                    raw = raw;
                    bounded = ground arith;
                    decodes = ground (arith, or_raise-ok (p.decode raw) _ decodes);
                    hashes = ground (arith, eq_iff (git_blob_sha p raw) blob_sha);
                    parsed = v;
                    parses = ground arith;
                  },
                )

-- What a snapshot says of its request: no record and no blob, or a record that is bound to its blob.
abbrev pub IsRecorded : {B : Type 0} → Platform B → String → JournalSnapshot → Type 0
IsRecorded p request_id snapshot =
    ((snapshot.record_json ≡ none) × (snapshot.record_blob_sha ≡ none))
    ⊎ ((content : String) × (blob_sha : String) × (snapshot.record_json ≡ some content)
        × (snapshot.record_blob_sha ≡ some blob_sha)
        × IsBound p request_id content blob_sha)

module _ {B : Type 0} (p : Platform B) where
  snapshot_of-IsRecorded :
      (request_id head_sha tree_sha : String) (expected : Option String) (answer : Option Value)
      {snapshot : JournalSnapshot}
      → snapshot_of p request_id head_sha tree_sha expected answer ≡ ok snapshot
      → (snapshot.head_sha ≡ head_sha)
        × (snapshot.tree_sha ≡ tree_sha)
        × IsRecorded p request_id snapshot
  unfolding snapshot_of
  snapshot_of-IsRecorded request_id head_sha tree_sha expected none h =
      (ground arith, ground arith, inl (ground arith, ground arith))
  snapshot_of-IsRecorded request_id head_sha tree_sha expected (some answer) h =
      after_bind _ _ h λ checked good h₁. (
        ground arith,
        ground arith,
        inr (
          checked.0,
          checked.1,
          ground arith,
          ground arith,
          (checked_record-IsBound p request_id expected answer good).1,
        ),
      )

module _ {B W : Type 0} (p : Platform B) (request : Transport W) where
  load_at-IsRecorded :
      (request_id head_sha : String) (w : W) {snapshot : JournalSnapshot} {w' : W}
      → load_at p request request_id head_sha w ≡ (ok snapshot, w')
      → (snapshot.head_sha ≡ head_sha)
        × (is_sha40 snapshot.tree_sha ≡ true)
        × IsRecorded p request_id snapshot
  unfolding load_at
  load_at-IsRecorded request_id head_sha w h = after_lift _ _ w h λ _ _ h₁.
      after_lift _ _ w h₁ λ _ _ h₂. after_lift _ _ w h₂ λ path _ h₃.
        after_action _ _ w h₃ λ commit w₁ _ h₄.
          after_lift (validate_sha40 (extract_tree_sha commit)) _ w₁ h₄ λ tree tree_ok h₅.
            after_action _ _ w₁ h₅ λ expected w₂ _ h₆. after_action _ _ w₂ h₆ λ answer w₃ _ h₇.
              let bound =
                snapshot_of-IsRecorded p request_id head_sha tree expected answer
                  (ap (λ (x : Result JournalSnapshot × W). x.0) h₇) in
              (
                bound.0,
                rw bound.1 (validate_sha40_sound (extract_tree_sha commit) tree tree_ok).1,
                bound.2,
              )

  -- A loaded snapshot has well-formed SHAs, and its record, if there is one, is valid for the request,
  -- at most 64 KiB long and hashed to the blob that the snapshot names.
  pub load-IsRecorded :
      (request_id : String) (w : W) {snapshot : JournalSnapshot} {w' : W}
      → load p request request_id w ≡ (ok snapshot, w')
      → (is_sha40 snapshot.head_sha ≡ true)
        × (is_sha40 snapshot.tree_sha ≡ true)
        × IsRecorded p request_id snapshot
  unfolding load
  load-IsRecorded request_id w h = after_lift _ _ w h λ _ _ h₁. after_lift _ _ w h₁ λ _ _ h₂.
      after_action _ _ w h₂ λ ref w₁ _ h₃.
        after_lift (validate_sha40 (extract_ref_sha ref)) _ w₁ h₃ λ head head_ok h₄.
          let bound = load_at-IsRecorded request_id head w₁ h₄ in
          (rw bound.0 (validate_sha40_sound (extract_ref_sha ref) head head_ok).1, bound.1, bound.2)
