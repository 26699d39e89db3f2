-- ===== src/Journal/Gate.antt =====
-- What a publication has established before it writes anything.
use zach.Common.{
  ◌≡◌, refl, ◌⊎◌, inl, inr, true, false, ◌∙◌, ap, Option, none, some, String, eq_iff, arith,
}
use zach.Python.Value.{Value}
use zach.Action.{ok, Action}
use zach.Action.Confined.{Confined}
use zach.Action.Inversion.{past_lift, past_bind, past_if}
use zach.Action.Checks.{after_require, require-ok}
use zach.Platform.{Platform}
use zach.Journal.Record.{JournalSnapshot, record_path_for_request_id, parse_and_validate_record}
use zach.Journal.Api.{Transport, get_method}
use zach.Journal.Load.{load}
use zach.Journal.Effects.{
  Any, Any-Raises, KeptBy, KeptByWrites, load-Confined, proposed_record_sound,
  write_record-Confined,
}
use zach.Journal.Publish.{
  NewRecord, TransitionValidator, proposed_record, same_snapshot, snapshot_eq, opt_str_eq,
  is_replay, is_accepted, record_text, publish,
}

or_nothing : {A : Type 0} → A ⊎ ⊥ → A
or_nothing (inl a) = a
or_nothing (inr b) = absurd b

opt_str_eq_sound : (a b : Option String) → opt_str_eq a b ≡ true → a ≡ b
opt_str_eq_sound none none h = refl
opt_str_eq_sound none (some t) h = cc
opt_str_eq_sound (some s) none h = cc
opt_str_eq_sound (some s) (some t) h = ground (arith, eq_iff s t)

snapshot_eq_sound : (a b : JournalSnapshot) → snapshot_eq a b ≡ true → a ≡ b
snapshot_eq_sound a b h = ground (
  arith,
  eq_iff a.head_sha b.head_sha,
  eq_iff a.tree_sha b.tree_sha,
  opt_str_eq_sound a.record_json b.record_json,
  opt_str_eq_sound a.record_blob_sha b.record_blob_sha,
)

same_snapshot_sound :
    (fresh snapshot : JournalSnapshot) → same_snapshot fresh snapshot ≡ ok tt → fresh ≡ snapshot
unfolding same_snapshot
same_snapshot_sound fresh snapshot h =
    after_require _ _ _ h
      λ _ same. snapshot_eq_sound fresh snapshot (require-ok (snapshot_eq fresh snapshot) _ same)

-- What is known once a publication has sent something other than a read: the caller's text is a valid
-- record of the request, the validator accepts the step to it, the journal still held exactly the
-- caller's snapshot, and the text is not already the stored one.
pub record Gate {B W : Type 0} (p : Platform B) (request : Transport W)
    (validate : TransitionValidator) (snapshot : JournalSnapshot) (request_id : String)
    (content : NewRecord B) (w : W) : Type 0 where
  pub proposal : String
  pub given : record_text p content ≡ ok proposal
  pub parsed : Value
  pub valid : parse_and_validate_record p proposal request_id ≡ ok parsed
  pub accepted : is_accepted (validate snapshot.record_json proposal) ≡ true
  pub current : (load p request request_id w).0 ≡ ok snapshot
  pub changed : is_replay snapshot proposal ≡ false

module _ {B W : Type 0} (p : Platform B) (request : Transport W) (P : W → Type 0)
    (gets : KeptBy P request get_method) where
  -- A property of the remote state that reads keep, and that, once the publication has passed the gate, the
  -- four writes of the text that passed it keep too, survives the publication, however it ends. So nothing is
  -- written unless the caller's text is a valid record of the request and differs from the stored one, the
  -- validator accepts the step, and a fresh load gave exactly the caller's snapshot; and what is written
  -- is that text.
  pub publish-Gate :
      (validate : TransitionValidator) (snapshot : JournalSnapshot) (request_id : String)
      (content : NewRecord B) (w : W)
      → ((gate : Gate p request validate snapshot request_id content w) (path : String)
          → record_path_for_request_id p request_id ≡ ok path
          → KeptByWrites p request P snapshot request_id path gate.proposal)
      → P w
      → P (publish p request validate snapshot request_id content w).1
  unfolding publish
  publish-Gate validate snapshot request_id content w writes start = or_nothing (
      past_lift P (proposed_record p validate snapshot request_id content) _ w start λ s proposed.
        past_lift P (record_path_for_request_id p request_id) _ w start λ path at_path.
          let kept = (load-Confined p request P gets request_id).keeps w start in
          past_bind P (load p request request_id) _ w kept λ fresh loaded.
            past_lift P (same_snapshot fresh snapshot) _ _ kept λ _ same.
              past_if P (is_replay snapshot s) _ _ _ kept λ changed.
                let sound = proposed_record_sound p validate snapshot request_id content proposed in
                let gate : Gate p request validate snapshot request_id content w = record {
                  proposal = s;
                  given = sound.0;
                  parsed = sound.2.0;
                  valid = sound.2.1;
                  accepted = sound.1;
                  current = loaded ∙ ap ok (same_snapshot_sound fresh snapshot same);
                  changed = changed;
                } in
                inl (
                  (write_record-Confined p request P gets snapshot request_id path s
                      (writes gate path at_path)).keeps
                    _ kept))

module _ {B W : Type 0} (p : Platform B) (request : Transport W) (P : W → Type 0)
    (gets : KeptBy P request get_method) where
  -- Either a property that reads keep has survived the publication, or the gate has been passed.
  pub publish_passed :
      (validate : TransitionValidator) (snapshot : JournalSnapshot) (request_id : String)
      (content : NewRecord B) (w : W)
      → P w
      → P (publish p request validate snapshot request_id content w).1
        ⊎ Gate p request validate snapshot request_id content w
  publish_passed validate snapshot request_id content w start =
      publish-Gate p request Q reads validate snapshot request_id content w
        (λ gate path _. record {
          blob = passed gate;
          tree = λ _. passed gate;
          commit = λ _. passed gate;
          ref = λ _. passed gate;
        })
        (inl start)
    where
      Q : W → Type 0
      Q v = P v ⊎ Gate p request validate snapshot request_id content w

      reads : KeptBy Q request get_method
      reads path body = record {
        keeps = λ v h. elim h [ inl k ↦ inl ((gets path body).keeps v k) | inr g ↦ inr g ];
        raises = λ v h. Any-Raises _;
      }

      passed :
          {A : Type 0} {m : Action W A}
          → Gate p request validate snapshot request_id content w
          → Confined Q Any m
      passed gate = record { keeps = λ v h. inr gate; raises = λ v h. Any-Raises _ }
