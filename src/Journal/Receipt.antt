-- ===== src/Journal/Receipt.antt =====
-- What a receipt of a publication proves.
use mathlib.Core.Path.{subst₂}
use zach.Common.{◌≡◌, refl, ap, ◌∙◌, ◌⊎◌, inl, inr, true, false, String}
use zach.Python.Value.{Value, null}
use zach.Action.{ok}
use zach.Action.Inversion.{after_action, after_lift, after_if, after_try, ok-injective}
use zach.Platform.{Platform}
use zach.Journal.Record.{JournalSnapshot, PublicationReceipt}
use zach.Journal.Api.{Transport, get_method, ref_path, commit_path}
use zach.Journal.Load.{load}
use zach.Journal.Publish.{
  NewRecord, TransitionValidator, is_replay, readback, confirms, write_record, publish,
}

-- The last two requests of a publication that ended in `last` read the ref and the candidate: the ref
-- names the receipt's commit, and this commit has the snapshot's head as its only parent and the
-- receipt's tree.
pub record IsProved {W : Type 0} (request : Transport W) (snapshot : JournalSnapshot)
    (receipt : PublicationReceipt) (last : W) : Type 0 where
  pub before : W
  pub between : W
  pub ref_answer : Value
  pub commit_answer : Value
  pub read_ref : request get_method ref_path null before ≡ (ok ref_answer, between)
  pub read_commit :
      request get_method (commit_path receipt.commit_sha) null between ≡ (ok commit_answer, last)
  pub confirmed :
      confirms receipt.commit_sha snapshot.head_sha receipt.tree_sha ref_answer commit_answer ≡ true

-- What a receipt means, by its kind: a replay is of the snapshot's own record, and no request but the
-- reads of `load` was sent; a new publication is proved.
abbrev pub Receipted :
    {B W : Type 0}
    → Platform B
    → Transport W
    → JournalSnapshot
    → String
    → W
    → PublicationReceipt
    → W
    → Type 0
Receipted p request snapshot request_id w receipt w' =
    ((receipt.replayed ≡ true)
      × (receipt.commit_sha ≡ snapshot.head_sha)
      × (receipt.tree_sha ≡ snapshot.tree_sha)
      × ((load p request request_id w).1 ≡ w'))
    ⊎ ((receipt.replayed ≡ false) × IsProved request snapshot receipt w')

module _ {W : Type 0} (request : Transport W) where
  readback-IsProved :
      (snapshot : JournalSnapshot) (candidate tree : String) (w w' : W)
      → readback request candidate snapshot.head_sha tree w ≡ (ok true, w')
      → IsProved request snapshot
          (record { commit_sha = candidate; tree_sha = tree; replayed = false })
          w'
  unfolding readback
  readback-IsProved snapshot candidate tree w w' h =
      after_try _ _ w h
        (λ h₁. after_action _ _ w h₁ λ ref w₁ read_ref h₂.
          after_action _ _ w₁ h₂ λ commit w₂ read_commit h₃. record {
            before = w;
            between = w₁;
            ref_answer = ref;
            commit_answer = commit;
            read_ref = read_ref;
            read_commit = cc;
            confirmed = cc;
          })
        (λ e w₁ _ h₁. absurd (cc))

module _ {B W : Type 0} (p : Platform B) (request : Transport W) where
  write_record-IsProved :
      (snapshot : JournalSnapshot) (request_id path content : String) (w : W)
      {receipt : PublicationReceipt} {w' : W}
      → write_record p request snapshot request_id path content w ≡ (ok receipt, w')
      → (receipt.replayed ≡ false) × IsProved request snapshot receipt w'
  unfolding write_record
  write_record-IsProved snapshot request_id path content w {receipt} {w'} h =
      after_action _ _ w h λ created w₁ _ h₁. after_action _ _ w₁ h₁ λ _ w₂ _ h₂.
        after_action _ _ w₂ h₂ λ proved w₃ read h₃.
          after_if proved _ _ w₃ h₃
            (λ e h₄.
              let done : IsProved request snapshot
                  (record { commit_sha = created.0; tree_sha = created.1; replayed = false }) w₃ =
                readback-IsProved request snapshot created.0 created.1 w₂ w₃
                  (read ∙ ap (λ b. (ok b, w₃)) e) in
              subst₂ (λ r v. (r.replayed ≡ false) × IsProved request snapshot r v)
                (ok-injective h₄).0 (ok-injective h₄).1 (refl, done))
            (λ _ h₄. absurd (cc))

  -- Each receipt of a publication is either of a replay, with no request sent but the reads of `load`,
  -- or of a new commit that the last two requests have proved.
  pub publish-Receipted :
      (validate : TransitionValidator) (snapshot : JournalSnapshot) (request_id : String)
      (content : NewRecord B) (w : W) {receipt : PublicationReceipt} {w' : W}
      → publish p request validate snapshot request_id content w ≡ (ok receipt, w')
      → Receipted p request snapshot request_id w receipt w'
  unfolding publish
  publish-Receipted validate snapshot request_id content w h = after_lift _ _ w h λ text _ h₁.
      after_lift _ _ w h₁ λ path _ h₂. after_action _ _ w h₂ λ fresh w₁ loaded h₃.
        after_lift _ _ w₁ h₃ λ _ _ h₄.
          after_if (is_replay snapshot text) _ _ w₁ h₄ (λ _ h₅. inl (cc, cc, cc, cc))
            (λ _ h₅. inr (write_record-IsProved snapshot request_id path text w₁ h₅))
