-- ===== src/Journal/LostAnswer.antt =====
-- The answer to the update of the ref plays no part in the outcome of a publication.
use mathlib.Core.Path.{fun_ext}
use zach.Common.{ℕ, suc, arith, ◌≡◌, refl, ap, List, [], ◌∷◌, String}
use zach.Action.{err, try, ◌>>=◌}
use zach.Action.Error.{other_exception}
use zach.Platform.{Platform}
use zach.Journal.Record.{JournalSnapshot}
use zach.Journal.Api.{get_method, post_method, patch_method, Transport}
use zach.Journal.Load.{at_level, regular_blob_sha, read_contents, load_at, load}
use zach.Journal.Publish.{
  NewRecord, TransitionValidator, create_candidate, move_ref, readback, write_record, publish,
}

-- The same remote, on a connection that loses the answer to each update of a ref.
abbrev pub lossy : {W : Type 0} → Transport W → Transport W
lossy request get_method = request get_method
lossy request post_method = request post_method
lossy request patch_method =
    λ path body w. (err other_exception, (request patch_method path body w).1)

module _ {W : Type 0} (request : Transport W) where
  regular_blob_sha-lossy :
      (sha : String) (index : ℕ) (parts : List String)
      → regular_blob_sha (lossy request) sha index parts ≡ regular_blob_sha request sha index parts
  unfolding regular_blob_sha at_level
  regular_blob_sha-lossy sha index [] = refl
  regular_blob_sha-lossy sha index (part ∷ parts) =
      ap (at_level request sha index part) (fun_ext λ s. regular_blob_sha-lossy s (suc index) parts)

  move_ref-lossy : (sha : String) → move_ref (lossy request) sha ≡ move_ref request sha
  unfolding move_ref try ◌>>=◌
  move_ref-lossy sha = fun_ext λ w. ground arith

  readback-lossy :
      (sha head tree : String)
      → readback (lossy request) sha head tree ≡ readback request sha head tree
  unfolding readback
  readback-lossy sha head tree = refl

module _ {B W : Type 0} (p : Platform B) (request : Transport W) where
  load_at-lossy :
      (request_id sha : String)
      → load_at p (lossy request) request_id sha ≡ load_at p request request_id sha
  unfolding load_at read_contents
  load_at-lossy request_id sha = simp regular_blob_sha-lossy

  load-lossy : (request_id : String) → load p (lossy request) request_id ≡ load p request request_id
  unfolding load
  load-lossy request_id = simp load_at-lossy

  create_candidate-lossy :
      (snapshot : JournalSnapshot) (request_id path content : String)
      → create_candidate p (lossy request) snapshot request_id path content
        ≡ create_candidate p request snapshot request_id path content
  unfolding create_candidate
  create_candidate-lossy snapshot request_id path content = refl

  write_record-lossy :
      (snapshot : JournalSnapshot) (request_id path content : String)
      → write_record p (lossy request) snapshot request_id path content
        ≡ write_record p request snapshot request_id path content
  unfolding write_record
  write_record-lossy snapshot request_id path content =
      simp (create_candidate-lossy, move_ref-lossy, readback-lossy)

  -- If the connection loses the answer to the update of the ref, `publish` still ends in the same
  -- result and leaves the same remote state, for every transport, validator, snapshot and record.
  pub publish-lossy :
      (validate : TransitionValidator) (snapshot : JournalSnapshot) (request_id : String)
      (content : NewRecord B)
      → publish p (lossy request) validate snapshot request_id content
        ≡ publish p request validate snapshot request_id content
  unfolding publish
  publish-lossy validate snapshot request_id content = simp (load-lossy, write_record-lossy)
