-- ===== src/CiInspect/RunEquality.antt =====
-- Lemmas on `==` of two run summaries of scripts/actions_ci_inspect.py.
use zach.Common.{
  List, [], ◌∷◌, All, ℕ, ◌≡◌, refl, ap, Bool, true, false, Option, none, some, String, str_eq,
  eq_iff, arith, ◌==◌,
}
use zach.CiInspect.Runs.{RunSummary, all_true, opt_eq, run_eq}

all_true_sound : (bs : List Bool) → all_true bs ≡ true → All (λ b. b ≡ true) bs
all_true_sound [] h = tt
all_true_sound (true ∷ bs) h = (refl, all_true_sound bs h)
all_true_sound (false ∷ bs) h = absurd (cc)

same_number : (m n : ℕ) → (m == n) ≡ true → m ≡ n
same_number m n h = ground arith

opt_eq_sound : (a b : Option String) → opt_eq a b ≡ true → a ≡ b
opt_eq_sound none none h = refl
opt_eq_sound (some s) (some t) h = ap some ((eq_iff s t).0 h)
opt_eq_sound none (some t) h = absurd (cc)
opt_eq_sound (some s) none h = absurd (cc)

-- Two run summaries that compare equal are equal: no entry is left out of the comparison.
pub run_eq_sound : (a b : RunSummary) → run_eq a b ≡ true → a ≡ b
unfolding run_eq
run_eq_sound a b h =
    let h' =
      all_true_sound
        ((a.id == b.id)
          ∷ (a.attempt == b.attempt)
          ∷ (a.workflow_id == b.workflow_id)
          ∷ str_eq a.workflow_path b.workflow_path
          ∷ str_eq a.event b.event
          ∷ str_eq a.status b.status
          ∷ opt_eq a.conclusion b.conclusion
          ∷ str_eq a.head_sha b.head_sha
          ∷ (a.repository_id == b.repository_id)
          ∷ (a.head_repository_id == b.head_repository_id)
          ∷ str_eq a.created_at b.created_at
          ∷ str_eq a.updated_at b.updated_at
          ∷ str_eq a.html_url b.html_url
          ∷ [])
        h in
    let id_path : a.id ≡ b.id = same_number a.id b.id h'.0 in
    let attempt_path : a.attempt ≡ b.attempt = same_number a.attempt b.attempt h'.1.0 in
    let workflow_id_path : a.workflow_id ≡ b.workflow_id =
      same_number a.workflow_id b.workflow_id h'.1.1.0 in
    let workflow_path_path : a.workflow_path ≡ b.workflow_path =
      (eq_iff a.workflow_path b.workflow_path).0 h'.1.1.1.0 in
    let event_path : a.event ≡ b.event = (eq_iff a.event b.event).0 h'.1.1.1.1.0 in
    let status_path : a.status ≡ b.status = (eq_iff a.status b.status).0 h'.1.1.1.1.1.0 in
    let conclusion_path : a.conclusion ≡ b.conclusion =
      opt_eq_sound a.conclusion b.conclusion h'.1.1.1.1.1.1.0 in
    let head_sha_path : a.head_sha ≡ b.head_sha =
      (eq_iff a.head_sha b.head_sha).0 h'.1.1.1.1.1.1.1.0 in
    let repository_id_path : a.repository_id ≡ b.repository_id =
      same_number a.repository_id b.repository_id h'.1.1.1.1.1.1.1.1.0 in
    let head_repository_id_path : a.head_repository_id ≡ b.head_repository_id =
      same_number a.head_repository_id b.head_repository_id h'.1.1.1.1.1.1.1.1.1.0 in
    let created_at_path : a.created_at ≡ b.created_at =
      (eq_iff a.created_at b.created_at).0 h'.1.1.1.1.1.1.1.1.1.1.0 in
    let updated_at_path : a.updated_at ≡ b.updated_at =
      (eq_iff a.updated_at b.updated_at).0 h'.1.1.1.1.1.1.1.1.1.1.1.0 in
    let html_url_path : a.html_url ≡ b.html_url =
      (eq_iff a.html_url b.html_url).0 h'.1.1.1.1.1.1.1.1.1.1.1.1.0 in
    λ i. record {
      id = id_path i;
      attempt = attempt_path i;
      workflow_id = workflow_id_path i;
      workflow_path = workflow_path_path i;
      event = event_path i;
      status = status_path i;
      conclusion = conclusion_path i;
      head_sha = head_sha_path i;
      repository_id = repository_id_path i;
      head_repository_id = head_repository_id_path i;
      created_at = created_at_path i;
      updated_at = updated_at_path i;
      html_url = html_url_path i;
    }
