-- ===== src/Handler/Observed.antt =====
-- What the Publisher of scripts/actions_request_handler.py has seen when it finds a receipt.
use mathlib.Core.Path.{subst}
use mathlib.Core.List.{Memᴰ}
use zach.Common.{
  ℕ, ◌≡◌, refl, ap, Bool, true, false, Option, some, List, [], ◌∷◌, String, if◌then◌else◌,
}
use zach.Python.Value.{Value, str, get}
use zach.Action.{Result, ok}
use zach.Action.Inversion.{after_action, after_lift}
use zach.Platform.{Platform}
use zach.Journal.Api.{Transport}
use zach.Handler.Bundle.{TrustedReceiptPolicy}
use zach.Handler.Comment.{Issue, is_trusted_comment_author, stable_comments}
use zach.Handler.Receipt.{ReceiptBinding, parse_receipt_comment, formatted}
use zach.Handler.Trusted.{Match}
use zach.Handler.Observe.{candidates, single_receipt, observe_receipt, names_request}
use zach.Handler.Canonical.{IsReceipt, parse_receipt_comment-IsReceipt}
use zach.Handler.Selected.{IsMatch, IsSelection, matching-IsSelection}

-- The loops of the Publisher pass over comments only.
candidates-listed :
    (request_id : String) (comments : List (ℕ × Value)) {c : ℕ × Value}
    → Memᴰ c (candidates request_id comments)
    → Memᴰ c comments
unfolding candidates
candidates-listed request_id [] h = h
candidates-listed request_id ((id, comment) ∷ comments) {c} h =
    split (names_request request_id (get "body" comment)) h
      λ k. candidates-listed request_id comments k
  where
    split :
        (b : Bool)
        → Memᴰ c (
            if b
            then (id, comment) ∷ candidates request_id comments
            else candidates request_id comments)
        → (Memᴰ c (candidates request_id comments) → Memᴰ c comments)
        → Memᴰ c ((id, comment) ∷ comments)
    split true (Memᴰ.head e) k = Memᴰ.head e
    split true (Memᴰ.tail i) k = Memᴰ.tail (k i)
    split false i k = Memᴰ.tail (k i)

-- A comment whose body names the request is not passed over.
listed-candidates :
    (request_id : String) (comments : List (ℕ × Value)) (c : ℕ × Value)
    → names_request request_id (get "body" c.1) ≡ true
    → Memᴰ c comments
    → Memᴰ c (candidates request_id comments)
unfolding candidates
listed-candidates request_id [] c named i = i
listed-candidates request_id ((id, comment) ∷ comments) c named (Memᴰ.head e) =
    kept _ (subst (λ (d : ℕ × Value). names_request request_id (get "body" d.1) ≡ true) e named)
  where
    kept :
        (b : Bool)
        → b ≡ true
        → Memᴰ c (
            if b
            then (id, comment) ∷ candidates request_id comments
            else candidates request_id comments)
    kept true t = Memᴰ.head e
    kept false t = absurd (cc)
listed-candidates request_id ((id, comment) ∷ comments) c named (Memᴰ.tail i) =
    later (names_request request_id (get "body" comment))
      (listed-candidates request_id comments c named i)
  where
    later :
        (b : Bool)
        → Memᴰ c (candidates request_id comments)
        → Memᴰ c (
            if b
            then (id, comment) ∷ candidates request_id comments
            else candidates request_id comments)
    later true k = Memᴰ.tail k
    later false k = k

module _ {B : Type 0} (p : Platform B) where
  -- The body is a text, and a receipt.
  pub record IsReceiptBody (v : Value) (binding : ReceiptBinding) (envelope : Value) : Type 0 where
    pub text : String
    pub is_text : v ≡ str text
    pub receipt : IsReceipt p text binding envelope

  pub parsed-IsReceiptBody :
      (v : Value) (binding : ReceiptBinding) {envelope : Value}
      → parse_receipt_comment p v binding ≡ ok (some envelope)
      → IsReceiptBody v binding envelope
  unfolding parse_receipt_comment
  parsed-IsReceiptBody (str body) binding h = record {
    text = body;
    is_text = refl;
    receipt = parse_receipt_comment-IsReceipt p body binding h;
  }
  parsed-IsReceiptBody v binding h = absurd (cc)

module _ {B W : Type 0} (p : Platform B) (api : Transport W) (policy : TrustedReceiptPolicy)
    (issue : Issue) (binding : ReceiptBinding) where
  -- Two scans in a row have agreed on the comments of the issue; the match is one of them, is of the
  -- trusted author, and is a canonical receipt of the binding; no other comment that names the request is.
  pub record IsObserved (m : Match) (before later : W) : Type 0 where
    pub comments : List (ℕ × Value)
    pub scanned : stable_comments api issue before ≡ (ok comments, later)
    pub listed : Memᴰ (m.comment_id, m.comment) comments
    pub trusted : is_trusted_comment_author m.comment policy issue ≡ true
    pub receipt : IsReceiptBody p (get "body" m.comment) binding m.envelope
    pub only :
        (n : Match)
        → IsMatch policy issue (λ body. parse_receipt_comment p body binding) comments n
        → names_request (formatted p binding.request_id) (get "body" n.comment) ≡ true
        → n ≡ m

  single : (ms : List Match) {m : Match} → single_receipt ms ≡ ok (some m) → ms ≡ m ∷ []
  unfolding single_receipt
  single [] h = absurd (cc)
  single (m ∷ []) h = cc
  single (m ∷ n ∷ ms) h = absurd (cc)

  selected_single :
      (comments : List (ℕ × Value)) (m : Match) {before later : W}
      → stable_comments api issue before ≡ (ok comments, later)
      → IsSelection policy issue
          (λ body. parse_receipt_comment p body binding)
          (candidates (formatted p binding.request_id) comments)
          (m ∷ [])
      → IsObserved m before later
  selected_single comments m scanned h =
      let k = h.sound m (Memᴰ.head refl) in
      record {
        comments = comments;
        scanned = scanned;
        listed = candidates-listed _ comments k.listed;
        trusted = k.trusted;
        receipt = parsed-IsReceiptBody p (get "body" m.comment) binding k.parsed;
        only = λ n i named. first (
            h.complete n (record {
              listed = listed-candidates _ comments (n.comment_id, n.comment) named i.listed;
              trusted = i.trusted;
              parsed = i.parsed;
            }));
      }
    where
      first : {n : Match} → Memᴰ n (m ∷ []) → n ≡ m
      first (Memᴰ.head e) = e
      first (Memᴰ.tail i) = elim i [ ]

  -- A receipt that the Publisher finds is the only trusted and canonical one of the binding among all the
  -- comments that name the request, of those on which two scans of the issue agree.
  pub observe_receipt-IsObserved :
      (w : W) {m : Match} {w' : W}
      → observe_receipt p api policy issue binding w ≡ (ok (some m), w')
      → IsObserved m w w'
  unfolding observe_receipt
  observe_receipt-IsObserved w {m} {w'} h = after_action _ _ _ h λ comments w₁ scanned h₁.
      after_lift _ _ _ h₁ λ ms selected h₂.
        let last : single_receipt ms ≡ ok (some m) =
          ap (λ (x : Result (Option Match) × W). x.0) h₂ in
        let same : w₁ ≡ w' = ap (λ (x : Result (Option Match) × W). x.1) h₂ in
        subst (IsObserved m w) same (
          selected_single comments m scanned (
            subst
              (IsSelection policy issue (λ body. parse_receipt_comment p body binding)
                (candidates (formatted p binding.request_id) comments))
              (single ms last) (matching-IsSelection policy issue _ _ selected)))
