-- ===== src/Handler/Listing.antt =====
-- The paged scan of an issue's comments in scripts/actions_request_handler.py against one pass over all
-- comments.
use mathlib.Core.Path.{subst}
use zach.Common.{
  ℕ, zero, suc, ◌+◌, ◌*◌, ◌<◌, ◌≤◌, ◌≡◌, refl, sym, ap, ◌∙◌, Bool, true, false, List, [], ◌∷◌, ◌++◌,
  arith, ltb, leb, length, take, drop, drop-drop, take-drop, length-drop, length-take, take_is_full,
  take_all, Bool-cases, inl, inr, if◌then◌else◌,
}
use zach.Python.Value.{Value, null, list, elements, items_of}
use zach.Action.{Result, ok, err, Action, bind, pure, lift, try, resume, continue, ◌>>=◌}
use zach.Action.Error.{Exc, handler_error}
use zach.Journal.Api.{Transport, get_method}
use zach.Handler.Comment.{
  Issue, CommentScan, page_path, no_comments, page_items, scan_comments_page, scan_comment_pages,
  scan_issue_comments,
}

elements-items_of : (vs : List Value) → elements (items_of vs) ≡ vs
elements-items_of [] = refl
elements-items_of (v ∷ vs) = ap (λ ws. v ∷ ws) (elements-items_of vs)

bind-append :
    {A B C : Type 0} (r : Result A) (f : A → Result B) (g : B → Result C) (h : A → Result C)
    → ((a : A) → h a ≡ bind (f a) g)
    → bind r h ≡ bind (bind r f) g
unfolding bind
bind-append (ok a) f g h e = e a
bind-append (err x) f g h e = refl

bind_one : {A B : Type 0} (a : A) (f : A → Result B) → bind (ok a) f ≡ f a
unfolding bind
bind_one a f = refl

-- A pass over two lists is one over the first and then one over the second.
scan_comments_page-append :
    (xs ys : List Value) (scan : CommentScan)
    → scan_comments_page (xs ++ ys) scan ≡ bind (scan_comments_page xs scan) (scan_comments_page ys)
unfolding scan_comments_page
scan_comments_page-append [] ys scan = sym (bind_one scan (scan_comments_page ys))
scan_comments_page-append (x ∷ xs) ys scan =
    bind-append _ _ (scan_comments_page ys) _
      λ id. bind-append _ _ (scan_comments_page ys) _ λ u. scan_comments_page-append xs ys _

leb_of_le : (m n : ℕ) → m ≤ n → leb m n ≡ true
leb_of_le m n h = ground arith

ltb_of_lt : (m n : ℕ) → m < n → ltb m n ≡ true
ltb_of_lt m n h = ground arith

ltb_of_ge : (m n : ℕ) → n ≤ m → ltb m n ≡ false
ltb_of_ge m n h = ground arith

ltb_le : (m n : ℕ) → ltb m n ≡ true → m ≤ n
ltb_le m n h = ground arith

ltb_ge : (m n : ℕ) → ltb m n ≡ false → n ≤ m
ltb_ge m n h = ground arith

bind_none : {A B : Type 0} (e : Exc) (f : A → Result B) → bind (err e) f ≡ err e
unfolding bind
bind_none e f = refl

page_items-full : (vs : List Value) → length vs ≤ 100 → page_items (list (items_of vs)) ≡ ok vs
unfolding page_items
page_items-full vs h =
    let malformed = handler_error "reconciliation_malformed_response" in
    ap (λ (us : List Value). if leb (length us) 100 then ok us else err malformed)
      (elements-items_of vs)
    ∙ ap (λ b. if b then ok vs else err malformed) (leb_of_le (length vs) 100 h)

module _ {W A B : Type 0} where
  then_ok :
      (m : Action W A) (f : A → Action W B) (w : W) {a : A} {w' : W}
      → m w ≡ (ok a, w')
      → (m >>= f) w ≡ f a w'
  unfolding ◌>>=◌
  then_ok m f w e = ap (λ (x : Result A × W). let (r, v) = x in continue r f v) e

  then_lift :
      (r : Result A) (f : A → Action W B) (w : W) {a : A} → r ≡ ok a → (lift r >>= f) w ≡ f a w
  then_lift r f w e = then_ok (lift r) f w (ap (λ x. (x, w)) e)

  then_err :
      (r : Result A) (f : A → Action W B) (w : W) {e : Exc}
      → r ≡ err e
      → (lift r >>= f) w ≡ (err e, w)
  unfolding ◌>>=◌
  then_err r f w e = ap (λ x. continue x f w) e

try_ok :
    {W A : Type 0} (m : Action W A) (h : Exc → Action W A) (w : W) {a : A} {w' : W}
    → m w ≡ (ok a, w')
    → try m h w ≡ (ok a, w')
unfolding try
try_ok {W} {A} m h w e = ap (λ (x : Result A × W). let (r, v) = x in resume r h v) e

module _ {W : Type 0} (api_transport : Transport W) (issue : Issue) (comments : List Value) where
  -- The remote answers each page with its part of the comments, up to the first page that is not full, and
  -- stays as it is.
  abbrev pub Serves : W → Type 0
  Serves w =
      (k : ℕ)
      → 100 * k ≤ length comments
      → api_transport get_method (page_path issue (k + 1)) null w
        ≡ (ok (list (items_of (take 100 (drop (100 * k) comments)))), w)

  -- The comments from the page `k + 1` on.
  rest_of : ℕ → List Value
  rest_of k = drop (100 * k) comments

  -- What the scan of one page gives, and the scan of those after it.
  whole :
      (rest : List Value) (scan : CommentScan)
      → scan_comments_page rest scan
        ≡ bind (scan_comments_page (take 100 rest) scan) (scan_comments_page (drop 100 rest))
  whole rest scan =
      ap (λ xs. scan_comments_page xs scan) (sym (take-drop 100 rest))
      ∙ scan_comments_page-append (take 100 rest) (drop 100 rest) scan

  -- After the answer to a page: it was the last one, or the rest goes on with the next.
  after_page :
      (left k : ℕ) (scan : CommentScan) (w : W)
      → ((scanned : CommentScan)
          → 100 ≤ length (rest_of k)
          → scan_comment_pages api_transport issue left (k + 1 + 1) scanned w
            ≡ (scan_comments_page (drop 100 (rest_of k)) scanned, w))
      → (r : Result CommentScan) → scan_comments_page (take 100 (rest_of k)) scan ≡ r
      → (lift r >>= λ scanned.
            let more = scan_comment_pages api_transport issue left (k + 1 + 1) scanned in
            if ltb (length (take 100 (rest_of k))) 100 then pure scanned else more)
          w
        ≡ (scan_comments_page (rest_of k) scan, w)
  unfolding ◌>>=◌
  after_page left k scan w next (err e) h =
      ap (λ r. (r, w))
        (sym (
          whole (rest_of k) scan
          ∙ (ap (λ r. bind r (scan_comments_page (drop 100 (rest_of k)))) h ∙ bind_none e _)))
  after_page left k scan w next (ok scanned) h = elim (Bool-cases (ltb (length rest) 100)) [
    | inl small ↦
        let all = take_all 100 rest (ltb_le _ _ small) in
        if_is (ap (λ xs. ltb (length xs) 100) all ∙ small)
        ∙ ap (λ r. (r, w)) (sym h ∙ ap (λ xs. scan_comments_page xs scan) all)
    | inr large ↦
        let full = ltb_ge _ _ large in
        if_is (ltb_of_ge _ _ (omega (arith, take_is_full 100 rest full)))
        ∙ (next scanned full
            ∙ ap (λ r. (r, w))
                (sym (
                  whole rest scan
                  ∙ (ap (λ r. bind r (scan_comments_page (drop 100 rest))) h
                      ∙ bind_one scanned (scan_comments_page (drop 100 rest))))))
  ]
    where
      rest : List Value
      rest = rest_of k

      if_is :
          {b : Bool}
          → ltb (length (take 100 rest)) 100 ≡ b
          → (if ltb (length (take 100 rest)) 100
                then pure scanned
                else scan_comment_pages api_transport issue left (k + 1 + 1) scanned)
              w
            ≡ (if b
                  then pure scanned
                  else scan_comment_pages api_transport issue left (k + 1 + 1) scanned)
                w
      if_is e =
          ap
            (λ (c : Bool).
              (if c
                  then pure scanned
                  else scan_comment_pages api_transport issue left (k + 1 + 1) scanned)
                w)
            e

  scan_from :
      (w : W)
      → Serves w
      → (left k : ℕ) (scan : CommentScan) → 100 * k ≤ length comments
      → length (rest_of k) < 100 * left
      → scan_comment_pages api_transport issue left (k + 1) scan w
        ≡ (scan_comments_page (rest_of k) scan, w)
  unfolding scan_comment_pages rest_of
  scan_from w serves zero k scan here h = absurd (omega arith)
  scan_from w serves (suc left) k scan here h =
      let next : (scanned : CommentScan)
          → 100 ≤ length (rest_of k)
          → scan_comment_pages api_transport issue left (k + 1 + 1) scanned w
            ≡ (scan_comments_page (drop 100 (rest_of k)) scanned, w) =
        λ scanned full.
          let same : drop 100 (rest_of k) ≡ rest_of (k + 1) =
            drop-drop (100 * k) 100 (100 * (k + 1)) comments (omega arith) in
          scan_from w serves left (k + 1) scanned
            (omega (arith, length-drop (100 * k) comments, full))
            (subst (λ xs. length xs < 100 * left) same
              (omega (arith, length-drop 100 (rest_of k), h, full)))
          ∙ ap (λ xs. (scan_comments_page xs scanned, w)) (sym same) in
      then_ok _ _ w (try_ok _ _ w (serves k here))
      ∙ (then_lift _ _ w (page_items-full (take 100 (rest_of k)) (length-take 100 (rest_of k)))
          ∙ after_page left k scan w next (scan_comments_page (take 100 (rest_of k)) scan) refl)

  -- In a state of the remote that serves fewer than 1000 comments in pages of 100, the scan ends with the
  -- result of one pass over all comments, errors included, and changes nothing.
  pub scan_issue_comments-pass :
      (w : W)
      → Serves w
      → length comments < 1000
      → scan_issue_comments api_transport issue w ≡ (scan_comments_page comments no_comments, w)
  unfolding scan_issue_comments rest_of
  scan_issue_comments-pass w serves h = scan_from w serves 10 0 no_comments (omega arith) h
