-- ===== src/CiInspect/Listing.antt =====
-- What a finished pagination of scripts/actions_ci_inspect.py has collected.
use mathlib.Core.Path.{subst, subst₂, subst⁻¹}
use zach.Common.{
  String, ℕ, zero, suc, ◌+◌, ◌≡◌, refl, sym, ap, ◌∙◌, if◌then◌else◌, Bool, true, false, not, ◌||◌,
  Option, none, some, List, [], ◌++◌, map, arith, length, ◌==◌, ltb,
}
use zach.Python.Value.{Value, int, list, Items, Fields, lookup, elements}
use zach.Action.{Result, ok, err, raise}
use zach.Action.Error.{Exc, CiCode}
use zach.Action.Checks.{after_bind, after_require, require-ok}
use zach.Action.Inversion.{after_action, after_lift, after_if, ok-injective}
use zach.Journal.Api.{Transport}
use zach.CiInspect.Policy.{retryable, per_page, max_pages, get_json}
use zach.Python.Value.{dict}
use zach.CiInspect.Pages.{total_and_items, page_items, is_first_and, list_pages, list_all}
use zach.CiInspect.Rows.{
  IsDistinct, true-is-not-false, raise-fails, not-not, AreSummaries, Collected,
  collect_rows-Collected,
}

==-equal : (m n : ℕ) → (m == n) ≡ true → m ≡ n
==-equal m n h = ground arith

-- An answer with the total and the rows that it lists under the key.
pub record IsPage (key : String) (answer : Value) (total : ℕ) (rows : List Value) : Type 0 where
  pub response : Fields
  pub items : Items
  pub is_dict : answer ≡ dict response
  pub names_total : lookup "total_count" response ≡ int total
  pub lists : lookup key response ≡ list items
  pub are_rows : elements items ≡ rows

after_if_ok :
    {A C : Type 0} (b : Bool) (x : Exc) {a r : A}
    → (if b then ok a else err x) ≡ ok r
    → (a ≡ r → C)
    → C
after_if_ok true x e k = k (cc)
after_if_ok false x e k = absurd (cc)

page_items-IsPage :
    (key : String) (answer : Value) (expected : Option ℕ) {page' : ℕ × List Value}
    → page_items answer key expected ≡ ok page'
    → IsPage key answer page'.0 page'.1
unfolding page_items
page_items-IsPage key (dict response) expected {page'} h = after_bind _ _ h λ _ _ h₁.
    after_bind _ _ h₁ λ _ _ h₂. after_bind _ _ h₂ λ page found h₃. after_require _ _ _ h₃ λ _ h₄.
      let same : page ≡ page' = cc in
      subst (λ (q : ℕ × List Value). IsPage key (dict response) q.0 q.1) same
        (of_items (lookup "total_count" response) (lookup key response) refl refl found)
  where
    of_items :
        (total items : Value) {page : ℕ × List Value}
        → lookup "total_count" response ≡ total
        → lookup key response ≡ items
        → total_and_items total items ≡ ok page
        → IsPage key (dict response) page.0 page.1
    of_items (int total) (list items) {page} t l e =
        after_if_ok _ _ e λ (q : (total, elements items) ≡ page).
          subst (λ (x : ℕ × List Value). IsPage key (dict response) x.0 x.1) q
            (record {
              response = response;
              items = items;
              is_dict = refl;
              names_total = t;
              lists = l;
              are_rows = refl;
            })
    of_items _ _ t l e = absurd (cc)
page_items-IsPage key _ expected h = absurd (cc)

module _ {W : Type 0} (request : Transport W) (key : String) (path : ℕ → String) (total : ℕ) where
  -- The answers from the page on, after the rows `past`: each was read by the path of its page, names the
  -- total and lists its rows; `rows` are those of all pages, and the reads lead from one state to the other.
  pub data ArePages : ℕ → List Value → List Value → W → W → Type 0 where
    last_page :
        {page : ℕ} {past items : List Value} {answer : Value} {w w' : W}
        → get_json request (path page) w ≡ (ok answer, w')
        → IsPage key answer total items
        → ArePages page past (past ++ items) w w'
    then_pages :
        {page : ℕ} {past items rows : List Value} {answer : Value} {w w₁ w' : W}
        → get_json request (path page) w ≡ (ok answer, w₁)
        → IsPage key answer total items
        → ArePages (page + 1) (past ++ items) rows w₁ w'
        → ArePages page past rows w w'

module _ {W S : Type 0} (summarise : Value → Result S) (id_of : S → ℕ) (request : Transport W)
    (key : String) (path : ℕ → String) (too_many : ℕ → Bool) where
  -- A listing from one state to another: the pages from 1 on were read, each of which names the total, and
  -- the summaries are those of all their rows, one by one; they are as many as the total, below the limit, and no
  -- two have one id.
  pub record IsComplete (listed : ℕ × List S) (before later : W) : Type 0 where
    pub rows : List Value
    pub pages : ArePages request key path listed.0 1 [] rows before later
    pub all_summaries : AreSummaries summarise rows listed.1
    pub is_total : length listed.1 ≡ listed.0
    pub distinct_ids : IsDistinct (map id_of listed.1)
    pub not_capped : too_many listed.0 ≡ false

  -- What is left of a listing, after the rows `past`.
  record Completes (expected : Option ℕ) (page : ℕ) (past : List Value) (listed : ℕ × List S)
      (before later : W) : Type 0 where
    rows : List Value
    pages : ArePages request key path listed.0 page past rows before later
    repeats : (m : ℕ) → expected ≡ some m → listed.0 ≡ m
    all_summaries : AreSummaries summarise rows listed.1
    is_total : length listed.1 ≡ listed.0
    distinct_ids : IsDistinct (map id_of listed.1)
    not_capped : too_many listed.0 ≡ false

  Capped : Option ℕ → Type 0
  Capped none = Unit
  Capped (some n) = too_many n ≡ false

  page_items-repeats :
      (response : Value) (m : ℕ) {page' : ℕ × List Value}
      → page_items response key (some m) ≡ ok page'
      → page'.0 ≡ m
  unfolding page_items
  page_items-repeats (dict response) m {page'} h = after_bind _ _ h λ _ _ h₁.
      after_bind _ _ h₁ λ _ _ h₂. after_bind _ _ h₂ λ page _ h₃. after_require _ _ _ h₃ λ same h₄.
        let same_page : page ≡ page' = cc in
        subst (λ (q : ℕ × List Value). q.0 ≡ m) same_page (==-equal page.0 m (not-not _ same))
  page_items-repeats _ m h = absurd (cc)

  page_is_Capped :
      (expected : Option ℕ) (response : Value) {page : ℕ × List Value}
      → Capped expected
      → page_items response key expected ≡ ok page
      → not (is_first_and expected (too_many page.0)) ≡ true
      → too_many page.0 ≡ false
  unfolding Capped
  page_is_Capped none response c h t = true-is-not-false _ t
  page_is_Capped (some m) response c h t =
      subst⁻¹ (λ n. too_many n ≡ false) (page_items-repeats response m h) c

  repeated :
      (expected : Option ℕ) (response : Value) {page : ℕ × List Value}
      → page_items response key expected ≡ ok page
      → (m : ℕ) → expected ≡ some m
      → page.0 ≡ m
  repeated expected response e m is_some =
      page_items-repeats response m (ap (page_items response key) (sym is_some) ∙ e)

  list_pages-Completes :
      (left page : ℕ) (expected : Option ℕ) (past : List Value) (seen : List ℕ) (summaries : List S)
      (w : W) {listed : ℕ × List S} {w' : W}
      → Capped expected
      → Collected summarise id_of past seen summaries
      → list_pages summarise id_of request key path too_many left page expected seen summaries w
        ≡ (ok listed, w')
      → Completes expected page past listed w w'
  unfolding list_pages Capped
  list_pages-Completes zero page expected past seen summaries w c h e = absurd (cc)
  list_pages-Completes (suc left) page expected past seen summaries w {listed} {w'} c h e =
      after_action _ _ _ e λ response w₁ read e₁. after_lift _ _ _ e₁ λ items ei e₂.
        after_lift _ _ _ e₂ λ _ capped e₃. after_lift _ _ _ e₃ λ collected ec e₄.
          let low = page_is_Capped expected response c ei (require-ok _ _ capped) in
          let is_page = page_items-IsPage key response expected ei in
          let again = repeated expected response ei in
          let h' = collect_rows-Collected summarise id_of past items.1 seen summaries h ec in
          after_if _ _ _ _ e₄
            (λ full e₅.
              let (same, at) = ok-injective e₅ in
              subst₂ (λ l v. Completes expected page past l w v) same at
                (record {
                  rows = past ++ items.1;
                  pages = ArePages.last_page read is_page;
                  repeats = again;
                  all_summaries = h'.are_summaries;
                  is_total = ==-equal _ _ full;
                  distinct_ids = h'.distinct;
                  not_capped = low;
                }))
            λ _ e₅.
              after_if (ltb items.0 (length collected.1) || ltb (length items.1) per_page)
                (raise (retryable CiCode.incomplete_pagination))
                (list_pages summarise id_of request key path too_many left (page + 1) (some items.0)
                  collected.0 collected.1)
                w₁ e₅ (λ _ e₆. raise-fails (retryable CiCode.incomplete_pagination) {w = w₁} e₆)
                λ _ e₆.
                  let rest =
                    list_pages-Completes left (page + 1) (some items.0) (past ++ items.1)
                      collected.0 collected.1 w₁ low h' e₆ in
                  let total : listed.0 ≡ items.0 = rest.repeats items.0 refl in
                  record {
                    rows = rest.rows;
                    pages =
                        ArePages.then_pages read
                          (subst⁻¹ (λ n. IsPage key response n items.1) total is_page) rest.pages;
                    repeats = λ m is_some. total ∙ again m is_some;
                    all_summaries = rest.all_summaries;
                    is_total = rest.is_total;
                    distinct_ids = rest.distinct_ids;
                    not_capped = rest.not_capped;
                  }

  -- A listing that returns has read the pages from 1 on, by their paths, and each answer names the returned
  -- total; the rows are the summaries of all rows of these answers, one by one, as many as the total says,
  -- no two of one id, and the total is below the limit of the listing.
  pub list_all-IsComplete :
      (w : W) {listed : ℕ × List S} {w' : W}
      → list_all summarise id_of request key path too_many w ≡ (ok listed, w')
      → IsComplete listed w w'
  unfolding list_all Capped
  list_all-IsComplete w e =
      let all =
        list_pages-Completes max_pages 1 none [] [] [] w tt
          (record { are_summaries = tt; distinct = tt; same_ids = λ n h. refl }) e in
      record {
        rows = all.rows;
        pages = all.pages;
        all_summaries = all.all_summaries;
        is_total = all.is_total;
        distinct_ids = all.distinct_ids;
        not_capped = all.not_capped;
      }
