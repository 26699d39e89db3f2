-- ===== src/Github/Namespace.antt =====
-- The paths that scripts/actions_github_api.py lets through.
use mathlib.Core.List.{Memᴰ}
use mathlib.Core.Path.{subst}
use zach.Common.{
  ℕ, zero, suc, ◌≡◌, refl, sym, ap, ◌∙◌, ◌⊎◌, inl, inr, Bool, true, false, not, ◌||◌, ◌&&◌, List,
  [], ◌∷◌, String, ◌⊹◌, str_eq, all_codes, split_slash, Bool-cases, if◌then◌else◌,
}
use zach.Action.{Result, ok}
use zach.Action.Checks.{after_require, after_bind}
use zach.Handler.Canonical.{same_text}
use zach.Github.Path.{
  UrlLibrary, GithubApi, fixed_base_url, trusted_repositories, one_of, are_trusted, construct,
  is_segment_code, has_no_dots, path_part, is_within, is_within_any, check_decodings, validate_path,
  rejected, allowed_methods, is_public_observation, request_url,
}

-- What a check of a condition has passed.
either_true : (a b : Bool) → (a || b) ≡ true → (a ≡ true) ⊎ (b ≡ true)
either_true true b h = inl refl
either_true false b h = inr h

both_true : (a b : Bool) → (a && b) ≡ true → (a ≡ true) × (b ≡ true)
both_true true b h = (refl, h)
both_true false b h = absurd (cc)

is_within_any-Mem :
    (path : String) (allowed : List String)
    → is_within_any path allowed ≡ true
    → (r : String) × Memᴰ r allowed × (is_within path r ≡ true)
unfolding is_within_any
is_within_any-Mem path [] h = absurd (cc)
is_within_any-Mem path (r ∷ rs) h =
    elim (either_true (is_within path r) (is_within_any path rs) h) [
      | inl here ↦ (r, Memᴰ.head refl, here)
      | inr later ↦
          let found = is_within_any-Mem path rs later in (found.0, Memᴰ.tail found.1, found.2)
    ]

are_trusted-Mem :
    (allowed : List String) {r : String}
    → are_trusted allowed ≡ true
    → Memᴰ r allowed
    → one_of r trusted_repositories ≡ true
unfolding are_trusted
are_trusted-Mem [] h m = elim m [ ]
are_trusted-Mem (r ∷ rs) h (Memᴰ.head e) =
    subst (λ t. one_of t trusted_repositories ≡ true) (sym e)
      (both_true (one_of r trusted_repositories) (are_trusted rs) h).0
are_trusted-Mem (r ∷ rs) h (Memᴰ.tail m) =
    are_trusted-Mem rs (both_true (one_of r trusted_repositories) (are_trusted rs) h).1 m

-- A path without dot segments and without delimiters.
pub record IsClean (path : String) : Type 0 where
  pub no_dots : has_no_dots (split_slash path) ≡ true
  pub no_delimiters : all_codes is_segment_code path ≡ true

pub of_ok : {A : Type 0} {a b : A} → ok a ≡ ok b → a ≡ b
of_ok h = cc

allowed_of :
    {token : String} {allowed : List String} {api : GithubApi}
    → ok (record { token = token; allowed_repositories = allowed }) ≡ ok api
    → allowed ≡ api.allowed_repositories
allowed_of h = ap (λ (a : GithubApi). a.allowed_repositories) (of_ok h)

-- A public observation: a GET request without a body for a fixed pattern of paths.
pub IsPublic : String → String → Bool → String → Type 0
IsPublic method relative_path has_body url =
    (url ≡ fixed_base_url ⊹ relative_path)
    × (str_eq method "GET" && not has_body && is_public_observation relative_path ≡ true)

module _ (urls : UrlLibrary) where
  -- The text after so many decodings.
  unfoldable pub decoded : ℕ → String → String
  decoded zero s = s
  decoded (suc k) s = decoded k (urls.unquote s)

  decoded_fixed : (k : ℕ) (s : String) → urls.unquote s ≡ s → decoded k s ≡ s
  unfolding decoded
  decoded_fixed zero s h = refl
  decoded_fixed (suc k) s h = ap (decoded k) h ∙ decoded_fixed k s h

  -- A step of the loop: the text is a fixed point, or its decoding has passed the rest of the loop.
  decoded-IsClean :
      (curr : String) (rest : Result (Unit {0}))
      → IsClean curr
      → (if str_eq (urls.unquote curr) curr then ok tt else rest) ≡ ok tt
      → ((k : ℕ) → rest ≡ ok tt → IsClean (decoded k (urls.unquote curr)))
      → (k : ℕ) → IsClean (decoded k curr)
  unfolding decoded
  decoded-IsClean curr rest clean h later zero = clean
  decoded-IsClean curr rest clean h later (suc k) =
      elim (Bool-cases (str_eq (urls.unquote curr) curr)) [
        | inl same ↦ subst IsClean (sym (decoded_fixed (suc k) curr (same_text _ _ same))) clean
        | inr other ↦ later k (ap (λ (b : Bool). if b then ok tt else rest) (sym other) ∙ h)
      ]

  check_decodings-IsClean :
      (left : ℕ) (curr : String) (k : ℕ)
      → check_decodings urls left curr ≡ ok tt
      → IsClean (decoded k curr)
  unfolding check_decodings
  check_decodings-IsClean zero curr k h = absurd (cc)
  check_decodings-IsClean (suc left) curr k h =
      after_require (has_no_dots (split_slash curr)) rejected _ h λ no_dots h₁.
        after_require (all_codes is_segment_code curr) rejected _ h₁ λ no_delimiters h₂.
          decoded-IsClean curr (check_decodings urls left (urls.unquote curr))
            (record { no_dots = no_dots; no_delimiters = no_delimiters }) h₂
            (λ k' j. check_decodings-IsClean left (urls.unquote curr) k' j) k

  -- The URL is that of a path of a trusted repository, and stays clean under every number of decodings.
  pub record IsNamespaced (api : GithubApi) (relative_path url : String) : Type 0 where
    pub repository : String
    pub is_full : url ≡ fixed_base_url ⊹ relative_path
    pub allowed : Memᴰ repository api.allowed_repositories
    pub trusted : one_of repository trusted_repositories ≡ true
    pub within : is_within (path_part relative_path) repository ≡ true
    pub clean : (k : ℕ) → IsClean (decoded k (path_part relative_path))

  -- Whatever `unquote` and `urlsplit` do: a path that a constructed client accepts is asked for below the
  -- fixed base URL, is that of one of the client's repositories, which is trusted, or lies below it, and
  -- however often it is decoded, it has no dot segment and no delimiter or control character.
  pub validate_path-IsNamespaced :
      (token : String) (allowed : List String) {api : GithubApi} (relative_path : String)
      {url : String}
      → construct token allowed ≡ ok api
      → validate_path urls api.allowed_repositories relative_path ≡ ok url
      → IsNamespaced api relative_path url
  unfolding validate_path construct
  validate_path-IsNamespaced token allowed {api} relative_path {url} made h =
      after_require _ _ _ made λ _ made₁. after_require _ _ _ made₁ λ are made₂.
        after_require _ _ _ h λ _ h₁. after_require _ _ _ h₁ λ _ h₂. after_require _ _ _ h₂ λ _ h₃.
          after_require _ _ _ h₃ λ _ h₄. after_require _ _ _ h₄ λ _ h₅.
            after_bind _ _ h₅ λ _ decodings h₆. after_require _ _ _ h₆ λ within h₇.
              after_bind _ _ h₇ λ u _ h₈. after_bind _ _ h₈ λ altered _ h₉.
                after_require _ _ _ h₉ λ _ last.
                  let found =
                    is_within_any-Mem (path_part relative_path) api.allowed_repositories within in
                  record {
                    repository = found.0;
                    is_full = sym (of_ok last);
                    allowed = found.1;
                    trusted =
                        are_trusted-Mem api.allowed_repositories
                          (subst (λ rs. are_trusted rs ≡ true) (allowed_of made₂)
                            (both_true _ _ are).1)
                          found.1;
                    within = found.2;
                    clean = λ k. check_decodings-IsClean 9 (path_part relative_path) k decodings;
                  }

  -- What a constructed client asks for has an allowed method, and is a public observation of the fixed
  -- pattern, by GET and without a body, or has passed the path check of the client: it is that of one of the
  -- client's repositories, which is trusted, or lies below it, and stays clean under every number of decodings.
  pub request_url-IsNamespaced :
      (token : String) (allowed : List String) {api : GithubApi} (method relative_path : String)
      (has_body public_zach : Bool) {url : String}
      → construct token allowed ≡ ok api
      → request_url urls api method relative_path has_body public_zach ≡ ok url
      → (one_of method allowed_methods ≡ true)
        × (IsPublic method relative_path has_body url ⊎ IsNamespaced api relative_path url)
  unfolding request_url IsPublic
  request_url-IsNamespaced token allowed method relative_path has_body true made h =
      after_require _ _ _ h λ known h₁.
        after_require _ _ _ h₁ λ pattern' last. (known, inl (sym (of_ok last), pattern'))
  request_url-IsNamespaced token allowed method relative_path has_body false made h =
      after_require _ _ _ h
        λ known h₁. (known, inr (validate_path-IsNamespaced token allowed relative_path made h₁))
