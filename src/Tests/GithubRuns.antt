-- ===== src/Tests/GithubRuns.antt =====
-- Runs of the checks of a request.
use zach.Common.{
  ◌≡◌, ◌≤◌, refl, ◌⊎◌, Bool, true, false, Option, none, some, List, [], ◌∷◌, String, count,
  drop_chars, str_eq, if◌then◌else◌,
}
use zach.Action.{Result, ok, err}
use zach.Action.Error.{other_exception}
use zach.Python.Value.{Value, str, list, items_of}
use zach.Python.Plain.{object}
use zach.Github.Body.{max_request_bytes, check_nodes, check_body}
use zach.Github.Bounds.{nodes, IsShallow, check_body-bounded}
use zach.Tests.HandlerToy.{toy2}
use zach.Github.Path.{
  UrlParts, UrlLibrary, GithubApi, fixed_base_url, allowed_methods, one_of, path_part, construct,
  rejected, validate_path, request_url,
}
use zach.Github.Namespace.{IsPublic, IsNamespaced, request_url-IsNamespaced}

-- Texts without `%`, but for one.
abbrev urls1 : UrlLibrary
urls1 = record {
  unquote = λ s. if str_eq s "/repos/shockerqt/zach/%2e%2e" then "/repos/shockerqt/zach/.." else s;
  urlsplit = λ url. some (record {
    scheme = "https";
    netloc = "api.github.com";
    path = drop_chars (count fixed_base_url) url;
    has_username = false;
    has_port = some false;
  });
}

abbrev allowed1 : List String
allowed1 = "shockerqt/zach" ∷ []

abbrev client1 : GithubApi
client1 = record { token = "secret"; allowed_repositories = allowed1 }

construct-run : construct "secret" allowed1 ≡ ok client1
unfolding construct zach.Github.Path.one_of zach.Github.Path.are_trusted zach.Action.bind
    zach.Action.require zach.Action.or_raise zach.Common.all_codes
construct-run = refl

construct-untrusted : construct "secret" ("someone/else" ∷ []) ≡ err other_exception
unfolding construct zach.Github.Path.one_of zach.Github.Path.are_trusted zach.Action.bind
    zach.Action.require zach.Action.or_raise zach.Common.all_codes
construct-untrusted = refl

validate_path-encoded : validate_path urls1 allowed1 "/repos/shockerqt/zach/%2e%2e" ≡ err rejected
unfolding validate_path zach.Action.bind zach.Action.require zach.Action.or_raise
    zach.Common.all_codes zach.Common.starts zach.Common.codes zach.Common.has_part
    zach.Common.split_at zach.Common.drop_chars zach.Common.split_slash zach.Github.Path.is_altered
    zach.Github.Path.has_no_dots zach.Github.Path.path_part zach.Github.Path.is_within
    zach.Github.Path.is_within_any zach.Github.Path.check_decodings
validate_path-encoded = refl

request_url-run :
    request_url urls1 client1 "GET" "/repos/shockerqt/zach/issues" false false
    ≡ ok "https://api.github.com/repos/shockerqt/zach/issues"
unfolding request_url zach.Github.Path.one_of validate_path zach.Action.bind zach.Action.require
    zach.Action.or_raise zach.Common.all_codes zach.Common.starts zach.Common.codes
    zach.Common.has_part zach.Common.split_at zach.Common.drop_chars zach.Common.split_slash
    zach.Github.Path.is_altered zach.Github.Path.has_no_dots zach.Github.Path.path_part
    zach.Github.Path.is_within zach.Github.Path.is_within_any zach.Github.Path.check_decodings
request_url-run = refl

request_url-IsNamespaced_example :
    (one_of "GET" allowed_methods ≡ true)
    × (IsPublic "GET" "/repos/shockerqt/zach/issues" false
          "https://api.github.com/repos/shockerqt/zach/issues"
        ⊎ IsNamespaced urls1 client1 "/repos/shockerqt/zach/issues"
            "https://api.github.com/repos/shockerqt/zach/issues")
request_url-IsNamespaced_example =
    request_url-IsNamespaced urls1 "secret" allowed1 "GET" "/repos/shockerqt/zach/issues" false
      false construct-run request_url-run

abbrev body1 : Value
body1 = object (("labels", list (items_of (str "bug" ∷ []))) ∷ [])

check_body-run : check_body toy2 body1 ≡ ok "{}"
unfolding check_body check_nodes zach.Github.Body.push_children zach.Github.Body.push_items
    zach.Github.Body.push_fields zach.Github.Body.width zach.Github.Body.items_count
    zach.Github.Body.fields_count zach.Action.bind zach.Action.require zach.Action.or_raise
check_body-run = refl

check_body-bounded_example :
    (nodes body1 ≤ max_request_bytes)
    × IsShallow 0 body1
    × ((text : String) × (toy2.dumps_strict false body1 ≡ some text)
        × ("{}" ≡ toy2.encode text)
        × (toy2.size "{}" ≤ max_request_bytes))
check_body-bounded_example = check_body-bounded toy2 body1 check_body-run

-- At depth 33 a value is refused.
check_nodes-deep : check_nodes 5 ((body1, 33) ∷ []) ≡ err rejected
unfolding check_nodes zach.Action.bind zach.Action.require
check_nodes-deep = refl
