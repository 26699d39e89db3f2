-- ===== src/Platform.antt =====
-- What the scripts use of Python's library, as parameters: byte strings, UTF-8, base64, hashes and the
-- JSON parser. `B` is the type of byte strings.
use zach.Common.{Bool, ℕ, Option, List, [], ◌∷◌, String, ◌⊹◌, show}
use zach.Python.Value.{Value}
use Prim.Native.String as Text
use Prim.Native.Char.{nul}

pub record Platform (B : Type 0) : Type 0 where
  -- `len(b)`, `b + c`
  pub size : B → ℕ
  pub concat : B → B → B
  -- `b.split(b"\n")`
  pub split_newline : B → List B
  -- `s.encode("utf-8")`, which does not fail, since a text here is a sequence of Unicode scalar values and has no
  -- lone surrogate; `b.decode("utf-8")`, where `none` is `UnicodeDecodeError`
  pub encode : String → B
  pub decode : B → Option String
  -- `base64.b64encode(b).decode("ascii")`; `base64.b64decode(s, validate=True)`
  pub b64encode : B → String
  pub b64decode : String → Option B
  -- `hashlib.sha256(b).hexdigest()`, `hashlib.sha1(b).hexdigest()`
  pub sha256_hex : B → String
  pub sha1_hex : B → String
  -- `s.split()`, at runs of white space
  pub split : String → List String
  -- `json.loads(s)` before any hook: an object is the list of its pairs; `none` is an exception
  pub loads : String → Option Value
  -- `json.dumps(v, ensure_ascii=False, separators=(",", ":"))`; `none` is an exception
  pub dumps : Value → Option String
  -- `json.dumps(v, allow_nan=False, separators=(",", ":"), sort_keys=b)`; `none` is an exception
  pub dumps_strict : Bool → Value → Option String
  -- `json.dumps(v, indent=2, sort_keys=True, allow_nan=b)` and `json.dumps(v, sort_keys=True)`
  pub dumps_pretty : Bool → Value → Option String
  pub dumps_sorted : Value → Option String
  -- `urllib.parse.quote(s, safe="")`
  pub quote : String → String
  -- `f"{v}"`
  pub format : Value → String

-- `"".join(parts)`
unfoldable pub join : List String → String
join [] = ""
join (s ∷ parts) = s ⊹ join parts

module _ {B : Type 0} (p : Platform B) where
  -- Git's name of a blob: `hashlib.sha1(b"blob " + str(len(raw)).encode() + b"\0" + raw).hexdigest()`
  unfoldable pub git_blob_sha : B → String
  git_blob_sha raw =
      p.sha1_hex (p.concat (p.encode ("blob " ⊹ show (p.size raw) ⊹ (Text.◌∷◌ nul Text.[]))) raw)
