-- ===== src/Github/Body.antt =====
-- The bounds of a request's body in scripts/actions_github_api.py, `_request_json`.
use zach.Common.{ℕ, zero, suc, ◌*◌, false, Option, none, some, List, [], ◌∷◌, leb}
use zach.Python.Value.{Value, null, list, dict, Items, nil, cons, Fields, end, field}
use zach.Action.{Result, ok, err, require, or_raise}
use zach.Action.Checks.{◌>>=◌, ◌>>◌}
use zach.Platform.{Platform}
use zach.Github.Path.{rejected}

abbrev pub max_request_bytes : ℕ
max_request_bytes = 256 * 1024

-- `len(value)` of a list and of a dictionary
unfoldable pub items_count : Items → ℕ
items_count nil = zero
items_count (cons v vs) = suc (items_count vs)

unfoldable pub fields_count : Fields → ℕ
fields_count end = zero
fields_count (field k v fs) = suc (fields_count fs)

unfoldable pub width : Value → ℕ
width (list vs) = items_count vs
width (dict fs) = fields_count fs
width _ = zero

-- `pending.extend`: the last child comes to stand on top, which is the first of the list here.
unfoldable pub push_items : Items → ℕ → List (Value × ℕ) → List (Value × ℕ)
push_items nil depth pending = pending
push_items (cons v vs) depth pending = push_items vs depth ((v, depth) ∷ pending)

unfoldable pub push_fields : Fields → ℕ → List (Value × ℕ) → List (Value × ℕ)
push_fields end depth pending = pending
push_fields (field k v fs) depth pending = push_fields fs depth ((v, depth) ∷ pending)

unfoldable pub push_children : Value → ℕ → List (Value × ℕ) → List (Value × ℕ)
push_children (list vs) depth pending = push_items vs depth pending
push_children (dict fs) depth pending = push_fields fs depth pending
push_children _ depth pending = pending

-- The loop over what is pending; the count is what may still be visited. The keys of a dictionary are texts
-- here, and every value is one of JSON.
unfoldable pub check_nodes : ℕ → List (Value × ℕ) → Result (Unit {0})
check_nodes left [] = ok tt
check_nodes zero (node ∷ pending) = err rejected
check_nodes (suc left) ((v, depth) ∷ pending) = do
  require (leb depth 32) rejected
  require (leb (width v) max_request_bytes) rejected
  check_nodes left (push_children v (suc depth) pending)

module _ {B : Type 0} (p : Platform B) where
  unfoldable pub check_body : Value → Result B
  check_body body = do
    check_nodes max_request_bytes ((body, zero) ∷ [])
    text ← or_raise (p.dumps_strict false body) rejected
    require (leb (p.size (p.encode text)) max_request_bytes) rejected
    ok (p.encode text)

  -- `None` is no body.
  unfoldable pub encoded_body : Value → Result (Option B)
  encoded_body null = ok none
  encoded_body body = check_body body >>= λ raw. ok (some raw)
