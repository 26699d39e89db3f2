-- ===== src/Github/Bounds.antt =====
-- The bodies that scripts/actions_github_api.py lets through.
use mathlib.Core.Path.{subst}
use zach.Common.{
  ℕ, zero, suc, ◌+◌, ◌≤◌, ◌≡◌, sym, true, false, some, List, [], ◌∷◌, String, leb, arith,
}
use zach.Python.Value.{
  Value, null, bool, int, negative, float, constant, str, list, dict, Items, nil, cons, Fields, end,
  field,
}
use zach.Action.{ok}
use zach.Action.Checks.{after_require, after_bind, or_raise-ok}
use zach.Platform.{Platform}
use zach.Github.Namespace.{of_ok}
use zach.Github.Body.{
  max_request_bytes, push_items, push_fields, push_children, check_nodes, check_body,
}

-- How many values a value consists of, itself included.
mutual
  pub nodes : Value → ℕ
  nodes (list vs) = suc (items_nodes vs)
  nodes (dict fs) = suc (fields_nodes fs)
  nodes null = 1
  nodes (bool b) = 1
  nodes (int n) = 1
  nodes (negative n) = 1
  nodes (float b m e) = 1
  nodes (constant s) = 1
  nodes (str s) = 1

  items_nodes : Items → ℕ
  items_nodes nil = 0
  items_nodes (cons v vs) = nodes v + items_nodes vs

  fields_nodes : Fields → ℕ
  fields_nodes end = 0
  fields_nodes (field k v fs) = nodes v + fields_nodes fs

-- Where the parts of the value stand at this depth, none of its parts is deeper than 32.
mutual
  HasShallow : ℕ → Value → Type 0
  HasShallow depth (list vs) = AreShallow depth vs
  HasShallow depth (dict fs) = AreFieldsShallow depth fs
  HasShallow depth null = Unit {0}
  HasShallow depth (bool b) = Unit {0}
  HasShallow depth (int n) = Unit {0}
  HasShallow depth (negative n) = Unit {0}
  HasShallow depth (float b m e) = Unit {0}
  HasShallow depth (constant s) = Unit {0}
  HasShallow depth (str s) = Unit {0}

  AreShallow : ℕ → Items → Type 0
  AreShallow depth nil = Unit {0}
  AreShallow depth (cons v vs) = ((depth ≤ 32) × HasShallow (suc depth) v) × AreShallow depth vs

  AreFieldsShallow : ℕ → Fields → Type 0
  AreFieldsShallow depth end = Unit {0}
  AreFieldsShallow depth (field k v fs) =
      ((depth ≤ 32) × HasShallow (suc depth) v) × AreFieldsShallow depth fs

-- A value at this depth.
pub IsShallow : ℕ → Value → Type 0
IsShallow depth v = (depth ≤ 32) × HasShallow (suc depth) v

unfoldable pending_nodes : List (Value × ℕ) → ℕ
pending_nodes [] = 0
pending_nodes ((v, depth) ∷ pending) = nodes v + pending_nodes pending

ArePending : List (Value × ℕ) → Type 0
ArePending [] = Unit {0}
ArePending ((v, depth) ∷ pending) = IsShallow depth v × ArePending pending

push_items-nodes :
    (vs : Items) (depth : ℕ) (pending : List (Value × ℕ))
    → pending_nodes (push_items vs depth pending) ≡ items_nodes vs + pending_nodes pending
unfolding push_items pending_nodes items_nodes
push_items-nodes nil depth pending = omega arith
push_items-nodes (cons v vs) depth pending =
    omega (arith, push_items-nodes vs depth ((v, depth) ∷ pending))

push_fields-nodes :
    (fs : Fields) (depth : ℕ) (pending : List (Value × ℕ))
    → pending_nodes (push_fields fs depth pending) ≡ fields_nodes fs + pending_nodes pending
unfolding push_fields pending_nodes fields_nodes
push_fields-nodes end depth pending = omega arith
push_fields-nodes (field k v fs) depth pending =
    omega (arith, push_fields-nodes fs depth ((v, depth) ∷ pending))

push_items-ArePending :
    (vs : Items) (depth : ℕ) (pending : List (Value × ℕ))
    → ArePending (push_items vs depth pending)
    → AreShallow depth vs × ArePending pending
unfolding push_items ArePending AreShallow IsShallow
push_items-ArePending nil depth pending h = (tt, h)
push_items-ArePending (cons v vs) depth pending h =
    let found = push_items-ArePending vs depth ((v, depth) ∷ pending) h in
    ((found.1.0, found.0), found.1.1)

push_fields-ArePending :
    (fs : Fields) (depth : ℕ) (pending : List (Value × ℕ))
    → ArePending (push_fields fs depth pending)
    → AreFieldsShallow depth fs × ArePending pending
unfolding push_fields ArePending AreFieldsShallow IsShallow
push_fields-ArePending end depth pending h = (tt, h)
push_fields-ArePending (field k v fs) depth pending h =
    let found = push_fields-ArePending fs depth ((v, depth) ∷ pending) h in
    ((found.1.0, found.0), found.1.1)

-- One step: the value leaves and its parts come.
push_children-nodes :
    (v : Value) (depth : ℕ) (pending : List (Value × ℕ))
    → suc (pending_nodes (push_children v depth pending)) ≡ nodes v + pending_nodes pending
unfolding push_children nodes
push_children-nodes (list vs) depth pending = omega (arith, push_items-nodes vs depth pending)
push_children-nodes (dict fs) depth pending = omega (arith, push_fields-nodes fs depth pending)
push_children-nodes null depth pending = omega arith
push_children-nodes (bool b) depth pending = omega arith
push_children-nodes (int n) depth pending = omega arith
push_children-nodes (negative n) depth pending = omega arith
push_children-nodes (float b m e) depth pending = omega arith
push_children-nodes (constant s) depth pending = omega arith
push_children-nodes (str s) depth pending = omega arith

push_children-ArePending :
    (v : Value) (depth : ℕ) (pending : List (Value × ℕ))
    → ArePending (push_children v depth pending)
    → HasShallow depth v × ArePending pending
unfolding push_children HasShallow
push_children-ArePending (list vs) depth pending h = push_items-ArePending vs depth pending h
push_children-ArePending (dict fs) depth pending h = push_fields-ArePending fs depth pending h
push_children-ArePending null depth pending h = (tt, h)
push_children-ArePending (bool b) depth pending h = (tt, h)
push_children-ArePending (int n) depth pending h = (tt, h)
push_children-ArePending (negative n) depth pending h = (tt, h)
push_children-ArePending (float b m e) depth pending h = (tt, h)
push_children-ArePending (constant s) depth pending h = (tt, h)
push_children-ArePending (str s) depth pending h = (tt, h)

at_most : (m n : ℕ) → leb m n ≡ true → m ≤ n
at_most m n h = ground arith

check_nodes-bounded :
    (left : ℕ) (pending : List (Value × ℕ))
    → check_nodes left pending ≡ ok tt
    → (pending_nodes pending ≤ left) × ArePending pending
unfolding check_nodes pending_nodes ArePending IsShallow
check_nodes-bounded left [] h = (omega arith, tt)
check_nodes-bounded zero (node ∷ pending) h = absurd (cc)
check_nodes-bounded (suc left) ((v, depth) ∷ pending) h = after_require _ _ _ h λ shallow h₁.
    after_require _ _ _ h₁ λ _ h₂.
      let rest = check_nodes-bounded left (push_children v (suc depth) pending) h₂ in
      let parts = push_children-ArePending v (suc depth) pending rest.1 in
      (
        omega (arith, rest.0, push_children-nodes v (suc depth) pending),
        ((at_most depth 32 shallow, parts.0), parts.1),
      )

module _ {B : Type 0} (p : Platform B) where
  -- A body that is sent consists of at most 256 * 1024 values, none of which stands deeper than 32, and its
  -- encoding is the strict JSON text of it and has at most 256 KiB.
  pub check_body-bounded :
      (body : Value) {raw : B}
      → check_body p body ≡ ok raw
      → (nodes body ≤ max_request_bytes)
        × IsShallow 0 body
        × ((text : String) × (p.dumps_strict false body ≡ some text)
            × (raw ≡ p.encode text)
            × (p.size raw ≤ max_request_bytes))
  unfolding check_body pending_nodes ArePending
  check_body-bounded body {raw} h = after_bind _ _ h λ _ visited h₁.
      after_bind _ _ h₁ λ text dumped h₂. after_require _ _ _ h₂ λ small last.
        let found = check_nodes-bounded max_request_bytes ((body, zero) ∷ []) visited in
        let same : p.encode text ≡ raw = of_ok last in
        (
          omega (arith, found.0),
          found.1.0,
          (
            text,
            or_raise-ok _ _ dumped,
            sym same,
            subst (λ b. p.size b ≤ max_request_bytes) same (at_most _ _ small),
          ),
        )
