-- ===== src/Trie.antt =====
-- trie/trie.go: ids under patterns of bytes, some of them ignored. The string of ignored positions
-- is taken as parsed: `parseIgnoreBytes` is a matter of strings.Split and strconv.Atoi.
pub mod Match
pub mod Lookup
pub mod Remove
mod Examples
use pri_zzl_badger.Base.{
  ℕ, zero, suc, Bool, true, false, ◌&&◌, Option, none, some, List, [], ◌∷◌, ◌++◌, ◌==◌,
  if◌then◌else◌, keep_if, not,
}
use pri_zzl_badger.Bytes.{Bytes}

-- A node, its map of children, and a pointer to a node that may be nil.
mutual
  pub data Node : Type 0 where
    node : Children → Pointer → List ℕ → Node

  pub data Children : Type 0 where
    leaf : Children
    child : ℕ → Node → Children → Children

  pub data Pointer : Type 0 where
    nil : Pointer
    to : Node → Pointer

-- newNode
abbrev pub new_node : Node
new_node = node leaf nil []

-- curNode.children[byt]
pub child_of : Children → ℕ → Pointer
child_of leaf b = nil
child_of (child c n cs) b = if c == b then to n else child_of cs b

-- curNode.children[byt] = child
pub set_child : ℕ → Node → Children → Children
set_child b m leaf = child b m leaf
set_child b m (child c n cs) = if c == b then child b m cs else child c n (set_child b m cs)

-- `if child == nil { child = newNode() }`
abbrev pub or_new : Pointer → Node
or_new nil = new_node
or_new (to n) = n

-- A prefix with its ignored positions: a byte, or none where it is ignored. Positions after the end
-- of `ignore` are not ignored.
pub pattern_of : List Bool → Bytes → List (Option ℕ)
pattern_of ignore [] = []
pattern_of [] (b ∷ bs) = some b ∷ pattern_of [] bs
pattern_of (true ∷ ignore) (b ∷ bs) = none ∷ pattern_of ignore bs
pattern_of (false ∷ ignore) (b ∷ bs) = some b ∷ pattern_of ignore bs

-- fix with `set`.
pub fix_set : List (Option ℕ) → ℕ → Node → Node
fix_set [] id (node cs ig ids) = node cs ig (ids ++ (id ∷ []))
fix_set (none ∷ p) id (node cs ig ids) = node cs (to (fix_set p id (or_new ig))) ids
fix_set (some b ∷ p) id (node cs ig ids) =
    node (set_child b (fix_set p id (or_new (child_of cs b))) cs) ig ids

-- fix with `del`: a node that is not there ends it.
pub fix_del : List (Option ℕ) → ℕ → Node → Node
fix_del [] id (node cs ig ids) = node cs ig (keep_if (λ cid. not (id == cid)) ids)
fix_del (none ∷ p) id (node cs nil ids) = node cs nil ids
fix_del (none ∷ p) id (node cs (to n) ids) = node cs (to (fix_del p id n)) ids
fix_del (some b ∷ p) id (node cs ig ids) = elim (child_of cs b) [
  | nil ↦ node cs ig ids
  | to n ↦ node (set_child b (fix_del p id n) cs) ig ids
]

-- get: the ids, as a list that may name one more than once.
pub get : Bytes → Node → List ℕ
get [] (node cs ig ids) = ids
get (k ∷ ks) (node cs ig ids) =
    ids
    ++ (elim ig [ nil ↦ [] | to n ↦ get ks n ]
        ++ elim (child_of cs k) [ nil ↦ [] | to n ↦ get ks n ])

-- isEmpty
pub is_empty : Node → Bool
is_empty (node leaf nil []) = true
is_empty (node leaf nil (id ∷ ids)) = false
is_empty (node leaf (to n) ids) = false
is_empty (node (child c n cs) ig ids) = false

-- removeEmpty: the node after it; the answer is `is_empty` of that.
unfoldable mutual
  pub remove_empty : Node → Node
  remove_empty (node cs ig ids) = node (remove_empty_children cs) (remove_empty_pointer ig) ids

  pub remove_empty_children : Children → Children
  remove_empty_children leaf = leaf
  remove_empty_children (child c n cs) =
      let m = remove_empty n in
      let rest = remove_empty_children cs in if is_empty m then rest else child c m rest

  pub remove_empty_pointer : Pointer → Pointer
  remove_empty_pointer nil = nil
  remove_empty_pointer (to n) = let m = remove_empty n in if is_empty m then nil else to m

-- AddMatch and DeleteMatch; Add and Delete have no ignored positions.
pub add_match : List Bool → Bytes → ℕ → Node → Node
add_match ignore prefix id root = fix_set (pattern_of ignore prefix) id root

pub delete_match : List Bool → Bytes → ℕ → Node → Node
delete_match ignore prefix id root = remove_empty (fix_del (pattern_of ignore prefix) id root)
