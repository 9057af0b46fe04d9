-- ===== src/Trie/Match.antt =====
-- The ids at each pattern, and how reading and adding relate to them.
use pri_zzl_badger.Base.{
  ℕ, ◌≡◌, refl, ◌∙◌, Bool, true, false, ◌&&◌, Option, none, some, List, [], ◌∷◌, ◌++◌, ◌==◌,
  if◌then◌else◌, arith,
}
use pri_zzl_badger.Bytes.{Bytes}
use pri_zzl_badger.Trie.{
  Node, Children, Pointer, node, leaf, child, nil, to, new_node, child_of, set_child, or_new,
  fix_set,
}

-- The ids that stand at a pattern.
unfoldable pub ids_at : List (Option ℕ) → Node → List ℕ
ids_at [] (node cs ig ids) = ids
ids_at (none ∷ p) (node cs ig ids) = elim ig [ nil ↦ [] | to n ↦ ids_at p n ]
ids_at (some b ∷ p) (node cs ig ids) = elim (child_of cs b) [ nil ↦ [] | to n ↦ ids_at p n ]

-- A pattern matches a key that begins with it, ignored bytes aside.
unfoldable pub matches : List (Option ℕ) → Bytes → Bool
matches [] key = true
matches (l ∷ p) [] = false
matches (none ∷ p) (k ∷ ks) = matches p ks
matches (some b ∷ p) (k ∷ ks) = b == k && matches p ks

unfoldable pub same_pattern : List (Option ℕ) → List (Option ℕ) → Bool
same_pattern [] [] = true
same_pattern [] (m ∷ q) = false
same_pattern (l ∷ p) [] = false
same_pattern (none ∷ p) (none ∷ q) = same_pattern p q
same_pattern (none ∷ p) (some c ∷ q) = false
same_pattern (some b ∷ p) (none ∷ q) = false
same_pattern (some b ∷ p) (some c ∷ q) = b == c && same_pattern p q

pub child_of-set_child :
    (b c : ℕ) (m : Node) (cs : Children)
    → child_of (set_child b m cs) c ≡ (if b == c then to m else child_of cs c)
unfolding child_of set_child
child_of-set_child b c m leaf = refl
child_of-set_child b c m (child d n cs) = ground (arith, child_of-set_child b c m cs)

ids_at-new_node : (q : List (Option ℕ)) → ids_at q new_node ≡ []
unfolding ids_at child_of
ids_at-new_node [] = refl
ids_at-new_node (none ∷ q) = refl
ids_at-new_node (some c ∷ q) = refl

abbrev pub ids_at_pointer : List (Option ℕ) → Pointer → List ℕ
ids_at_pointer q nil = []
ids_at_pointer q (to n) = ids_at q n

ids_at-or_new : (q : List (Option ℕ)) (p : Pointer) → ids_at q (or_new p) ≡ ids_at_pointer q p
ids_at-or_new q nil = ids_at-new_node q
ids_at-or_new q (to n) = refl

-- Adding an id at a pattern appends it there, and leaves all other patterns alone.
pub ids_at-fix_set :
    (p q : List (Option ℕ)) (id : ℕ) (n : Node)
    → ids_at q (fix_set p id n) ≡ (if same_pattern p q then ids_at q n ++ (id ∷ []) else ids_at q n)
unfolding ids_at fix_set same_pattern
ids_at-fix_set [] [] id (node cs ig ids) = refl
ids_at-fix_set [] (none ∷ q) id (node cs ig ids) = refl
ids_at-fix_set [] (some c ∷ q) id (node cs ig ids) = refl
ids_at-fix_set (none ∷ p) [] id (node cs ig ids) = refl
ids_at-fix_set (some b ∷ p) [] id (node cs ig ids) = refl
ids_at-fix_set (none ∷ p) (some c ∷ q) id (node cs ig ids) = refl
ids_at-fix_set (some b ∷ p) (none ∷ q) id (node cs ig ids) = refl
ids_at-fix_set (none ∷ p) (none ∷ q) id (node cs nil ids) =
    ids_at-fix_set p q id new_node ∙ rw (ids_at-new_node q) refl
ids_at-fix_set (none ∷ p) (none ∷ q) id (node cs (to n) ids) = ids_at-fix_set p q id n
ids_at-fix_set (some b ∷ p) (some c ∷ q) id (node cs ig ids) =
    let m = or_new (child_of cs b) in
    let rest = ids_at-fix_set p q id m in
    ground
      (arith, child_of-set_child b c (fix_set p id m) cs, rest, ids_at-or_new q (child_of cs b))
