-- ===== src/Trie/Examples.antt =====
-- A trie with two patterns.
use pri_zzl_badger.Base.{
  ◌≡◌, ◌↔◌, refl, true, false, some, [], ◌∷◌, ◌++◌, ◌==◌, if◌then◌else◌, elem, keep_if, not,
}
use pri_zzl_badger.Trie.{
  Node, Children, Pointer, node, leaf, child, nil, to, new_node, pattern_of, fix_set, add_match,
  delete_match, get,
}
use pri_zzl_badger.Trie.Match.{ids_at, same_pattern, ids_at-fix_set}
use pri_zzl_badger.Trie.Lookup.{Found, get_iff}
use pri_zzl_badger.Trie.Remove.{IsTrie, ids_at-delete_match}

-- Id 1 under the byte 97 and then any byte, id 2 under 97.
abbrev two : Node
two = node (child 97 (node leaf (to (node leaf nil (1 ∷ []))) (2 ∷ [])) leaf) nil []

two_added : add_match [] (97 ∷ []) 2 (add_match (false ∷ true ∷ []) (97 ∷ 98 ∷ []) 1 new_node) ≡ two
unfolding add_match fix_set pattern_of pri_zzl_badger.Trie.set_child pri_zzl_badger.Trie.child_of
two_added = refl

one_left :
    delete_match (false ∷ true ∷ []) (97 ∷ 98 ∷ []) 1 two
    ≡ node (child 97 (node leaf nil (2 ∷ [])) leaf) nil []
unfolding delete_match pri_zzl_badger.Trie.remove_empty pri_zzl_badger.Trie.fix_del pattern_of
    pri_zzl_badger.Trie.child_of pri_zzl_badger.Trie.set_child pri_zzl_badger.Trie.is_empty
one_left = refl

get_iff_example : (elem 1 (get (97 ∷ 120 ∷ []) two) ≡ true) ↔ Found (97 ∷ 120 ∷ []) two 1
get_iff_example = get_iff (97 ∷ 120 ∷ []) two 1

ids_at-fix_set_example : ids_at (some 97 ∷ []) (fix_set (some 97 ∷ []) 3 two) ≡ (
    if same_pattern (some 97 ∷ []) (some 97 ∷ [])
    then ids_at (some 97 ∷ []) two ++ (3 ∷ [])
    else ids_at (some 97 ∷ []) two)
ids_at-fix_set_example = ids_at-fix_set (some 97 ∷ []) (some 97 ∷ []) 3 two

two-IsTrie : IsTrie two
unfolding IsTrie pri_zzl_badger.Trie.child_of
two-IsTrie = (((tt, (tt, tt)), refl, tt), tt)

ids_at-delete_match_example :
    ids_at (some 97 ∷ []) (delete_match (false ∷ true ∷ []) (97 ∷ 98 ∷ []) 1 two) ≡ (
      if same_pattern (pattern_of (false ∷ true ∷ []) (97 ∷ 98 ∷ [])) (some 97 ∷ [])
      then keep_if (λ cid. not (1 == cid)) (ids_at (some 97 ∷ []) two)
      else ids_at (some 97 ∷ []) two)
ids_at-delete_match_example =
    ids_at-delete_match (false ∷ true ∷ []) (97 ∷ 98 ∷ []) 1 (some 97 ∷ []) two two-IsTrie
