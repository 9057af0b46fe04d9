-- ===== src/Trie/Remove.antt =====
-- Deleting: an id goes from one pattern, and the nodes that are empty then go without a trace.
use pri_zzl_badger.Base.{
  ℕ, ◌≡◌, refl, ap, sym, ◌∙◌, subst, Bool, true, false, ◌&&◌, Option, none, some, List, [], ◌∷◌,
  ◌==◌, if◌then◌else◌, arith, inl, inr, ◌⊎◌, Bool-cases, ==→eq, not, keep_if,
}
use pri_zzl_badger.Bytes.{Bytes}
use pri_zzl_badger.Trie.{
  Node, Children, Pointer, node, leaf, child, nil, to, child_of, set_child, or_new, fix_set,
  fix_del, is_empty, remove_empty, remove_empty_children, remove_empty_pointer, pattern_of,
  delete_match,
}
use pri_zzl_badger.Trie.Match.{ids_at, ids_at_pointer, same_pattern, child_of-set_child}

-- Every byte has one child at most, throughout.
unfoldable mutual
  pub IsTrie : Node → Type 0
  IsTrie (node cs ig ids) = IsTrieChildren cs × IsTriePointer ig

  pub IsTrieChildren : Children → Type 0
  IsTrieChildren leaf = Unit
  IsTrieChildren (child c n cs) = IsTrie n × (child_of cs c ≡ nil) × IsTrieChildren cs

  pub IsTriePointer : Pointer → Type 0
  IsTriePointer nil = Unit
  IsTriePointer (to n) = IsTrie n

child_of-IsTrie : (cs : Children) (b : ℕ) → IsTrieChildren cs → IsTriePointer (child_of cs b)
unfolding child_of IsTrie
child_of-IsTrie leaf b v = tt
child_of-IsTrie (child c n cs) b v = elim (Bool-cases (c == b)) [
  | inl same ↦ rw same v.0
  | inr differs ↦ rw differs (child_of-IsTrie cs b v.2)
]

set_child-IsTrie :
    (b : ℕ) (m : Node) (cs : Children)
    → IsTrie m
    → IsTrieChildren cs
    → IsTrieChildren (set_child b m cs)
unfolding set_child child_of IsTrie
set_child-IsTrie b m leaf vm v = (vm, refl, tt)
set_child-IsTrie b m (child c n cs) vm v = elim (Bool-cases (c == b)) [
  | inl same ↦ rw same (vm, ground (arith, v.1), v.2)
  | inr differs ↦
      rw differs
        (v.0, ground (arith, child_of-set_child b c m cs, v.1), set_child-IsTrie b m cs vm v.2)
]

or_new-IsTrie : (p : Pointer) → IsTriePointer p → IsTrie (or_new p)
unfolding IsTrie
or_new-IsTrie nil v = (tt, tt)
or_new-IsTrie (to n) v = v

-- Adding keeps one child for each byte.
pub fix_set-IsTrie : (p : List (Option ℕ)) (id : ℕ) (n : Node) → IsTrie n → IsTrie (fix_set p id n)
unfolding fix_set IsTrie
fix_set-IsTrie [] id (node cs ig ids) v = v
fix_set-IsTrie (none ∷ p) id (node cs ig ids) v =
    (v.0, fix_set-IsTrie p id (or_new ig) (or_new-IsTrie ig v.1))
fix_set-IsTrie (some b ∷ p) id (node cs ig ids) v =
    let m = or_new (child_of cs b) in
    let vm = fix_set-IsTrie p id m (or_new-IsTrie (child_of cs b) (child_of-IsTrie cs b v.0)) in
    (set_child-IsTrie b (fix_set p id m) cs vm v.0, v.1)

-- The node after removal, through the children of a byte.
child_of-remove_empty :
    (cs : Children) (b : ℕ)
    → IsTrieChildren cs
    → child_of (remove_empty_children cs) b ≡ remove_empty_pointer (child_of cs b)
unfolding child_of remove_empty IsTrie
child_of-remove_empty leaf b v = refl
child_of-remove_empty (child c n cs) b v =
    let rest = child_of-remove_empty cs b v.2 in
    let gone = child_of-remove_empty cs c v.2 in
    elim (Bool-cases (is_empty (remove_empty n))) [
      | inl empty ↦ elim (Bool-cases (c == b)) [
        | inl same ↦
            let at : child_of cs b ≡ nil = ap (child_of cs) (sym (==→eq c b same)) ∙ v.1 in
            rw (empty, same, empty) (rest ∙ ap remove_empty_pointer at)
        | inr differs ↦ rw (empty, differs) rest
      ]
      | inr kept ↦ elim (Bool-cases (c == b)) [
        | inl same ↦ rw (kept, same, child_of, kept) refl
        | inr differs ↦ rw (kept, differs, child_of) rest
      ]
    ]

ids_at-is_empty : (q : List (Option ℕ)) (n : Node) → is_empty n ≡ true → ids_at q n ≡ []
unfolding is_empty ids_at child_of
ids_at-is_empty [] (node leaf nil []) e = refl
ids_at-is_empty (none ∷ q) (node leaf nil []) e = refl
ids_at-is_empty (some b ∷ q) (node leaf nil []) e = refl
ids_at-is_empty q (node leaf nil (id ∷ ids)) e = absurd (cc e)
ids_at-is_empty q (node leaf (to n) ids) e = absurd (cc e)
ids_at-is_empty q (node (child c n cs) ig ids) e = absurd (cc e)

Pointer-cases : (p : Pointer) → (p ≡ nil) ⊎ ((n : Node) × (p ≡ to n))
Pointer-cases nil = inl refl
Pointer-cases (to n) = inr (n, refl)

pruned :
    (q : List (Option ℕ)) (n : Node)
    → ids_at q (remove_empty n) ≡ ids_at q n
    → ids_at_pointer q (remove_empty_pointer (to n)) ≡ ids_at q n
unfolding remove_empty
pruned q n below = elim (Bool-cases (is_empty (remove_empty n))) [
  | inl empty ↦ rw empty (sym (ids_at-is_empty q (remove_empty n) empty) ∙ below)
  | inr kept ↦ rw kept below
]

-- Removing empty nodes loses no id.
ids_at-remove_empty :
    (q : List (Option ℕ)) (n : Node) → IsTrie n → ids_at q (remove_empty n) ≡ ids_at q n
unfolding ids_at remove_empty IsTrie
ids_at-remove_empty [] (node cs ig ids) v = refl
ids_at-remove_empty (none ∷ q) (node cs nil ids) v = refl
ids_at-remove_empty (none ∷ q) (node cs (to n) ids) v =
    let below = ids_at-remove_empty q n v.1 in
    elim (Bool-cases (is_empty (remove_empty n))) [
      | inl empty ↦ rw empty (sym (ids_at-is_empty q (remove_empty n) empty) ∙ below)
      | inr kept ↦ rw kept below
    ]
ids_at-remove_empty (some b ∷ q) (node cs ig ids) v = elim (Pointer-cases (child_of cs b)) [
  | inl nothing ↦
      let gone : child_of (remove_empty_children cs) b ≡ nil =
        child_of-remove_empty cs b v.0 ∙ ap remove_empty_pointer nothing in
      ap (ids_at_pointer q) gone ∙ sym (ap (ids_at_pointer q) nothing)
  | inr (n, at) ↦
      let below = ids_at-remove_empty q n (subst IsTriePointer at (child_of-IsTrie cs b v.0)) in
      let there : child_of (remove_empty_children cs) b ≡ remove_empty_pointer (to n) =
        child_of-remove_empty cs b v.0 ∙ ap remove_empty_pointer at in
      ap (ids_at_pointer q) there ∙ pruned q n below ∙ sym (ap (ids_at_pointer q) at)
]

fix_del-no_child :
    (b : ℕ) (p : List (Option ℕ)) (id : ℕ) (cs : Children) (ig : Pointer) (ids : List ℕ)
    → child_of cs b ≡ nil
    → fix_del (some b ∷ p) id (node cs ig ids) ≡ node cs ig ids
unfolding fix_del
fix_del-no_child b p id cs ig ids at = rw (at, fix_del) refl

fix_del-child :
    (b : ℕ) (p : List (Option ℕ)) (id : ℕ) (cs : Children) (ig : Pointer) (ids : List ℕ) (n : Node)
    → child_of cs b ≡ to n
    → fix_del (some b ∷ p) id (node cs ig ids) ≡ node (set_child b (fix_del p id n) cs) ig ids
unfolding fix_del
fix_del-child b p id cs ig ids n at = rw (at, fix_del) refl

unchanged :
    (t : Bool) (id : ℕ) (xs : List ℕ)
    → xs ≡ []
    → xs ≡ (if t then keep_if (λ cid. not (id == cid)) xs else xs)
unchanged true id xs e = e ∙ sym (ap (keep_if (λ cid. not (id == cid))) e)
unchanged false id xs e = refl

-- Deleting an id at a pattern takes it from there, and leaves all other patterns alone.
ids_at-fix_del :
    (p q : List (Option ℕ)) (id : ℕ) (n : Node)
    → ids_at q (fix_del p id n)
      ≡ (if same_pattern p q then keep_if (λ cid. not (id == cid)) (ids_at q n) else ids_at q n)
unfolding ids_at fix_del same_pattern
ids_at-fix_del [] [] id (node cs ig ids) = refl
ids_at-fix_del [] (none ∷ q) id (node cs ig ids) = refl
ids_at-fix_del [] (some c ∷ q) id (node cs ig ids) = refl
ids_at-fix_del (none ∷ p) [] id (node cs nil ids) = refl
ids_at-fix_del (none ∷ p) [] id (node cs (to n) ids) = refl
ids_at-fix_del (none ∷ p) (some c ∷ q) id (node cs nil ids) = refl
ids_at-fix_del (none ∷ p) (some c ∷ q) id (node cs (to n) ids) = refl
ids_at-fix_del (none ∷ p) (none ∷ q) id (node cs nil ids) = ground arith
ids_at-fix_del (none ∷ p) (none ∷ q) id (node cs (to n) ids) = ids_at-fix_del p q id n
ids_at-fix_del (some b ∷ p) [] id (node cs ig ids) = ground arith
ids_at-fix_del (some b ∷ p) (none ∷ q) id (node cs ig ids) = ground arith
ids_at-fix_del (some b ∷ p) (some c ∷ q) id (node cs ig ids) =
    elim (Pointer-cases (child_of cs b)) [
      | inl nothing ↦
          let whole : ids_at (some c ∷ q) (fix_del (some b ∷ p) id (node cs ig ids))
              ≡ ids_at_pointer q (child_of cs c) =
            ap (ids_at (some c ∷ q)) (fix_del-no_child b p id cs ig ids nothing) in
          whole ∙ elim (Bool-cases (b == c)) [
            | inl same ↦
                let at : child_of cs c ≡ nil = ap (child_of cs) (sym (==→eq b c same)) ∙ nothing in
                unchanged (b == c && same_pattern p q) id (ids_at_pointer q (child_of cs c))
                  (ap (ids_at_pointer q) at)
            | inr differs ↦ rw differs refl
          ]
      | inr (n, at) ↦
          let rest = ids_at-fix_del p q id n in
          let below = ids_at_pointer q (child_of cs c) in
          let whole : ids_at (some c ∷ q) (fix_del (some b ∷ p) id (node cs ig ids))
              ≡ ids_at_pointer q (child_of (set_child b (fix_del p id n) cs) c) =
            ap (ids_at (some c ∷ q)) (fix_del-child b p id cs ig ids n at) in
          whole
          ∙ ap (ids_at_pointer q) (child_of-set_child b c (fix_del p id n) cs)
          ∙ elim (Bool-cases (b == c)) [
            | inl same ↦
                let here : child_of cs c ≡ to n = ap (child_of cs) (sym (==→eq b c same)) ∙ at in
                rw same (
                  subst
                    (λ x.
                      ids_at q (fix_del p id n)
                      ≡ (if same_pattern p q then keep_if (λ cid. not (id == cid)) x else x))
                    (sym (ap (ids_at_pointer q) here)) rest)
            | inr differs ↦ rw differs refl
          ]
    ]

fix_del-IsTrie : (p : List (Option ℕ)) (id : ℕ) (n : Node) → IsTrie n → IsTrie (fix_del p id n)
unfolding fix_del IsTrie
fix_del-IsTrie [] id (node cs ig ids) v = v
fix_del-IsTrie (none ∷ p) id (node cs nil ids) v = v
fix_del-IsTrie (none ∷ p) id (node cs (to n) ids) v = (v.0, fix_del-IsTrie p id n v.1)
fix_del-IsTrie (some b ∷ p) id (node cs ig ids) v = elim (Pointer-cases (child_of cs b)) [
  | inl nothing ↦ subst IsTrie (sym (fix_del-no_child b p id cs ig ids nothing)) v
  | inr (n, at) ↦
      let vn = fix_del-IsTrie p id n (subst IsTriePointer at (child_of-IsTrie cs b v.0)) in
      subst IsTrie (sym (fix_del-child b p id cs ig ids n at))
        (set_child-IsTrie b (fix_del p id n) cs vn v.0, v.1)
]

-- DeleteMatch on a trie with one child at most for every byte: the id is gone from the given
-- pattern, and every other pattern has the ids that it had.
pub ids_at-delete_match :
    (ignore : List Bool) (prefix : Bytes) (id : ℕ) (q : List (Option ℕ)) (n : Node)
    → IsTrie n
    → ids_at q (delete_match ignore prefix id n) ≡ (
        if same_pattern (pattern_of ignore prefix) q
        then keep_if (λ cid. not (id == cid)) (ids_at q n)
        else ids_at q n)
unfolding delete_match
ids_at-delete_match ignore prefix id q n v =
    let p = pattern_of ignore prefix in
    ids_at-remove_empty q (fix_del p id n) (fix_del-IsTrie p id n v) ∙ ids_at-fix_del p q id n
