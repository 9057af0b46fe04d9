-- ===== src/Trie/Lookup.antt =====
-- What reading a key answers.
use pri_zzl_badger.Base.{
  ℕ, ◌≡◌, refl, true, Option, none, some, List, [], ◌∷◌, ◌++◌, elem, elem-append, arith, inl, inr,
  ◌⊎◌, ◌↔◌, Bool-cases, subst,
}
use pri_zzl_badger.Bytes.{Bytes}
use pri_zzl_badger.Trie.{Node, Children, Pointer, node, nil, to, child_of, get}
use pri_zzl_badger.Trie.Match.{ids_at, ids_at_pointer, matches}

-- A pattern that matches the key and has the id.
pub record Found (key : Bytes) (n : Node) (i : ℕ) : Type 0 where
  pub pattern : List (Option ℕ)
  pub is_match : matches pattern key ≡ true
  pub has_id : elem i (ids_at pattern n) ≡ true

abbrev get_pointer : Bytes → Pointer → List ℕ
get_pointer ks nil = []
get_pointer ks (to n) = get ks n

elem-three :
    (i : ℕ) (xs ys zs : List ℕ)
    → elem i (xs ++ (ys ++ zs)) ≡ true
    → (elem i xs ≡ true) ⊎ ((elem i ys ≡ true) ⊎ (elem i zs ≡ true))
elem-three i xs ys zs h = elim (Bool-cases (elem i xs)) [
  | inl here ↦ inl here
  | inr far ↦ elim (Bool-cases (elem i ys)) [
    | inl here ↦ inr (inl here)
    | inr farther ↦ inr (inr (ground (arith, elem-append i xs (ys ++ zs), elem-append i ys zs)))
  ]
]

own_id :
    (k : ℕ) (ks : Bytes) (cs : Children) (ig : Pointer) (ids : List ℕ) (i : ℕ)
    → elem i ids ≡ true
    → Found (k ∷ ks) (node cs ig ids) i
unfolding ids_at matches
own_id k ks cs ig ids i h = record { pattern = []; is_match = refl; has_id = h }

under_ignore :
    (k : ℕ) (ks : Bytes) (cs : Children) (m : Node) (ids : List ℕ) (i : ℕ)
    → Found ks m i
    → Found (k ∷ ks) (node cs (to m) ids) i
unfolding ids_at matches
under_ignore k ks cs m ids i f = record {
  pattern = none ∷ f.pattern;
  is_match = f.is_match;
  has_id = f.has_id;
}

under_child :
    (k : ℕ) (ks : Bytes) (cs : Children) (ig : Pointer) (m : Node) (ids : List ℕ) (i : ℕ)
    → child_of cs k ≡ to m
    → Found ks m i
    → Found (k ∷ ks) (node cs ig ids) i
unfolding ids_at matches
under_child k ks cs ig m ids i at f = record {
  pattern = some k ∷ f.pattern;
  is_match = ground (arith, f.is_match);
  has_id = ground (arith, at, f.has_id);
}

Pointer-cases : (p : Pointer) → (p ≡ nil) ⊎ ((n : Node) × (p ≡ to n))
Pointer-cases nil = inl refl
Pointer-cases (to n) = inr (n, refl)

get-Found : (key : Bytes) (n : Node) (i : ℕ) → elem i (get key n) ≡ true → Found key n i
unfolding get
get-Found [] (node cs ig ids) i h =
    unfold ids_at in record { pattern = []; is_match = unfold matches in refl; has_id = h }
get-Found (k ∷ ks) (node cs nil ids) i h = elim (Pointer-cases (child_of cs k)) [
  | inl nothing ↦ own_id k ks cs nil ids i (ground (arith, nothing, h, elem-append i ids []))
  | inr (m, at) ↦ elim (elem-three i ids [] (get ks m) (rw at at h)) [
    | inl own ↦ own_id k ks cs nil ids i own
    | inr (inl never) ↦ absurd (cc never)
    | inr (inr below) ↦ under_child k ks cs nil m ids i at (get-Found ks m i below)
  ]
]
get-Found (k ∷ ks) (node cs (to o) ids) i h = elim (Pointer-cases (child_of cs k)) [
  | inl nothing ↦ elim (elem-three i ids (get ks o) [] (rw nothing at h)) [
    | inl own ↦ own_id k ks cs (to o) ids i own
    | inr (inl below) ↦ under_ignore k ks cs o ids i (get-Found ks o i below)
    | inr (inr never) ↦ absurd (cc never)
  ]
  | inr (m, at) ↦ elim (elem-three i ids (get ks o) (get ks m) (rw at at h)) [
    | inl own ↦ own_id k ks cs (to o) ids i own
    | inr (inl below) ↦ under_ignore k ks cs o ids i (get-Found ks o i below)
    | inr (inr below) ↦ under_child k ks cs (to o) m ids i at (get-Found ks m i below)
  ]
]

ids_at-get :
    (p : List (Option ℕ)) (key : Bytes) (n : Node) (i : ℕ)
    → matches p key ≡ true
    → elem i (ids_at p n) ≡ true
    → elem i (get key n) ≡ true
unfolding get ids_at matches
ids_at-get [] [] (node cs ig ids) i m h = h
ids_at-get [] (k ∷ ks) (node cs ig ids) i m h =
    ground (arith, h, elem-append i ids (get_pointer ks ig ++ get_pointer ks (child_of cs k)))
ids_at-get (l ∷ p) [] n i m h = absurd (cc m)
ids_at-get (none ∷ p) (k ∷ ks) (node cs nil ids) i m h = absurd (cc h)
ids_at-get (none ∷ p) (k ∷ ks) (node cs (to n) ids) i m h = ground (
  arith,
  ids_at-get p ks n i m h,
  elem-append i ids (get ks n ++ get_pointer ks (child_of cs k)),
  elem-append i (get ks n) (get_pointer ks (child_of cs k)),
)
ids_at-get (some b ∷ p) (k ∷ ks) (node cs ig ids) i m h = elim (Pointer-cases (child_of cs b)) [
  | inl nothing ↦ absurd (ground (arith, nothing, h))
  | inr (n, at) ↦
      let below =
        ids_at-get p ks n i (ground arith) (subst (λ x. elem i (ids_at_pointer p x) ≡ true) at h) in
      ground (
        arith,
        below,
        at,
        elem-append i ids (get_pointer ks ig ++ get_pointer ks (child_of cs k)),
        elem-append i (get_pointer ks ig) (get_pointer ks (child_of cs k)),
      )
]

-- Get answers an id exactly where a pattern that matches the key has it.
pub get_iff : (key : Bytes) (n : Node) (i : ℕ) → (elem i (get key n) ≡ true) ↔ Found key n i
get_iff key n i = (get-Found key n i, λ f. ids_at-get f.pattern key n i f.is_match f.has_id)
