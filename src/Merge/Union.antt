-- ===== src/Merge/Union.antt =====
-- The union of two sequences in key order, in which a pair of the left one hides a pair of the
-- right one with the same key.
use Prim.Native.Nat.{Ordering}
use pri_zzl_badger.Base.{
  ◌≡◌, refl, sym, ◌∙◌, Bool, true, false, Option, none, some, List, [], ◌∷◌, arith, All, All-mono,
  if◌then◌else◌, Bool-cases, inl, inr,
}
use pri_zzl_badger.Bytes.{Bytes}
use pri_zzl_badger.Bytes.Order.{Ordering-cases, eq_of_compare_bytes}
use pri_zzl_badger.Keys.{compare_keys, parse_key, ts_bytes}
use pri_zzl_badger.Keys.Order.{compare_keys-flip}
use pri_zzl_badger.Iter.{KeyValue}
use pri_zzl_badger.Iter.Order.{InKeyOrder, first_of, first_of-none}
use pri_zzl_badger.LevelHandler.Order.{Before-trans}

unfoldable pub union : List KeyValue → List KeyValue → List KeyValue
union [] r = r
union (x ∷ xs) [] = x ∷ xs
union (x ∷ xs) (y ∷ ys) = elim (compare_keys x.key y.key) [
  | Ordering.eq ↦ x ∷ union xs ys
  | Ordering.lt ↦ x ∷ union xs (y ∷ ys)
  | Ordering.gt ↦ y ∷ union (x ∷ xs) ys
]

abbrev pub is_eq : Ordering → Bool
is_eq Ordering.lt = false
is_eq Ordering.eq = true
is_eq Ordering.gt = false

-- The pair with the key, in a sequence of pairs.
unfoldable pub at_key : Bytes → List KeyValue → Option KeyValue
at_key k [] = none
at_key k (x ∷ xs) = let rest = at_key k xs in if is_eq (compare_keys x.key k) then some x else rest

-- Every key comes after the given one.
abbrev pub After : Bytes → List KeyValue → Type 0
After b xs = All (λ y. compare_keys b y.key ≡ Ordering.lt) xs

pub union_left :
    (x : KeyValue) (xs r : List KeyValue) → After x.key r → union (x ∷ xs) r ≡ x ∷ union xs r
unfolding union
union_left x [] [] a = refl
union_left x (z ∷ xs) [] a = refl
union_left x xs (y ∷ ys) a = ground (arith, a.0)

pub union_right :
    (y : KeyValue) (l ys : List KeyValue) → After y.key l → union l (y ∷ ys) ≡ y ∷ union l ys
unfolding union
union_right y [] ys a = refl
union_right y (x ∷ xs) ys a = ground (arith, a.0, compare_keys-flip x.key y.key)

pub union_before :
    (x y : KeyValue) (xs ys : List KeyValue)
    → compare_keys x.key y.key ≡ Ordering.lt
    → union (x ∷ xs) (y ∷ ys) ≡ x ∷ union xs (y ∷ ys)
unfolding union
union_before x y xs ys e = ground (arith, e)

pub union_after :
    (x y : KeyValue) (xs ys : List KeyValue)
    → compare_keys x.key y.key ≡ Ordering.gt
    → union (x ∷ xs) (y ∷ ys) ≡ y ∷ union (x ∷ xs) ys
unfolding union
union_after x y xs ys e = ground (arith, e)

pub union_equal :
    (x y : KeyValue) (xs ys : List KeyValue)
    → compare_keys x.key y.key ≡ Ordering.eq
    → union (x ∷ xs) (y ∷ ys) ≡ x ∷ union xs ys
unfolding union
union_equal x y xs ys e = ground (arith, e)

pub union-nil : (l : List KeyValue) → union l [] ≡ l
unfolding union
union-nil [] = refl
union-nil (x ∷ xs) = refl

-- What follows one of two equal keys follows the other.
pub compare_keys-equal :
    (a b c : Bytes) → compare_keys a b ≡ Ordering.eq → compare_keys a c ≡ compare_keys b c
unfolding compare_keys
compare_keys-equal a b c e = ground (
  arith,
  eq_of_compare_bytes (parse_key a) (parse_key b),
  eq_of_compare_bytes (ts_bytes a) (ts_bytes b),
)

pub After-Before :
    (a b : Bytes) (xs : List KeyValue) → compare_keys a b ≡ Ordering.lt → After b xs → After a xs
After-Before a b xs lt h = All-mono _ _ (λ y later. Before-trans a b y.key lt later) xs h

After-union : (b : Bytes) (l r : List KeyValue) → After b l → After b r → After b (union l r)
unfolding union
After-union b [] r h k = k
After-union b (x ∷ xs) [] h k = h
After-union b (x ∷ xs) (y ∷ ys) h k = elim (Ordering-cases (compare_keys x.key y.key)) [
  | inl lt ↦ rw (union_before x y xs ys lt) (h.0, After-union b xs (y ∷ ys) h.1 k)
  | inr (inl eq) ↦ rw (union_equal x y xs ys eq) (h.0, After-union b xs ys h.1 k.1)
  | inr (inr gt) ↦ rw (union_after x y xs ys gt) (k.0, After-union b (x ∷ xs) ys h k.1)
]

pub union-InKeyOrder : (l r : List KeyValue) → InKeyOrder l → InKeyOrder r → InKeyOrder (union l r)
unfolding union
union-InKeyOrder [] r h k = k
union-InKeyOrder (x ∷ xs) [] h k = h
union-InKeyOrder (x ∷ xs) (y ∷ ys) h k = elim (Ordering-cases (compare_keys x.key y.key)) [
  | inl lt ↦ rw (union_before x y xs ys lt) (
    After-union x.key xs (y ∷ ys) h.0 (lt, After-Before x.key y.key ys lt k.0),
    union-InKeyOrder xs (y ∷ ys) h.1 k,
  )
  | inr (inl eq) ↦ rw (union_equal x y xs ys eq) (
    After-union x.key xs ys h.0
        (All-mono _ _ (λ z later. compare_keys-equal x.key y.key z.key eq ∙ later) ys k.0),
    union-InKeyOrder xs ys h.1 k.1,
  )
  | inr (inr gt) ↦
      let lt : compare_keys y.key x.key ≡ Ordering.lt =
        ground (arith, compare_keys-flip x.key y.key) in
      rw (union_after x y xs ys gt) (
        After-union y.key (x ∷ xs) ys (lt, After-Before y.key x.key xs lt h.0) k.0,
        union-InKeyOrder (x ∷ xs) ys h k.1,
      )
]

at_key-After : (k : Bytes) (xs : List KeyValue) → After k xs → at_key k xs ≡ none
unfolding at_key
at_key-After k [] a = refl
at_key-After k (x ∷ xs) a = ground (arith, a.0, compare_keys-flip k x.key, at_key-After k xs a.1)

-- A key is looked up in the left sequence first.
pub at_key-union :
    (k : Bytes) (l r : List KeyValue)
    → InKeyOrder l
    → at_key k (union l r) ≡ first_of (at_key k l) (at_key k r)
unfolding union at_key
at_key-union k [] r h = refl
at_key-union k (x ∷ xs) [] h = sym (first_of-none (at_key k (x ∷ xs)))
at_key-union k (x ∷ xs) (y ∷ ys) h = elim (Ordering-cases (compare_keys x.key y.key)) [
  | inl lt ↦ rw (union_before x y xs ys lt) (ground (arith, at_key-union k xs (y ∷ ys) h.1))
  | inr (inl eq) ↦
      rw (union_equal x y xs ys eq)
        (ground (arith, compare_keys-equal x.key y.key k eq, at_key-union k xs ys h.1))
  | inr (inr gt) ↦ rw (union_after x y xs ys gt) (elim (Bool-cases (is_eq (compare_keys y.key k))) [
    | inr other ↦ ground (arith, other, at_key-union k (x ∷ xs) ys h)
    | inl here ↦
        let at : compare_keys y.key k ≡ Ordering.eq = ground arith in
        let lt : compare_keys y.key x.key ≡ Ordering.lt =
          ground (arith, compare_keys-flip x.key y.key) in
        let lt' : compare_keys k x.key ≡ Ordering.lt =
          sym (compare_keys-equal y.key k x.key at) ∙ lt in
        let absent = at_key-After k (x ∷ xs) (lt', After-Before k x.key xs lt' h.0) in
        ground (arith, here, absent)
  ])
]
