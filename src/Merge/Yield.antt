-- ===== src/Merge/Yield.antt =====
-- What a merge iterator yields, going forward over two iterators in key order: their union.
use Prim.Native.Nat.{Ordering}
use pri_zzl_badger.Base.{
  ℕ, suc, ◌≡◌, refl, sym, ap, subst, ◌∙◌, true, false, some, List, [], ◌∷◌, arith, length,
  Bool-cases, inl, inr,
}
use pri_zzl_badger.Bytes.{Bytes, equal_bytes}
use pri_zzl_badger.Bytes.Order.{equal_bytes_iff, Ordering-cases}
use pri_zzl_badger.Keys.{compare_keys}
use pri_zzl_badger.Keys.Order.{compare_keys_refl}
use pri_zzl_badger.Iter.{KeyValue}
use pri_zzl_badger.Iter.Order.{InKeyOrder}
use pri_zzl_badger.Merge.{
  MergeIterator, small, fix, set_current, next_small, next_rounds, rewind, rewind_node, current,
  yield_rounds,
}
use pri_zzl_badger.Merge.Fix
use pri_zzl_badger.Merge.Union.{
  union, union_before, union_after, union_equal, union-nil, union-InKeyOrder,
}

abbrev pub Running : MergeIterator → List KeyValue → List KeyValue → Type 0
Running mi l r = (mi.reverse ≡ false) × Fix.Holds mi.left l × Fix.Holds mi.right r

-- The small node has the first of the pairs that are to come.
data Fixed (mi : MergeIterator) : List KeyValue → Type 0 where
  ended : (small mi).valid ≡ false → Fixed mi []
  on_left :
      (x : KeyValue) (xs r : List KeyValue)
      → mi.small_is_left ≡ true
      → Running mi (x ∷ xs) r
      → Fixed mi (x ∷ union xs r)
  on_right :
      (y : KeyValue) (l ys : List KeyValue)
      → mi.small_is_left ≡ false
      → Running mi l (y ∷ ys)
      → Fixed mi (y ∷ union l ys)

small_invalid :
    (mi : MergeIterator) → mi.left.valid ≡ false → mi.right.valid ≡ false → (small mi).valid ≡ false
small_invalid mi l r = elim (Bool-cases mi.small_is_left) [
  | inl t ↦ ground (arith, t, l)
  | inr f ↦ ground (arith, f, r)
]

fix-Fixed : (mi : MergeIterator) (l r : List KeyValue) → Running mi l r → Fixed (fix mi) (union l r)
unfolding union
fix-Fixed mi [] [] h = rw (Fix.none_left mi h.0 h.1.1 h.2.1) (ended (small_invalid mi h.1.1 h.2.1))
fix-Fixed mi [] (y ∷ ys) h = rw (Fix.no_bigger_left mi h.0 h.1.1 h.2.1) (on_right y [] ys refl h)
fix-Fixed mi (x ∷ xs) [] h =
    rw (Fix.no_bigger_right mi h.0 h.2.1 h.1.1)
      (subst (λ u. Fixed (Fix.to_left mi) (x ∷ u)) (union-nil xs) (on_left x xs [] refl h))
fix-Fixed mi (x ∷ xs) (y ∷ ys) h =
    let same : compare_keys mi.left.key mi.right.key ≡ compare_keys x.key y.key =
      ap (λ k. compare_keys k mi.right.key) h.1.2 ∙ ap (compare_keys x.key) h.2.2 in
    elim (Ordering-cases (compare_keys x.key y.key)) [
      | inl lt ↦
          rw (Fix.fix_left mi h.0 h.1.1 h.2.1 (same ∙ lt))
            (rw (union_before x y xs ys lt) (on_left x xs (y ∷ ys) refl h))
      | inr (inl eq) ↦ rw (Fix.fix_equal mi h.0 h.1.1 h.2.1 (same ∙ eq)) (
          rw (union_equal x y xs ys eq)
            (on_left x xs ys refl (h.0, h.1, Fix.next_node-Holds mi.right y ys h.2)))
      | inr (inr gt) ↦
          rw (Fix.fix_right mi h.0 h.1.1 h.2.1 (same ∙ gt))
            (rw (union_after x y xs ys gt) (on_right y (x ∷ xs) ys refl h))
    ]

-- The pair at hand is the first one, and Next leaves the others.
current-Fixed :
    (mi : MergeIterator) (x : KeyValue) (u : List KeyValue)
    → Fixed mi (x ∷ u)
    → (current mi ≡ some x) × ((small mi).valid ≡ true) × ((small mi).key ≡ x.key)
unfolding current
current-Fixed mi x _ (on_left _ xs r t h) = rw t (rw h.1.0 (refl, h.1.1, h.1.2))
current-Fixed mi y _ (on_right _ l ys f h) = rw f (rw h.2.0 (refl, h.2.1, h.2.2))

next_small-Fixed :
    (mi : MergeIterator) (x : KeyValue) (u : List KeyValue)
    → Fixed mi (x ∷ u)
    → Fixed (fix (next_small mi)) u
unfolding next_small
next_small-Fixed mi x _ (on_left _ xs r t h) =
    rw t (fix-Fixed _ xs r (h.0, Fix.next_node-Holds mi.left x xs h.1, h.2))
next_small-Fixed mi y _ (on_right _ l ys f h) =
    rw f (fix-Fixed _ l ys (h.0, h.1, Fix.next_node-Holds mi.right y ys h.2))

ended_invalid : (mi : MergeIterator) → Fixed mi [] → (small mi).valid ≡ false
ended_invalid mi (ended i) = i

set_current-Fixed : (mi : MergeIterator) (u : List KeyValue) → Fixed mi u → Fixed (set_current mi) u
set_current-Fixed mi u (ended i) = ended i
set_current-Fixed mi u (on_left x xs r t h) = on_left x xs r t h
set_current-Fixed mi u (on_right y l ys f h) = on_right y l ys f h

cur_key-fix : (mi : MergeIterator) → (fix (next_small mi)).cur_key ≡ mi.cur_key
unfolding fix next_small
cur_key-fix mi = ground arith

next_stops :
    (rounds : ℕ) (mi : MergeIterator)
    → (small mi).valid ≡ false
    → next_rounds (suc rounds) mi ≡ some (set_current mi)
unfolding next_rounds
next_stops rounds mi v = ground (arith, v)

next_stops_at :
    (rounds : ℕ) (mi : MergeIterator)
    → (small mi).valid ≡ true
    → equal_bytes (small mi).key mi.cur_key ≡ false
    → next_rounds (suc rounds) mi ≡ some (set_current mi)
unfolding next_rounds
next_stops_at rounds mi v ne = ground (arith, v, ne)

next_goes_on :
    (rounds : ℕ) (mi : MergeIterator)
    → (small mi).valid ≡ true
    → (small mi).key ≡ mi.cur_key
    → next_rounds (suc rounds) mi ≡ next_rounds rounds (fix (next_small mi))
unfolding next_rounds
next_goes_on rounds mi v same = ground (arith, v, equal_bytes_iff (small mi).key mi.cur_key, same)

differs : (a b : Bytes) → compare_keys a b ≡ Ordering.lt → equal_bytes b a ≡ false
differs a b lt = elim (Bool-cases (equal_bytes b a)) [
  | inl t ↦ ground (arith, lt, ap (compare_keys a) ((equal_bytes_iff b a).0 t), compare_keys_refl a)
  | inr f ↦ f
]

-- Next goes one pair on, as another key comes next.
next_rounds-Fixed :
    (mi : MergeIterator) (x : KeyValue) (u : List KeyValue)
    → InKeyOrder (x ∷ u)
    → Fixed mi (x ∷ u)
    → mi.cur_key ≡ x.key
    → next_rounds 3 mi ≡ some (set_current (fix (next_small mi)))
next_rounds-Fixed mi x [] o h at =
    let now = current-Fixed mi x [] h in
    next_goes_on 2 mi now.1 (now.2 ∙ sym at)
    ∙ next_stops 1 _ (ended_invalid _ (next_small-Fixed mi x [] h))
next_rounds-Fixed mi x (y ∷ u) o h at =
    let now = current-Fixed mi x (y ∷ u) h in
    let after = current-Fixed _ y u (next_small-Fixed mi x (y ∷ u) h) in
    next_goes_on 2 mi now.1 (now.2 ∙ sym at)
    ∙ next_stops_at 1 _ after.1 (rw (after.2, cur_key-fix mi, at) (differs x.key y.key o.0.0))

-- Goes through the pairs that are to come.
yield_rounds-Fixed :
    (mi : MergeIterator) (u : List KeyValue)
    → InKeyOrder u
    → Fixed mi u
    → mi.cur_key ≡ (small mi).key
    → yield_rounds (suc (length u)) mi ≡ some u
unfolding yield_rounds
yield_rounds-Fixed mi [] o h at = ground (arith, ended_invalid mi h)
yield_rounds-Fixed mi (x ∷ u) o h at =
    let now = current-Fixed mi x u h in
    let next = next_rounds-Fixed mi x u o h (at ∙ now.2) in
    let rest =
      yield_rounds-Fixed (set_current (fix (next_small mi))) u o.1
        (set_current-Fixed _ u (next_small-Fixed mi x u h)) refl in
    rw (now.1, now.0, next, rest) refl

pub yield_rounds-Running :
    (mi : MergeIterator) (l r : List KeyValue)
    → InKeyOrder l
    → InKeyOrder r
    → Running mi l r
    → yield_rounds (suc (length (union l r))) (set_current (fix mi)) ≡ some (union l r)
yield_rounds-Running mi l r h k run =
    yield_rounds-Fixed (set_current (fix mi)) (union l r) (union-InKeyOrder l r h k)
      (set_current-Fixed _ (union l r) (fix-Fixed mi l r run)) refl

-- From Rewind on, a forward merge iterator over two iterators in key order, wherever it was, yields
-- the union of what they have: the pairs in key order, and of a key that both have only the pair of
-- the left one. No Next takes more than three rounds of its loop, and the iterator is not Valid
-- after the last pair.
pub yield_rounds-rewind :
    (mi : MergeIterator)
    → mi.reverse ≡ false
    → InKeyOrder mi.left.all
    → InKeyOrder mi.right.all
    → let u = union mi.left.all mi.right.all in
      (yield_rounds (suc (length u)) (rewind mi) ≡ some u) × InKeyOrder u
unfolding rewind rewind_node
yield_rounds-rewind mi rev h k = (
  yield_rounds-Running _ mi.left.all mi.right.all h k
      (rev, Fix.set_key-Holds mi.left mi.left.all, Fix.set_key-Holds mi.right mi.right.all),
  union-InKeyOrder mi.left.all mi.right.all h k,
)
