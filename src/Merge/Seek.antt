-- ===== src/Merge/Seek.antt =====
-- A merge iterator after Seek: what the union has from the key on.
use Prim.Native.Nat.{Ordering}
use pri_zzl_badger.Base.{
  suc, ◌≡◌, refl, subst, false, some, List, [], ◌∷◌, arith, length, Bool-cases, inl, inr,
}
use pri_zzl_badger.Bytes.{Bytes}
use pri_zzl_badger.Bytes.Order.{Ordering-cases}
use pri_zzl_badger.Keys.{compare_keys}
use pri_zzl_badger.Keys.Order.{compare_keys-flip}
use pri_zzl_badger.Compaction.{is_lt}
use pri_zzl_badger.Iter.{KeyValue, seek}
use pri_zzl_badger.Iter.Order.{InKeyOrder, seek-InKeyOrder}
use pri_zzl_badger.LevelHandler.Order.{Before-trans}
use pri_zzl_badger.Merge.{MergeIterator, seek_merge, seek_node, yield_rounds}
use pri_zzl_badger.Merge.Fix
use pri_zzl_badger.Merge.Yield.{yield_rounds-Running}
use pri_zzl_badger.Merge.Union.{
  union, union_before, union_after, union_equal, union-nil, compare_keys-equal,
}

-- A key after one that is not before `k` is not before it either.
stays :
    (k a b : Bytes)
    → compare_keys a b ≡ Ordering.lt
    → is_lt (compare_keys a k) ≡ false
    → is_lt (compare_keys b k) ≡ false
stays k a b ab ak = elim (Bool-cases (is_lt (compare_keys b k))) [
  | inl t ↦
      let bk : compare_keys b k ≡ Ordering.lt = ground (arith, t) in
      ground (arith, ak, Before-trans a b k ab bk)
  | inr f ↦ f
]

pub seek-union :
    (k : Bytes) (l r : List KeyValue) → union (seek k l) (seek k r) ≡ seek k (union l r)
unfolding union seek
seek-union k [] r = refl
seek-union k (x ∷ xs) [] = union-nil _
seek-union k (x ∷ xs) (y ∷ ys) = elim (Ordering-cases (compare_keys x.key y.key)) [
  | inl lt ↦ rw (union_before x y xs ys lt) (elim (Bool-cases (is_lt (compare_keys x.key k))) [
    | inl t ↦ ground (arith, t, seek-union k xs (y ∷ ys))
    | inr f ↦ ground (arith, f, stays k x.key y.key lt f, union_before x y xs ys lt)
  ])
  | inr (inl eq) ↦
      let same = compare_keys-equal x.key y.key k eq in
      rw (union_equal x y xs ys eq) (elim (Bool-cases (is_lt (compare_keys x.key k))) [
        | inl t ↦ ground (arith, t, same, seek-union k xs ys)
        | inr f ↦ ground (arith, f, same, union_equal x y xs ys eq)
      ])
  | inr (inr gt) ↦
      let lt : compare_keys y.key x.key ≡ Ordering.lt =
        ground (arith, gt, compare_keys-flip x.key y.key) in
      rw (union_after x y xs ys gt) (elim (Bool-cases (is_lt (compare_keys y.key k))) [
        | inl t ↦ ground (arith, t, seek-union k (x ∷ xs) ys)
        | inr f ↦ ground (arith, f, stays k y.key x.key lt f, union_after x y xs ys gt)
      ])
]

-- From Seek on, a forward merge iterator over two iterators in key order, wherever it was, yields
-- the pairs of their union from the first one on whose key is not before the one sought.
pub yield_rounds-seek :
    (mi : MergeIterator) (key : Bytes)
    → mi.reverse ≡ false
    → InKeyOrder mi.left.all
    → InKeyOrder mi.right.all
    → let u = seek key (union mi.left.all mi.right.all) in
      yield_rounds (suc (length u)) (seek_merge key mi) ≡ some u
unfolding seek_merge seek_node
yield_rounds-seek mi key rev h k =
    let l = seek key mi.left.all in
    let r = seek key mi.right.all in
    subst (λ u. yield_rounds (suc (length u)) (seek_merge key mi) ≡ some u)
      (seek-union key mi.left.all mi.right.all)
      (yield_rounds-Running _ l r (seek-InKeyOrder key _ h) (seek-InKeyOrder key _ k)
        (rev, Fix.set_key-Holds mi.left l, Fix.set_key-Holds mi.right r))
