-- ===== src/Merge/Tree.antt =====
-- The tree that NewMergeIterator makes of a list of iterators: a key is looked up in the earlier
-- ones first.
use pri_zzl_badger.Base.{
  ℕ, zero, suc, ◌≡◌, refl, sym, ap, subst, ◌∙◌, Option, none, some, List, [], ◌∷◌, ◌++◌, ◌<◌, ◌/◌,
  arith, All, All-append_inv, length, take, drop, take-drop, length-take, length-drop,
}
use pri_zzl_badger.Bytes.{Bytes}
use pri_zzl_badger.Iter.{KeyValue}
use pri_zzl_badger.Iter.Order.{InKeyOrder, first_of, first_of-none}
use pri_zzl_badger.Merge.{MergeTree, no_iterator, one, merged, new_merge_iterator}
use pri_zzl_badger.Merge.Union.{union, at_key, union-InKeyOrder, at_key-union}

-- The pairs that the tree yields: each merge iterator in it yields the union of its two sides.
pub pairs : MergeTree → List KeyValue
pairs no_iterator = []
pairs (one xs) = xs
pairs (merged l r) = union (pairs l) (pairs r)

-- The key in the first of the sequences that has it.
abbrev pub first_with : Bytes → List (List KeyValue) → Option KeyValue
first_with k [] = none
first_with k (xs ∷ xss) = first_of (at_key k xs) (first_with k xss)

first_of_assoc : (a b c : Option KeyValue) → first_of (first_of a b) c ≡ first_of a (first_of b c)
first_of_assoc none b c = refl
first_of_assoc (some x) b c = refl

first_with-append :
    (k : Bytes) (xs ys : List (List KeyValue))
    → first_with k (xs ++ ys) ≡ first_of (first_with k xs) (first_with k ys)
first_with-append k [] ys = refl
first_with-append k (x ∷ xs) ys =
    ap (first_of (at_key k x)) (first_with-append k xs ys)
    ∙ sym (first_of_assoc (at_key k x) (first_with k xs) (first_with k ys))

-- The tree is there, in key order, and finds each key in the first iterator that has it.
abbrev pub IsMerge : List (List KeyValue) → Option MergeTree → Type 0
IsMerge iters none = ⊥
IsMerge iters (some t) =
    InKeyOrder (pairs t) × ((k : Bytes) → at_key k (pairs t) ≡ first_with k iters)

-- Two merges of the parts of a list.
merged-IsMerge :
    (xs ys : List (List KeyValue)) (l r : Option MergeTree)
    → IsMerge xs l
    → IsMerge ys r
    → IsMerge
        (xs ++ ys)
        (elim l [ none ↦ none | some l' ↦ elim r [ none ↦ none | some r' ↦ some (merged l' r') ] ])
unfolding pairs
merged-IsMerge xs ys none r h k = elim h [ ]
merged-IsMerge xs ys (some l) none h k = elim k [ ]
merged-IsMerge xs ys (some l) (some r) h k = (
  union-InKeyOrder (pairs l) (pairs r) h.0 k.0,
  λ key.
      at_key-union key (pairs l) (pairs r) h.0
      ∙ rw (h.1 key, k.1 key, first_with-append key xs ys) refl,
)

one-IsMerge : (xs : List KeyValue) → InKeyOrder xs → IsMerge (xs ∷ []) (some (one xs))
unfolding pairs
one-IsMerge xs h = (h, λ k. sym (first_of-none (at_key k xs)))

built :
    (depth : ℕ) (iters : List (List KeyValue))
    → length iters < depth
    → All InKeyOrder iters
    → IsMerge iters (new_merge_iterator depth iters)
unfolding new_merge_iterator pairs at_key
built zero iters lt o = absurd (omega arith)
built (suc depth) [] lt o = (tt, λ k. refl)
built (suc depth) (a ∷ []) lt o = one-IsMerge a o.0
built (suc depth) (a ∷ b ∷ []) lt o =
    merged-IsMerge (a ∷ []) (b ∷ []) (some (one a)) (some (one b)) (one-IsMerge a o.0)
      (one-IsMerge b o.1.0)
built (suc depth) (a ∷ b ∷ c ∷ iters) lt o =
    let all = a ∷ b ∷ c ∷ iters in
    let mid = length all / 2 in
    let whole = take-drop mid all in
    let parts =
      All-append_inv InKeyOrder (take mid all) (drop mid all)
        (subst (All InKeyOrder) (sym whole) o) in
    subst (λ q. IsMerge q (new_merge_iterator (suc depth) all)) whole
      (merged-IsMerge (take mid all) (drop mid all) (new_merge_iterator depth (take mid all))
        (new_merge_iterator depth (drop mid all))
        (built depth (take mid all) (omega (arith, length-take mid all (omega arith))) parts.0)
        (built depth (drop mid all) (omega (arith, length-drop mid all)) parts.1))

-- A merge iterator over any number of iterators, each in key order, can be made: it is in key order
-- and finds a key in the first of the iterators that has it, and nowhere when none does.
pub new_merge_iterator-IsMerge :
    (iters : List (List KeyValue))
    → All InKeyOrder iters
    → IsMerge iters (new_merge_iterator (suc (length iters)) iters)
new_merge_iterator-IsMerge iters o = built (suc (length iters)) iters (omega arith) o
