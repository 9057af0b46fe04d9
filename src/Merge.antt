-- ===== src/Merge.antt =====
-- table/merge_iterator.go: two iterators merged into one, and a tree of them for any number. An
-- iterator below is the pairs that it has before it; so is, by Merge/Yield, a merge iterator for
-- the one above.
pub mod Union
pub mod Fix
pub mod Yield
pub mod Seek
pub mod Tree
mod Examples
use Prim.Native.Nat.{Ordering}
use pri_zzl_badger.Base.{
  ℕ, zero, suc, ◌+◌, ◌/◌, Bool, true, false, not, Option, none, some, List, [], ◌∷◌, if◌then◌else◌,
  length, take, drop,
}
use pri_zzl_badger.Bytes.{Bytes, equal_bytes}
use pri_zzl_badger.Keys.{compare_keys}
use pri_zzl_badger.Iter.{KeyValue, seek}

-- node: `all` is what its iterator goes through from a Rewind on, `iter` what is left of it.
pub record Node : Type 0 where
  pub valid : Bool
  pub key : Bytes
  pub iter : List KeyValue
  pub all : List KeyValue

-- MergeIterator: `small` points to the left node or to the right one.
pub record MergeIterator : Type 0 where
  pub left : Node
  pub right : Node
  pub small_is_left : Bool
  pub cur_key : Bytes
  pub reverse : Bool

-- setKey
pub set_key : Node → Node
set_key n = elim n.iter [
  | [] ↦ record n { valid = false }
  | x ∷ xs ↦ record n { valid = true; key = x.key }
]

abbrev pub rest_of : List KeyValue → List KeyValue
rest_of [] = []
rest_of (x ∷ xs) = xs

-- next, rewind and seek of a node.
pub next_node : Node → Node
next_node n = set_key (record n { iter = rest_of n.iter })

pub rewind_node : Node → Node
rewind_node n = set_key (record n { iter = n.all })

pub seek_node : Bytes → Node → Node
seek_node key n = set_key (record n { iter = seek key n.all })

abbrev pub small : MergeIterator → Node
small mi = if mi.small_is_left then mi.left else mi.right

-- bigger
abbrev pub bigger : MergeIterator → Node
bigger mi = if mi.small_is_left then mi.right else mi.left

-- swapSmall
abbrev pub swap_small : MergeIterator → MergeIterator
swap_small mi = record mi { small_is_left = not mi.small_is_left }

-- fix
pub fix : MergeIterator → MergeIterator
fix mi =
    if not (bigger mi).valid
    then mi
    else if not (small mi).valid
    then swap_small mi
    else elim (compare_keys (small mi).key (bigger mi).key) [
      | Ordering.eq ↦
          let moved = record mi { right = next_node mi.right } in
          if mi.small_is_left then moved else swap_small moved
      | Ordering.lt ↦ if mi.reverse then swap_small mi else mi
      | Ordering.gt ↦ if mi.reverse then mi else swap_small mi
    ]

-- setCurrent
abbrev pub set_current : MergeIterator → MergeIterator
set_current mi = record mi { cur_key = (small mi).key }

-- mi.small.next()
pub next_small : MergeIterator → MergeIterator
next_small mi =
    if mi.small_is_left
    then record mi { left = next_node mi.left }
    else record mi { right = next_node mi.right }

-- Next, by the rounds of its loop: `none` is that they ran out.
pub next_rounds : ℕ → MergeIterator → Option MergeIterator
next_rounds zero mi = none
next_rounds (suc rounds) mi =
    let more = next_rounds rounds (fix (next_small mi)) in
    if not (small mi).valid
    then some (set_current mi)
    else if not (equal_bytes (small mi).key mi.cur_key)
    then some (set_current mi)
    else more

-- Rewind and Seek.
pub rewind : MergeIterator → MergeIterator
rewind mi =
    set_current (fix (record mi { left = rewind_node mi.left; right = rewind_node mi.right }))

pub seek_merge : Bytes → MergeIterator → MergeIterator
seek_merge key mi =
    set_current (fix (record mi { left = seek_node key mi.left; right = seek_node key mi.right }))

-- Key and Value, of an iterator that is Valid.
pub current : MergeIterator → Option KeyValue
current mi = elim (small mi).iter [ [] ↦ none | x ∷ xs ↦ some x ]

-- `for it.Valid() { ...; it.Next() }` by the rounds left: what a user of the iterator sees.
pub yield_rounds : ℕ → MergeIterator → Option (List KeyValue)
yield_rounds zero mi = none
yield_rounds (suc rounds) mi = if not (small mi).valid then some [] else elim (current mi) [
  | none ↦ none
  | some x ↦ elim (next_rounds 3 mi) [
    | none ↦ none
    | some mi' ↦ elim (yield_rounds rounds mi') [ none ↦ none | some xs ↦ some (x ∷ xs) ]
  ]
]

abbrev pub new_node : List KeyValue → Node
new_node all = record { valid = false; key = []; iter = []; all = all }

-- NewMergeIterator of two iterators.
abbrev pub new_merge : List KeyValue → List KeyValue → Bool → MergeIterator
new_merge l r reverse = record {
  left = new_node l;
  right = new_node r;
  small_is_left = true;
  cur_key = [];
  reverse = reverse;
}

-- The tree that NewMergeIterator makes of any number of iterators.
pub data MergeTree : Type 0 where
  no_iterator : MergeTree
  one : List KeyValue → MergeTree
  merged : MergeTree → MergeTree → MergeTree

-- NewMergeIterator, by the depth left; `length iters` of it is enough, as each half is shorter.
pub new_merge_iterator : ℕ → List (List KeyValue) → Option MergeTree
new_merge_iterator zero iters = none
new_merge_iterator (suc depth) [] = some no_iterator
new_merge_iterator (suc depth) (a ∷ []) = some (one a)
new_merge_iterator (suc depth) (a ∷ b ∷ []) = some (merged (one a) (one b))
new_merge_iterator (suc depth) (a ∷ b ∷ c ∷ iters) =
    let all = a ∷ b ∷ c ∷ iters in
    let mid = length all / 2 in
    elim (new_merge_iterator depth (take mid all)) [
      | none ↦ none
      | some l ↦ elim (new_merge_iterator depth (drop mid all)) [
        | none ↦ none
        | some r ↦ some (merged l r)
      ]
    ]
