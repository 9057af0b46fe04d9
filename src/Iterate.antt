-- ===== src/Iterate.antt =====
-- iterator.go: the iterator that a transaction hands out, over the pairs of all sources merged.
-- The list `waste`, which reuses items, and `scanned`, an estimate, are left out, and so is the
-- prefetched value of an item, which the value log gives.
pub mod Queue
pub mod Walk
pub mod Visible
mod Examples
use pri_zzl_badger.Base.{
  ℕ, zero, suc, ◌+◌, ◌-◌, Bool, true, false, not, ◌&&◌, ◌||◌, Option, none, some, List, [], ◌∷◌,
  ◌++◌, ltb, leb, ◌==◌, if◌then◌else◌, length,
}
use pri_zzl_badger.Bytes.{Bytes, has_prefix, equal_bytes}
use pri_zzl_badger.Keys.{compare_keys, key_with_ts, parse_key, parse_ts, same_key}
use pri_zzl_badger.Entry.{is_deleted_or_expired}
use pri_zzl_badger.Compaction.{is_lt}
use pri_zzl_badger.Iter.{KeyValue, seek}
use pri_zzl_badger.Txn.{DbView, Txn, badger_prefix, is_banned, add_read_key}

pub record Item : Type 0 where
  pub key : Bytes
  pub vptr : Bytes
  pub version : ℕ
  pub expires_at : ℕ
  pub meta : ℕ
  pub user_meta : ℕ

-- IteratorOptions
pub record Options : Type 0 where
  pub prefetch_size : ℕ
  pub prefetch_values : Bool
  pub reverse : Bool
  pub all_versions : Bool
  pub internal_access : Bool
  pub prefix_is_key : Bool
  pub prefix : Bytes
  pub since_ts : ℕ

-- Iterator: `iitr` is what the merged iterator has left of `all`, in its direction.
pub record Iterator : Type 0 where
  pub iitr : List KeyValue
  pub all : List KeyValue
  pub txn : Txn
  pub item : Option Item
  pub data_items : List Item
  pub last_key : Bytes

-- What parseItem leaves: the last key, the pairs before iitr, and the item that it found.
pub record Parsed : Type 0 where
  pub last : Bytes
  pub rest : List KeyValue
  pub found : Option Item

-- fill
pub fill : KeyValue → Item
fill x = record {
  key = parse_key x.key;
  vptr = x.value.value;
  version = parse_ts x.key;
  expires_at = x.value.expires_at;
  meta = x.value.meta;
  user_meta = x.value.user_meta;
}

-- setItem, in parseItem.
abbrev pub set_item : Iterator → Item → Iterator
set_item it i = elim it.item [
  | none ↦ record it { item = some i }
  | some j ↦ record it { data_items = it.data_items ++ (i ∷ []) }
]

-- it.item = it.data.pop()
abbrev pub pop_item : Iterator → Iterator
pop_item it = elim it.data_items [
  | [] ↦ record it { item = none }
  | i ∷ is ↦ record it { item = some i; data_items = is }
]

-- The merged iterator's Seek in reverse: from the first key that is not after the given one.
abbrev seek_back : Bytes → List KeyValue → List KeyValue
seek_back key [] = []
seek_back key (x ∷ xs) =
    let rest = seek_back key xs in if is_lt (compare_keys key x.key) then rest else x ∷ xs

module _ (db : DbView) (opt : Options) (read_ts now : ℕ) where
  abbrev pub is_gone : KeyValue → Bool
  is_gone x = is_deleted_or_expired now x.value.meta x.value.expires_at

  -- The first three tests of parseItem.
  pub is_hidden : KeyValue → Bool
  is_hidden x =
      (not opt.internal_access && has_prefix x.key badger_prefix)
      || (ltb read_ts (parse_ts x.key) || (ltb 0 opt.since_ts && leb (parse_ts x.key) opt.since_ts))
      || (not (has_prefix x.key badger_prefix) && is_banned db x.key)

  -- From FILL on: in reverse, a newer version of the key that may be read takes the place of the
  -- item.
  pub fill_from : Bytes → List KeyValue → Parsed
  fill_from last [] = record { last = last; rest = []; found = none }
  fill_from last (x ∷ xs) =
      let more = fill_from last xs in
      let one : Parsed = record { last = last; rest = xs; found = some (fill x) } in
      if is_gone x
      then record { last = last; rest = xs; found = none }
      else if not opt.reverse
      then one
      else elim xs [
        | [] ↦ one
        | y ∷ ys ↦
            if leb (parse_ts y.key) read_ts && equal_bytes (parse_key y.key) (parse_key x.key)
            then more
            else one
      ]

  -- parseItem, but for setItem; it is called with a pair at hand.
  pub parse_pairs : Bytes → List KeyValue → Parsed
  parse_pairs last [] = record { last = last; rest = []; found = none }
  parse_pairs last (x ∷ xs) =
      let skipped : Parsed = record { last = last; rest = xs; found = none } in
      if is_hidden x
      then skipped
      else if opt.all_versions
      then record { last = last; rest = xs; found = some (fill x) }
      else if opt.reverse
      then fill_from last (x ∷ xs)
      else if same_key last x.key
      then skipped
      else fill_from x.key (x ∷ xs)

  abbrev pub parsed : Iterator → Parsed → Iterator
  parsed it p =
      let moved = record it { last_key = p.last; iitr = p.rest } in
      elim p.found [ none ↦ moved | some i ↦ set_item moved i ]

  -- parseItem
  abbrev pub parse_item : Iterator → Iterator
  parse_item it = parsed it (parse_pairs it.last_key it.iitr)

  -- !(iitr.Valid() && hasPrefix(it))
  pub is_over : List KeyValue → Bool
  is_over [] = true
  is_over (x ∷ xs) =
      not opt.reverse && ltb 0 (length opt.prefix) && not (has_prefix (parse_key x.key) opt.prefix)

  -- The loop of prefetch for `left` more items, and with one that of Next, by the rounds left:
  -- `none` is that they ran out.
  pub fetch : ℕ → ℕ → Iterator → Option Iterator
  fetch zero left it = none
  fetch (suc rounds) left it =
      let it' = parse_item it in
      let again = fetch rounds left it' in
      let fewer = fetch rounds (left - 1) it' in
      if is_over it.iitr then some it else elim (parse_pairs it.last_key it.iitr).found [
        | none ↦ again
        | some i ↦ if left == 1 then some it' else fewer
      ]

  abbrev pub prefetch_count : ℕ
  prefetch_count = if opt.prefetch_values && ltb 1 opt.prefetch_size then opt.prefetch_size else 2

  -- Every round takes a pair.
  pub prefetch : Iterator → Option Iterator
  prefetch it = fetch (suc (length it.iitr)) prefetch_count (record it { item = none })

  -- Next; `none` is also that no item is there, where the code fails on the nil pointer.
  pub next : Iterator → Option Iterator
  next it = elim it.item [ none ↦ none | some i ↦ fetch (suc (length it.iitr)) 1 (pop_item it) ]

  abbrev pub start_key : Bytes → Bytes
  start_key key = if length key == 0 then opt.prefix else key

  abbrev pub start : Bytes → List KeyValue → List KeyValue
  start key all =
      if length (start_key key) == 0
      then all
      else if opt.reverse
      then seek_back (key_with_ts (start_key key) 0) all
      else seek (key_with_ts (start_key key) read_ts) all

  -- Valid
  pub is_valid : Iterator → Bool
  is_valid it = elim it.item [
    | none ↦ false
    | some i ↦
        if opt.prefix_is_key then equal_bytes i.key opt.prefix else has_prefix i.key opt.prefix
  ]

  module _ (mem_hash : Bytes → ℕ) where
    -- Seek, and Rewind with the empty key.
    pub seek_iterator : Bytes → Iterator → Option Iterator
    seek_iterator key it = prefetch (record it {
      txn = if ltb 0 (length key) then add_read_key mem_hash key it.txn else it.txn;
      data_items = [];
      last_key = [];
      iitr = start key it.all;
    })

    -- Item, of an iterator that is Valid: the key is read by the transaction.
    pub take_item : Iterator → Iterator
    take_item it = elim it.item [
      | none ↦ it
      | some i ↦ record it { txn = add_read_key mem_hash i.key it.txn }
    ]

    -- `for it.Valid() { it.Item(); it.Next() }` by the rounds left: what a user of it sees.
    pub iterate : ℕ → Iterator → Option (List Item)
    iterate zero it = none
    iterate (suc rounds) it = if not (is_valid it) then some [] else elim it.item [
      | none ↦ none
      | some i ↦ elim (next (take_item it)) [
        | none ↦ none
        | some it' ↦ elim (iterate rounds it') [ none ↦ none | some is ↦ some (i ∷ is) ]
      ]
    ]
