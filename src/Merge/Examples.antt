-- ===== src/Merge/Examples.antt =====
-- Merges of two and of three small iterators.
use pri_zzl_badger.Base.{ℕ, suc, ◌≡◌, refl, false, some, List, [], ◌∷◌, length}
use pri_zzl_badger.Bytes.{Bytes}
use pri_zzl_badger.Keys.{key_with_ts}
use pri_zzl_badger.Iter.{KeyValue, seek}
use pri_zzl_badger.Iter.Order.{InKeyOrder}
use pri_zzl_badger.Merge.{
  MergeIterator, MergeTree, one, merged, new_merge, rewind, seek_merge, yield_rounds,
  new_merge_iterator,
}
use pri_zzl_badger.Merge.Union.{union}
use pri_zzl_badger.Merge.Yield.{yield_rounds-rewind}
use pri_zzl_badger.Merge.Seek.{yield_rounds-seek}
use pri_zzl_badger.Merge.Tree.{new_merge_iterator-IsMerge, IsMerge}

abbrev pair : ℕ → ℕ → ℕ → KeyValue
pair b ts v = record {
  key = key_with_ts (b ∷ []) ts;
  value = record { meta = 0; user_meta = 0; expires_at = 0; value = v ∷ []; version = 0 };
}

abbrev newer_table : List KeyValue
newer_table = pair 1 8 70 ∷ pair 2 4 71 ∷ []

-- The key 2 at 4 is in both tables.
abbrev older_table : List KeyValue
older_table = pair 1 2 80 ∷ pair 2 4 81 ∷ pair 3 1 82 ∷ []

abbrev third_table : List KeyValue
third_table = pair 1 5 90 ∷ pair 3 1 91 ∷ []

abbrev both : MergeIterator
both = new_merge newer_table older_table false

yields_both :
    yield_rounds 5 (rewind both) ≡ some (pair 1 8 70 ∷ pair 1 2 80 ∷ pair 2 4 71 ∷ pair 3 1 82 ∷ [])
unfolding yield_rounds rewind pri_zzl_badger.Merge.fix pri_zzl_badger.Merge.rewind_node
    pri_zzl_badger.Merge.set_key pri_zzl_badger.Keys.compare_keys pri_zzl_badger.Bytes.compare_bytes
    key_with_ts pri_zzl_badger.Bytes.be_bytes pri_zzl_badger.Merge.current
    pri_zzl_badger.Merge.next_rounds pri_zzl_badger.Bytes.equal_bytes
    pri_zzl_badger.Merge.next_small pri_zzl_badger.Merge.next_node
yields_both = refl

tree_of_three :
    new_merge_iterator 4 (newer_table ∷ older_table ∷ third_table ∷ [])
    ≡ some (merged (one newer_table) (merged (one older_table) (one third_table)))
unfolding new_merge_iterator
tree_of_three = refl

newer_table-InKeyOrder : InKeyOrder newer_table
unfolding key_with_ts pri_zzl_badger.Keys.compare_keys pri_zzl_badger.Bytes.compare_bytes
    pri_zzl_badger.Bytes.be_bytes
newer_table-InKeyOrder = ((refl, tt), (tt, tt))

older_table-InKeyOrder : InKeyOrder older_table
unfolding key_with_ts pri_zzl_badger.Keys.compare_keys pri_zzl_badger.Bytes.compare_bytes
    pri_zzl_badger.Bytes.be_bytes
older_table-InKeyOrder = ((refl, (refl, tt)), ((refl, tt), (tt, tt)))

third_table-InKeyOrder : InKeyOrder third_table
unfolding key_with_ts pri_zzl_badger.Keys.compare_keys pri_zzl_badger.Bytes.compare_bytes
    pri_zzl_badger.Bytes.be_bytes
third_table-InKeyOrder = ((refl, tt), (tt, tt))

yield_rounds-rewind_example :
    (yield_rounds (suc (length (union newer_table older_table))) (rewind both)
      ≡ some (union newer_table older_table))
    × InKeyOrder (union newer_table older_table)
yield_rounds-rewind_example =
    yield_rounds-rewind both refl newer_table-InKeyOrder older_table-InKeyOrder

yield_rounds-seek_example :
    yield_rounds
      (suc (length (seek (key_with_ts (2 ∷ []) 9) (union newer_table older_table))))
      (seek_merge (key_with_ts (2 ∷ []) 9) both)
    ≡ some (seek (key_with_ts (2 ∷ []) 9) (union newer_table older_table))
yield_rounds-seek_example =
    yield_rounds-seek both (key_with_ts (2 ∷ []) 9) refl newer_table-InKeyOrder
      older_table-InKeyOrder

new_merge_iterator-IsMerge_example :
    IsMerge
      (newer_table ∷ older_table ∷ third_table ∷ [])
      (new_merge_iterator 4 (newer_table ∷ older_table ∷ third_table ∷ []))
new_merge_iterator-IsMerge_example =
    new_merge_iterator-IsMerge (newer_table ∷ older_table ∷ third_table ∷ [])
      (newer_table-InKeyOrder, (older_table-InKeyOrder, (third_table-InKeyOrder, tt)))
