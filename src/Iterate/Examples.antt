-- ===== src/Iterate/Examples.antt =====
-- An iterator over three versions of one key and one of another.
use pri_zzl_badger.Base.{ℕ, suc, ◌≡◌, refl, true, false, none, some, List, [], ◌∷◌, length}
use pri_zzl_badger.Base.Int.{negsuc}
use pri_zzl_badger.Bytes.{Bytes}
use pri_zzl_badger.Keys.{key_with_ts}
use pri_zzl_badger.Iter.{KeyValue}
use pri_zzl_badger.Txn.{DbView, new_transaction}
use pri_zzl_badger.Iterate.{Options, Iterator, fill, seek_iterator, iterate, start}
use pri_zzl_badger.Iterate.Queue.{forward}
use pri_zzl_badger.Iterate.Walk.{iterate-forward}

abbrev db : DbView
db = record {
  value_threshold = 1000;
  max_batch_count = 100;
  max_batch_size = 100000;
  value_log_file_size = 1000000;
  in_memory = false;
  detect_conflicts = true;
  managed_txns = false;
  read_only = false;
  namespace_offset = negsuc 0;
  banned_namespaces = [];
}

abbrev hash_of : Bytes → ℕ
hash_of bs = length bs

abbrev options : Options
options = record {
  prefetch_size = 100;
  prefetch_values = true;
  reverse = false;
  all_versions = false;
  internal_access = false;
  prefix_is_key = false;
  prefix = [];
  since_ts = 0;
}

abbrev pair : ℕ → ℕ → ℕ → KeyValue
pair b ts meta = record {
  key = key_with_ts (b ∷ []) ts;
  value = record { meta = meta; user_meta = 0; expires_at = 0; value = b ∷ []; version = 0 };
}

-- The key 1 was written at 2, deleted at 4 and written again at 8.
abbrev pairs : List KeyValue
pairs = pair 1 8 0 ∷ pair 1 4 1 ∷ pair 1 2 0 ∷ pair 2 3 0 ∷ []

abbrev iterator : Iterator
iterator = record {
  iitr = [];
  all = pairs;
  txn = new_transaction db true 5;
  item = none;
  data_items = [];
  last_key = [];
}

-- At 5 the key 1 is deleted.
sees_the_other : forward db options 5 1000 [] pairs ≡ fill (pair 2 3 0) ∷ []
unfolding forward pri_zzl_badger.Bytes.has_prefix pri_zzl_badger.Iterate.is_hidden key_with_ts
    pri_zzl_badger.Keys.parse_ts pri_zzl_badger.Bytes.be_bytes pri_zzl_badger.Bytes.be_value
    pri_zzl_badger.Keys.ts_bytes pri_zzl_badger.Keys.parse_key pri_zzl_badger.Txn.is_banned fill
    pri_zzl_badger.Keys.same_key pri_zzl_badger.Entry.is_deleted_or_expired
    pri_zzl_badger.Bytes.equal_bytes
sees_the_other = refl

sees_both : forward db options 9 1000 [] pairs ≡ fill (pair 1 8 0) ∷ fill (pair 2 3 0) ∷ []
unfolding forward pri_zzl_badger.Bytes.has_prefix pri_zzl_badger.Iterate.is_hidden key_with_ts
    pri_zzl_badger.Keys.parse_ts pri_zzl_badger.Bytes.be_bytes pri_zzl_badger.Bytes.be_value
    pri_zzl_badger.Keys.ts_bytes pri_zzl_badger.Keys.parse_key pri_zzl_badger.Txn.is_banned fill
    pri_zzl_badger.Keys.same_key pri_zzl_badger.Entry.is_deleted_or_expired
    pri_zzl_badger.Bytes.equal_bytes
sees_both = refl

-- In reverse, the newest version of a key that may be read is taken.
back_to_the_newest :
    elim (seek_iterator db
      (record options { reverse = true })
      9
      1000
      hash_of
      []
      (record iterator { all = pair 2 3 0 ∷ pair 1 2 0 ∷ pair 1 4 1 ∷ pair 1 8 0 ∷ [] })) [
        | none ↦ none
        | some it ↦ iterate db (record options { reverse = true }) 9 1000 hash_of 4 it
      ]
    ≡ some (fill (pair 2 3 0) ∷ fill (pair 1 8 0) ∷ [])
unfolding seek_iterator iterate pri_zzl_badger.Bytes.has_prefix pri_zzl_badger.Iterate.is_hidden
    key_with_ts pri_zzl_badger.Keys.parse_ts pri_zzl_badger.Bytes.be_bytes
    pri_zzl_badger.Bytes.be_value pri_zzl_badger.Keys.ts_bytes pri_zzl_badger.Keys.parse_key
    pri_zzl_badger.Txn.is_banned fill pri_zzl_badger.Iterate.prefetch pri_zzl_badger.Iterate.fetch
    pri_zzl_badger.Iterate.next pri_zzl_badger.Iterate.is_over pri_zzl_badger.Iterate.parse_pairs
    pri_zzl_badger.Iterate.fill_from pri_zzl_badger.Entry.is_deleted_or_expired
    pri_zzl_badger.Bytes.equal_bytes pri_zzl_badger.Iterate.is_valid
    pri_zzl_badger.Iterate.take_item
back_to_the_newest = refl

iterate-forward_example :
    (it' : Iterator) × (seek_iterator db options 5 1000 hash_of (2 ∷ []) iterator ≡ some it')
    × (iterate db options 5 1000 hash_of
          (suc (length (forward db options 5 1000 [] (start db options 5 1000 (2 ∷ []) pairs))))
          it'
        ≡ some (forward db options 5 1000 [] (start db options 5 1000 (2 ∷ []) pairs)))
iterate-forward_example = iterate-forward db options 5 1000 hash_of refl refl iterator (2 ∷ []) refl
