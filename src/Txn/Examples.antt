-- ===== src/Txn/Examples.antt =====
-- A transaction with one write.
use pri_zzl_badger.Base.{
  ℕ, ◌↔◌, ◌++◌, ◌≡◌, ◌≢◌, refl, true, false, Option, none, [], ◌∷◌, arith, get_or, ap, length,
}
use pri_zzl_badger.Base.Int.{negsuc}
use pri_zzl_badger.Bytes.{Bytes}
use pri_zzl_badger.Bytes.Dict.{lookup, insert}
use pri_zzl_badger.Entry.{Entry, ValueStruct, new_entry, set_threshold}
use pri_zzl_badger.Txn.{
  DbView, Txn, ok, err, badger_prefix, invalid_key, new_transaction, modify, get, pending_item,
  is_banned, check_entry, check_size, buffer,
}
use pri_zzl_badger.Txn.Reads.{Accepted, Admissible, modify_iff, get-modify_self}

abbrev db : DbView
db = record {
  value_threshold = 1000;
  max_batch_count = 100;
  max_batch_size = 100000;
  value_log_file_size = 1000000;
  in_memory = false;
  detect_conflicts = true;
  managed_txns = false;
  read_only = false;
  namespace_offset = negsuc 0;
  banned_namespaces = [];
}

abbrev key : Bytes
key = 97 ∷ []

abbrev other : Bytes
other = 98 ∷ []

abbrev write : Entry
write = new_entry key (1 ∷ 2 ∷ [])

abbrev hash_of : Bytes → ℕ
hash_of bs = length bs

abbrev no_tables : Bytes → Option ValueStruct
no_tables k = none

abbrev open_txn : Txn
open_txn = record {
  read_ts = 5;
  commit_ts = 0;
  size = 21;
  count = 1;
  reads = [];
  conflict_keys = [];
  pending_writes = [];
  duplicate_writes = [];
  num_iterators = 0;
  discarded = false;
  done_read = false;
  update = true;
}

abbrev written : Txn
written = record open_txn {
  size = 36;
  count = 2;
  conflict_keys = 1 ∷ [];
  pending_writes = (key, record write { val_threshold = 1000 }) ∷ [];
}

opened : new_transaction db true 5 ≡ open_txn
unfolding new_transaction
opened = refl

accepted : modify hash_of db write open_txn ≡ ok written
unfolding modify check_entry pri_zzl_badger.Bytes.has_prefix is_banned check_size
    pri_zzl_badger.Entry.estimate_size buffer insert lookup
accepted = refl

modify_iff_example :
    (((t : Txn) × (modify hash_of db write open_txn ≡ ok t)) ↔ Admissible db write open_txn)
    × ((t : Txn) → modify hash_of db write open_txn ≡ ok t → Accepted hash_of db write open_txn t)
modify_iff_example = modify_iff hash_of db write open_txn

-- A key with the reserved prefix is refused.
reserved_key : modify hash_of db (new_entry (badger_prefix ++ key) []) open_txn ≡ err invalid_key
unfolding modify check_entry pri_zzl_badger.Bytes.has_prefix
reserved_key = refl

get-modify_self_example :
    get hash_of db no_tables 1000 key written
    ≡ (written, pending_item 1000 5 key (set_threshold 1000 write))
get-modify_self_example = get-modify_self hash_of db no_tables 1000 write open_txn written accepted

keys_differ : other ≢ key
keys_differ e = omega (arith, ap (λ x. get_or x 0 0) e)

other_unbanned : is_banned db other ≡ false
unfolding is_banned
other_unbanned = refl

other_unwritten : lookup other written.pending_writes ≡ none
unfolding lookup pri_zzl_badger.Bytes.equal_bytes
other_unwritten = refl
