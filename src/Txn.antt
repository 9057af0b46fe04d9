-- ===== src/Txn.antt =====
-- txn.go: a transaction's buffered writes, its reads and its commit. The database enters through
-- its options, the hash of keys and the lookup in the tables, which are arguments.
pub mod Reads
pub mod Commit
mod Examples
use Prim.Native.Nat.{bit_or}
use pri_zzl_badger.Base.{
  ℕ, suc, ◌+◌, ◌-◌, ◌≡◌, Bool, true, false, ◌&&◌, ◌||◌, Option, none, some, List, [], ◌∷◌, ◌++◌,
  ltb, leb, ◌==◌, if◌then◌else◌, length, elem, drop, take, not,
}
use pri_zzl_badger.Base.Int.{ℤ, pos, negsuc}
use pri_zzl_badger.Bytes.{Bytes, has_prefix, equal_bytes, be_value}
use pri_zzl_badger.Bytes.Dict.{BytesMap, lookup, insert}
use pri_zzl_badger.Keys.{key_with_ts}
use pri_zzl_badger.Entry.{
  Entry, ValueStruct, set_threshold, estimate_size, is_deleted_or_expired, bit_delete, bit_txn,
  bit_fin_txn, new_entry,
}

-- The errors of errors.go that a transaction returns. `too_long` is exceedsSize; the panics are
-- `panics`.
pub data TxnError : Type 0 where
  read_only_txn discarded_txn empty_key invalid_key too_long banned_key txn_too_big : TxnError
  conflict key_not_found commit_discarded zero_commit_ts blocked_writes panics : TxnError

pub data Result {ℓ} (A : Type ℓ) : Type ℓ where
  ok : A → Result A
  err : TxnError → Result A

-- "!badger!" and "!badger!txn".
abbrev pub badger_prefix : Bytes
badger_prefix = 33 ∷ 98 ∷ 97 ∷ 100 ∷ 103 ∷ 101 ∷ 114 ∷ 33 ∷ []

abbrev pub txn_key : Bytes
txn_key = 33 ∷ 98 ∷ 97 ∷ 100 ∷ 103 ∷ 101 ∷ 114 ∷ 33 ∷ 116 ∷ 120 ∷ 110 ∷ []

-- The options and the state of the database that a transaction reads.
pub record DbView : Type 0 where
  pub value_threshold : ℕ
  pub max_batch_count : ℕ
  pub max_batch_size : ℕ
  pub value_log_file_size : ℕ
  pub in_memory : Bool
  pub detect_conflicts : Bool
  pub managed_txns : Bool
  pub read_only : Bool
  pub namespace_offset : ℤ
  pub banned_namespaces : List ℕ

pub record Txn : Type 0 where
  pub read_ts : ℕ
  pub commit_ts : ℕ
  pub size : ℕ
  pub count : ℕ
  pub reads : List ℕ
  pub conflict_keys : List ℕ
  pub pending_writes : BytesMap Entry
  pub duplicate_writes : List Entry
  pub num_iterators : ℕ
  pub discarded : Bool
  pub done_read : Bool
  pub update : Bool

-- newTransaction; `read_ts` is the oracle's answer, or the caller's in a managed database.
pub new_transaction : DbView → Bool → ℕ → Txn
new_transaction db update read_ts = record {
  read_ts = read_ts;
  commit_ts = 0;
  size = length txn_key + 10;
  count = 1;
  reads = [];
  conflict_keys = [];
  pending_writes = [];
  duplicate_writes = [];
  num_iterators = 0;
  discarded = false;
  done_read = false;
  update = update && not db.read_only;
}

-- isBanned of db.go: the eight bytes at the namespace's offset.
unfoldable pub banned_at : ℕ → List ℕ → Bytes → Bool
banned_at offset banned key =
    if leb (length key) (offset + 8)
    then false
    else elem (be_value 0 (take 8 (drop offset key))) banned

unfoldable pub is_banned : DbView → Bytes → Bool
unfolding banned_at
is_banned db key = elim db.namespace_offset [
  | negsuc n ↦ false
  | pos offset ↦ banned_at offset db.banned_namespaces key
]

-- checkSize, with the entry's threshold set.
pub check_size : DbView → Entry → Txn → Result Txn
check_size db e txn =
    let count = suc txn.count in
    let size = txn.size + estimate_size db.value_threshold e + 10 in
    if leb db.max_batch_count count || leb db.max_batch_size size
    then err txn_too_big
    else ok (record txn { count = count; size = size })

-- The tests of modify, in their order, up to isBanned.
pub check_entry : DbView → Entry → Txn → Result (Unit {0})
check_entry db e txn =
    if not txn.update
    then err read_only_txn
    else if txn.discarded
    then err discarded_txn
    else if length e.key == 0
    then err empty_key
    else if has_prefix e.key badger_prefix
    then err invalid_key
    else if ltb 65000 (length e.key)
    then err too_long
    else if ltb db.value_log_file_size (length e.value)
    then err too_long
    else if db.in_memory && ltb db.value_threshold (length e.value)
    then err too_long
    else if is_banned db e.key
    then err banned_key
    else ok tt

-- The pending write of the same key and another version moves to the duplicates.
unfoldable pub keep_old : Option Entry → Entry → List Entry → List Entry
keep_old none e dups = dups
keep_old (some old) e dups = if old.version == e.version then dups else dups ++ (old ∷ [])

module _ (mem_hash : Bytes → ℕ) (db : DbView) where
  -- What modify writes once all tests have passed.
  pub buffer : Entry → Txn → Txn
  unfolding keep_old
  buffer e txn = record txn {
    conflict_keys =
        if db.detect_conflicts then mem_hash e.key ∷ txn.conflict_keys else txn.conflict_keys;
    duplicate_writes = keep_old (lookup e.key txn.pending_writes) e txn.duplicate_writes;
    pending_writes = insert e.key (set_threshold db.value_threshold e) txn.pending_writes;
  }

  -- modify: an error leaves the transaction as it was.
  pub modify : Entry → Txn → Result Txn
  modify e txn = elim (check_entry db e txn) [
    | err x ↦ err x
    | ok _ ↦ elim (check_size db e txn) [ err x ↦ err x | ok sized ↦ ok (buffer e sized) ]
  ]

  -- SetEntry; Set builds the entry, and records the write in the heat map, which this does not
  -- model.
  pub set_entry : Entry → Txn → Result Txn
  set_entry e txn = modify e txn

  pub set : Bytes → Bytes → Txn → Result Txn
  set key val txn = set_entry (new_entry key val) txn

  -- Delete
  pub delete : Bytes → Txn → Result Txn
  delete key txn = modify (record (new_entry key []) { meta = bit_delete }) txn

-- addReadKey
pub add_read_key : (Bytes → ℕ) → Bytes → Txn → Txn
add_read_key mem_hash key txn =
    if txn.update then record txn { reads = txn.reads ++ (mem_hash key ∷ []) } else txn

-- The parts of an Item that Get fills.
pub record Item : Type 0 where
  pub key : Bytes
  pub version : ℕ
  pub meta : ℕ
  pub user_meta : ℕ
  pub val : Bytes
  pub expires_at : ℕ

-- From the transaction's own writes.
pub pending_item : ℕ → ℕ → Bytes → Entry → Result Item
pending_item now read_ts key e =
    if is_deleted_or_expired now e.meta e.expires_at
    then err key_not_found
    else ok (record {
      key = key;
      version = read_ts;
      meta = e.meta;
      user_meta = e.user_meta;
      val = e.value;
      expires_at = e.expires_at;
    })

-- From the tables. A value that is nil is `none`.
pub stored_item : ℕ → Bytes → Option ValueStruct → Result Item
stored_item now key none = err key_not_found
stored_item now key (some vs) =
    if is_deleted_or_expired now vs.meta vs.expires_at
    then err key_not_found
    else ok (record {
      key = key;
      version = vs.version;
      meta = vs.meta;
      user_meta = vs.user_meta;
      val = vs.value;
      expires_at = vs.expires_at;
    })

-- `e, has := txn.pendingWrites[string(key)]; has && bytes.Equal(key, e.Key)`, of a transaction that
-- may write.
pub pending_entry : Bytes → Txn → Option Entry
pending_entry key txn =
    let found : Option Entry = elim (lookup key txn.pending_writes) [
      | none ↦ none
      | some e ↦ if equal_bytes key e.key then some e else none
    ] in
    if txn.update then found else none

-- Get: `db_get` is the lookup in the tables, `none` for a value that is nil with no metadata.
pub get : (Bytes → ℕ) → DbView → (Bytes → Option ValueStruct) → ℕ → Bytes → Txn → Txn × Result Item
get mem_hash db db_get now key txn =
    if length key == 0
    then (txn, err empty_key)
    else if txn.discarded
    then (txn, err discarded_txn)
    else if is_banned db key
    then (txn, err banned_key)
    else elim (pending_entry key txn) [
      | some e ↦ (txn, pending_item now txn.read_ts key e)
      | none ↦ (
        add_read_key mem_hash key txn,
        stored_item now key (db_get (key_with_ts key txn.read_ts)),
      )
    ]

-- Discard, but for the oracle's doneRead: a transaction with an open iterator panics.
pub discard : Txn → Result Txn
discard txn =
    if txn.discarded
    then ok txn
    else if ltb 0 txn.num_iterators
    then err panics
    else ok (record txn { discarded = true })
