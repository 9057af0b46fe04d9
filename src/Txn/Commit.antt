-- ===== src/Txn/Commit.antt =====
-- txn.go: the commit of a transaction. Its entries get their versions, are marked as one
-- transaction, and go to the write channel in the order of their commit timestamps.
pub mod Stamps
mod Examples
use Prim.Native.Nat.{bit_or}
use pri_zzl_badger.Base.{
  ℕ, suc, ◌+◌, Bool, true, false, ◌&&◌, ◌||◌, Option, none, some, List, [], ◌∷◌, ◌++◌, leb, ◌==◌,
  if◌then◌else◌, length, not,
}
use pri_zzl_badger.Bytes.{Bytes}
use pri_zzl_badger.Bytes.Dict.{BytesMap}
use pri_zzl_badger.Keys.{key_with_ts}
use pri_zzl_badger.Entry.{Entry, set_threshold, estimate_size, bit_txn, bit_fin_txn, new_entry}
use pri_zzl_badger.Oracle.{Oracle, TxnStamp, NewCommit, new_commit_ts, done_commit}
use pri_zzl_badger.Txn.{
  Txn, TxnError, Result, ok, err, DbView, txn_key, conflict, txn_too_big, commit_discarded,
  zero_commit_ts, blocked_writes,
}

-- `for _, e := range txn.pendingWrites`: the order of a Go map is any; here it is the list's.
pub entries_of : BytesMap Entry → List Entry
entries_of [] = []
entries_of ((k, e) ∷ m) = e ∷ entries_of m

-- setVersion
pub set_version : ℕ → Entry → Entry
set_version commit_ts e = if e.version == 0 then record e { version = commit_ts } else e

-- `keepTogether` after the two loops of setVersion: no entry had a version of its own.
pub all_unversioned : List Entry → Bool
all_unversioned [] = true
all_unversioned (e ∷ es) = e.version == 0 && all_unversioned es

-- processEntry
pub process_entry : Bool → Entry → Entry
process_entry together e = record e {
  key = key_with_ts e.key e.version;
  meta = if together then bit_or e.meta bit_txn else e.meta;
}

pub process_entries : Bool → ℕ → List Entry → List Entry
unfolding process_entry set_version
process_entries together commit_ts [] = []
process_entries together commit_ts (e ∷ es) =
    process_entry together (set_version commit_ts e) ∷ process_entries together commit_ts es

-- The entry that ends a transaction; `format_uint` is strconv.FormatUint at base 10.
pub fin_entry : (ℕ → Bytes) → ℕ → Entry
fin_entry format_uint commit_ts =
    record (new_entry (key_with_ts txn_key commit_ts) (format_uint commit_ts)) {
      meta = bit_fin_txn;
    }

-- The entries of commitAndSend: `none` is the failed assertion on the commit timestamp.
pub commit_entries : (ℕ → Bytes) → ℕ → Txn → Option (List Entry)
commit_entries format_uint commit_ts txn =
    let writes = entries_of txn.pending_writes ++ txn.duplicate_writes in
    let processed = process_entries (all_unversioned writes) commit_ts writes in
    if not (all_unversioned writes)
    then some processed
    else if commit_ts == 0
    then none
    else some (processed ++ (fin_entry format_uint commit_ts ∷ []))

-- sendToWriteCh: the limits of a batch, when writes are not blocked.
pub batch_size : ℕ → List Entry → ℕ
batch_size threshold [] = 0
batch_size threshold (e ∷ es) = estimate_size threshold e + batch_size threshold es

with_thresholds : ℕ → List Entry → List Entry
with_thresholds threshold [] = []
with_thresholds threshold (e ∷ es) = set_threshold threshold e ∷ with_thresholds threshold es

pub send_to_write_ch : DbView → Bool → List Entry → Result (List Entry)
unfolding batch_size with_thresholds
send_to_write_ch db blocked entries =
    if blocked
    then err blocked_writes
    else if leb db.max_batch_count (length entries)
        || leb db.max_batch_size (batch_size db.value_threshold entries)
    then err txn_too_big
    else ok (with_thresholds db.value_threshold entries)

pub stamp : Txn → TxnStamp
stamp txn = record {
  read_ts = txn.read_ts;
  commit_ts = txn.commit_ts;
  reads = txn.reads;
  conflict_keys = txn.conflict_keys;
  done_read = txn.done_read;
}

-- What commitAndSend answers, with the oracle that it leaves.
pub record Sent : Type 0 where
  pub answer : Result (List Entry)
  pub commit_ts : ℕ
  pub oracle : Oracle

-- The end of commitAndSend: a refused batch is marked as done at once.
pub send : DbView → Bool → ℕ → Oracle → List Entry → Sent
send db blocked ts o entries = elim (send_to_write_ch db blocked entries) [
  | ok es ↦ record { answer = ok es; commit_ts = ts; oracle = o }
  | err x ↦ record { answer = err x; commit_ts = ts; oracle = done_commit ts o }
]

pub after_new_commit : (ℕ → Bytes) → DbView → Bool → Txn → NewCommit → Option Sent
after_new_commit format_uint db blocked txn r =
    if r.conflict
    then some (record { answer = err conflict; commit_ts = 0; oracle = r.oracle })
    else elim (commit_entries format_uint r.ts txn) [
      | none ↦ none
      | some es ↦ some (send db blocked r.ts r.oracle es)
    ]

-- commitAndSend, under the write-channel lock: `none` is a failed assertion.
pub commit_and_send : (ℕ → Bytes) → DbView → Bool → Oracle → Txn → Option Sent
commit_and_send format_uint db blocked o txn = elim (new_commit_ts o (stamp txn)) [
  | none ↦ none
  | some r ↦ after_new_commit format_uint db blocked txn r
]

-- commitPrecheck, which looks at the pending writes alone.
pub commit_precheck : DbView → Txn → Result (Unit {0})
commit_precheck db txn =
    if txn.discarded
    then err commit_discarded
    else if all_unversioned (entries_of txn.pending_writes) && db.managed_txns && txn.commit_ts == 0
    then err zero_commit_ts
    else ok tt
