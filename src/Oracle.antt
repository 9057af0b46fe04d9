-- ===== src/Oracle.antt =====
-- txn.go, the oracle: timestamps, conflict detection and the list of recent commits. Each
-- operation runs under the oracle's lock and is one function on its state; the watermarks receive
-- their marks on their channels and work them off later (Watermark).
pub mod Conflicts
pub mod Commits
pub mod Ordered
pub mod History
pub mod Runs
mod Examples
use pri_zzl_badger.Base.{
  ℕ, suc, ◌+◌, ◌-◌, ◌%◌, ◌^◌, Bool, true, false, ◌||◌, Option, none, some, List, [], ◌∷◌, ◌++◌, ltb,
  leb, ◌==◌, if◌then◌else◌, elem, keep_if, not,
}
use pri_zzl_badger.Watermark
use pri_zzl_badger.Watermark.{WaterMark, Chan, begin, done, wait_for_mark}

pub record CommittedTxn : Type 0 where
  pub ts : ℕ
  pub conflict_keys : List ℕ

pub record Oracle : Type 0 where
  pub is_managed : Bool
  pub detect_conflicts : Bool
  pub next_txn_ts : ℕ
  pub txn_mark : WaterMark
  pub discard_ts : ℕ
  pub read_mark : WaterMark
  pub committed_txns : List CommittedTxn
  pub last_cleanup_ts : ℕ

-- The fields of a transaction that the oracle reads and writes.
pub record TxnStamp : Type 0 where
  pub read_ts : ℕ
  pub commit_ts : ℕ
  pub reads : List ℕ
  pub conflict_keys : List ℕ
  pub done_read : Bool

-- newOracle
pub new_oracle : Bool → Bool → Oracle
new_oracle managed_txns detect_conflicts = record {
  is_managed = managed_txns;
  detect_conflicts = detect_conflicts;
  next_txn_ts = 0;
  txn_mark = Watermark.init;
  discard_ts = 0;
  read_mark = Watermark.init;
  committed_txns = [];
  last_cleanup_ts = 0;
}

-- Open of db.go: the counter and the watermarks start from the highest version of the tables.
pub opened_oracle : Bool → Bool → ℕ → Oracle
opened_oracle managed_txns detect_conflicts max_version =
    let o = new_oracle managed_txns detect_conflicts in
    record o {
      next_txn_ts = (max_version + 1) % 2 ^ 64;
      txn_mark = done max_version o.txn_mark;
      read_mark = done max_version o.read_mark;
    }

-- readTs up to the wait: the timestamp, and whether the caller may go on at once. A managed
-- database panics.
pub read_ts : Chan → Oracle → Option (ℕ × Bool × Oracle)
read_ts ch o =
    if o.is_managed
    then none
    else (let ts = (o.next_txn_ts + 2 ^ 64 - 1) % 2 ^ 64 in
        let (mark, ready) = wait_for_mark ts ch o.txn_mark in
        some (ts, ready, record o { read_mark = begin ts o.read_mark; txn_mark = mark }))

-- incrementNextTs
pub increment_next_ts : Oracle → Oracle
increment_next_ts o = record o { next_txn_ts = (o.next_txn_ts + 1) % 2 ^ 64 }

-- discardAtOrBelow
pub discard_at_or_below : Oracle → ℕ
discard_at_or_below o = if o.is_managed then o.discard_ts else o.read_mark.done_until

-- `_, has := committedTxn.conflictKeys[ro]` for some `ro` of the reads.
pub any_read : List ℕ → List ℕ → Bool
any_read [] keys = false
any_read (ro ∷ reads) keys = elem ro keys || any_read reads keys

-- The loop of hasConflict.
pub conflict_in : List CommittedTxn → TxnStamp → Bool
conflict_in [] txn = false
conflict_in (c ∷ cs) txn =
    let rest = conflict_in cs txn in
    if leb c.ts txn.read_ts then rest else if any_read txn.reads c.conflict_keys then true else rest

is_nil : List ℕ → Bool
is_nil [] = true
is_nil (x ∷ xs) = false

-- hasConflict
pub has_conflict : Oracle → TxnStamp → Bool
unfolding is_nil
has_conflict o txn = if is_nil txn.reads then false else conflict_in o.committed_txns txn

-- cleanupCommittedTransactions: `none` is its failed assertion.
pub cleanup_committed : Oracle → Option Oracle
unfolding discard_at_or_below
cleanup_committed o =
    let max_read_ts = discard_at_or_below o in
    if not o.detect_conflicts
    then some o
    else if ltb max_read_ts o.last_cleanup_ts
    then none
    else if max_read_ts == o.last_cleanup_ts
    then some o
    else some (record o {
      last_cleanup_ts = max_read_ts;
      committed_txns = keep_if (λ c. not (leb c.ts max_read_ts)) o.committed_txns;
    })

-- setDiscardTs
pub set_discard_ts : ℕ → Oracle → Option Oracle
set_discard_ts ts o = cleanup_committed (record o { discard_ts = ts })

-- doneRead
pub done_read : Oracle → TxnStamp → Oracle × TxnStamp
done_read o txn =
    if txn.done_read
    then (o, txn)
    else (record o { read_mark = done txn.read_ts o.read_mark }, record txn { done_read = true })

-- doneCommit
pub done_commit : ℕ → Oracle → Oracle
done_commit cts o = if o.is_managed then o else record o { txn_mark = done cts o.txn_mark }

-- What newCommitTs answers, with the state it leaves.
pub record NewCommit : Type 0 where
  pub ts : ℕ
  pub conflict : Bool
  pub oracle : Oracle
  pub txn : TxnStamp

-- The first half of newCommitTs: the commit timestamp. `next_ts` takes it from the counter.
pub next_ts : TxnStamp → Oracle → NewCommit
next_ts txn o = record {
  ts = o.next_txn_ts;
  conflict = false;
  oracle = record o {
    next_txn_ts = (o.next_txn_ts + 1) % 2 ^ 64;
    txn_mark = begin o.next_txn_ts o.txn_mark;
  };
  txn = txn;
}

-- What follows doneRead where the database is not managed.
pub assign_next : Oracle → TxnStamp → Option NewCommit
assign_next o txn = elim (cleanup_committed o) [ none ↦ none | some c ↦ some (next_ts txn c) ]

pub assign_ts : Oracle → TxnStamp → Option NewCommit
assign_ts o txn =
    if o.is_managed
    then some (record { ts = txn.commit_ts; conflict = false; oracle = o; txn = txn })
    else assign_next (done_read o txn).0 (done_read o txn).1

-- The second half: the commit is recorded for later conflict checks.
pub record_commit : List ℕ → NewCommit → Option NewCommit
record_commit keys r =
    if ltb r.ts r.oracle.last_cleanup_ts
    then none
    else if r.oracle.detect_conflicts
    then some (record r {
      oracle = record (r.oracle) {
        committed_txns =
            r.oracle.committed_txns ++ (record { ts = r.ts; conflict_keys = keys } ∷ []);
      };
    })
    else some r

-- newCommitTs: `none` is a failed assertion.
pub new_commit_ts : Oracle → TxnStamp → Option NewCommit
new_commit_ts o txn =
    if has_conflict o txn
    then some (record { ts = 0; conflict = true; oracle = o; txn = txn })
    else elim (assign_ts o txn) [ none ↦ none | some r ↦ record_commit txn.conflict_keys r ]
