-- ===== src/Oracle/Examples.antt =====
-- The oracle on a short history of commits.
use pri_zzl_badger.Base.{
  ℕ, ◌≡◌, ◌≤◌, ◌↔◌, refl, Bool, true, false, some, List, [], ◌∷◌, ◌++◌, arith,
}
use pri_zzl_badger.Watermark.{init}
use pri_zzl_badger.Watermark.{begin, done, wait_for_mark}
use pri_zzl_badger.Oracle.Runs.{here, next, reads, new_commit_ts-total}
use pri_zzl_badger.Base.{◌<◌, ◌≢◌, none}
use pri_zzl_badger.Oracle.{
  new_oracle, opened_oracle, read_ts, CommittedTxn, Oracle, TxnStamp, NewCommit, has_conflict,
  new_commit_ts, set_discard_ts, cleanup_committed, assign_ts, assign_next, next_ts, record_commit,
  done_read, conflict_in, any_read,
}
use pri_zzl_badger.Oracle.Conflicts.{Covers, Conflicting}
use pri_zzl_badger.Oracle.History.{Lived, opened, commits, discards, has_conflict-Conflicting}
use pri_zzl_badger.Oracle.Commits.{commit_of, new_commit_ts_lem}

abbrev old_commit : CommittedTxn
old_commit = record { ts = 2; conflict_keys = 10 ∷ [] }

abbrev new_commit : CommittedTxn
new_commit = record { ts = 5; conflict_keys = 20 ∷ 21 ∷ [] }

abbrev history : List CommittedTxn
history = old_commit ∷ new_commit ∷ []

-- The first commit has been cleaned up.
abbrev oracle : Oracle
oracle = record {
  is_managed = false;
  detect_conflicts = true;
  next_txn_ts = 6;
  txn_mark = init;
  discard_ts = 0;
  read_mark = record init { done_until = 3 };
  committed_txns = new_commit ∷ [];
  last_cleanup_ts = 3;
}

abbrev reader : TxnStamp
reader = record {
  read_ts = 4;
  commit_ts = 0;
  reads = 21 ∷ [];
  conflict_keys = 30 ∷ [];
  done_read = false;
}

abbrev other : TxnStamp
other = record reader { reads = 10 ∷ [] }

reader_conflicts : has_conflict oracle reader ≡ true
unfolding has_conflict conflict_in any_read
reader_conflicts = refl

other_free : has_conflict oracle other ≡ false
unfolding has_conflict conflict_in any_read
other_free = refl

-- A managed database: two commits, and a cleanup that drops the first one.
abbrev start : Oracle
start = opened_oracle true true 1

abbrev first_txn : TxnStamp
first_txn = record {
  read_ts = 1;
  commit_ts = 2;
  reads = [];
  conflict_keys = 10 ∷ [];
  done_read = false;
}

abbrev second_txn : TxnStamp
second_txn = record first_txn { commit_ts = 5; conflict_keys = 20 ∷ 21 ∷ [] }

abbrev after_first : NewCommit
after_first = record {
  ts = 2;
  conflict = false;
  oracle = record start { committed_txns = old_commit ∷ [] };
  txn = first_txn;
}

abbrev after_second : NewCommit
after_second = record {
  ts = 5;
  conflict = false;
  oracle = record start { committed_txns = old_commit ∷ new_commit ∷ [] };
  txn = second_txn;
}

abbrev lived : Oracle
lived = record start { discard_ts = 3; committed_txns = new_commit ∷ []; last_cleanup_ts = 3 }

first_committed : new_commit_ts start first_txn ≡ some after_first
unfolding new_commit_ts has_conflict assign_ts record_commit opened_oracle new_oracle
first_committed = refl

second_committed : new_commit_ts after_first.oracle second_txn ≡ some after_second
unfolding new_commit_ts has_conflict assign_ts record_commit opened_oracle new_oracle
second_committed = refl

first_dropped : set_discard_ts 3 after_second.oracle ≡ some lived
unfolding set_discard_ts cleanup_committed opened_oracle new_oracle
first_dropped = refl

lived-Lived : Lived true 1 history lived
lived-Lived =
    discards 3
      (commits second_txn (commits first_txn opened first_committed refl) second_committed refl)
      first_dropped

lived_cleanup : lived.last_cleanup_ts ≤ reader.read_ts
lived_cleanup = omega arith

has_conflict-Conflicting_example : (has_conflict lived reader ≡ true) ↔ Conflicting reader history
has_conflict-Conflicting_example =
    has_conflict-Conflicting true 1 history lived reader lived-Lived lived_cleanup

abbrev committed : NewCommit
committed = record {
  ts = 6;
  conflict = false;
  oracle = record oracle {
    next_txn_ts = 7;
    txn_mark = record init {
      last_index = 6;
      mark_ch =
          record { index = 6; waiter = pri_zzl_badger.Base.none; indices = []; done = false } ∷ [];
    };
    read_mark = record init {
      done_until = 3;
      mark_ch =
          record { index = 4; waiter = pri_zzl_badger.Base.none; indices = []; done = true } ∷ [];
    };
    committed_txns = new_commit ∷ record { ts = 6; conflict_keys = 30 ∷ [] } ∷ [];
  };
  txn = record other { done_read = true };
}

other_commits : new_commit_ts oracle other ≡ some committed
unfolding new_commit_ts has_conflict conflict_in any_read assign_ts assign_next cleanup_committed
    done_read pri_zzl_badger.Watermark.done record_commit next_ts pri_zzl_badger.Watermark.begin
other_commits = refl

new_commit_ts_lem_example :
    ((committed.conflict ≡ true) ↔ Conflicting other history)
    × (committed.conflict ≡ true → committed.oracle ≡ oracle)
    × (committed.conflict ≡ false
        → Covers (history ++ (commit_of committed other.conflict_keys ∷ [])) committed.oracle
          × (oracle.last_cleanup_ts ≤ committed.oracle.last_cleanup_ts)
          × (committed.oracle.detect_conflicts ≡ true))
new_commit_ts_lem_example =
    new_commit_ts_lem history oracle other committed refl refl (omega arith) other_commits

abbrev managed : Oracle
managed = record oracle { is_managed = true }

abbrev cleaned : Oracle
cleaned = record managed { discard_ts = 5; committed_txns = []; last_cleanup_ts = 5 }

managed_cleans : set_discard_ts 5 managed ≡ some cleaned
unfolding set_discard_ts cleanup_committed
managed_cleans = refl

abbrev begun : Oracle
begun = record (new_oracle false true) {
  next_txn_ts = 6;
  read_mark = begin 5 (done 5 init);
  txn_mark = (wait_for_mark 5 3 (done 5 init)).0;
}

first_read : read_ts 3 (opened_oracle false true 5) ≡ some (5, false, begun)
unfolding read_ts opened_oracle new_oracle wait_for_mark done
first_read = refl

begun_counter : begun.next_txn_ts ≡ 6
begun_counter = refl

new_commit_ts-total_example :
    (begun.last_cleanup_ts ≤ begun.read_mark.done_until)
    × (begun.read_mark.done_until < begun.next_txn_ts)
    × (new_commit_ts begun reader ≢ none)
new_commit_ts-total_example =
    new_commit_ts-total true 5 begun reader (omega arith) (next here (reads 3 first_read))
      (omega arith)
