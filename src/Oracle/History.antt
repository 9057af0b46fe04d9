-- ===== src/Oracle/History.antt =====
-- Conflict detection over the whole life of an oracle: the commits that were made, against the list
-- that the cleanups leave.
use pri_zzl_badger.Base.{
  ℕ, ◌≤◌, ◌≡◌, ◌↔◌, refl, ◌∙◌, Bool, true, false, some, List, [], ◌∷◌, ◌++◌, inl, inr, arith,
  Bool-cases,
}
use pri_zzl_badger.Watermark.{Chan, WaterMark, process_next}
use pri_zzl_badger.Oracle.{
  CommittedTxn, Oracle, TxnStamp, NewCommit, new_oracle, opened_oracle, read_ts, has_conflict,
  set_discard_ts, done_read, done_commit, new_commit_ts,
}
use pri_zzl_badger.Oracle.Conflicts.{Covers, Conflicting, has_conflict_iff}
use pri_zzl_badger.Oracle.Commits.{commit_of, set_discard_ts-Kept, done_read-Kept, assigned_commit}

-- What an oracle with conflict detection goes through from Open on, managed or not, with the
-- commits so far. A commit that is refused leaves the oracle as it is.
pub data Lived (managed : Bool) (max_version : ℕ) : List CommittedTxn → Oracle → Type 0 where
  opened : Lived managed max_version [] (opened_oracle managed true max_version)
  commits :
      {history : List CommittedTxn} {o : Oracle} (txn : TxnStamp) {r : NewCommit}
      → Lived managed max_version history o
      → new_commit_ts o txn ≡ some r
      → r.conflict ≡ false
      → Lived managed max_version (history ++ (commit_of r txn.conflict_keys ∷ [])) r.oracle
  discards :
      {history : List CommittedTxn} {o u : Oracle} (ts : ℕ)
      → Lived managed max_version history o
      → set_discard_ts ts o ≡ some u
      → Lived managed max_version history u
  reads :
      {history : List CommittedTxn} {o u : Oracle} (ch : Chan) {ts : ℕ} {ready : Bool}
      → Lived managed max_version history o
      → read_ts ch o ≡ some (ts, ready, u)
      → Lived managed max_version history u
  ends :
      {history : List CommittedTxn} {o : Oracle} (txn : TxnStamp)
      → Lived managed max_version history o
      → Lived managed max_version history (done_read o txn).0
  finishes_commit :
      {history : List CommittedTxn} {o : Oracle} (ts : ℕ)
      → Lived managed max_version history o
      → Lived managed max_version history (done_commit ts o)
  works_off_reads :
      {history : List CommittedTxn} {o : Oracle} {w : WaterMark}
      → Lived managed max_version history o
      → process_next o.read_mark ≡ some w
      → Lived managed max_version history (record o { read_mark = w })
  works_off_commits :
      {history : List CommittedTxn} {o : Oracle} {w : WaterMark}
      → Lived managed max_version history o
      → process_next o.txn_mark ≡ some w
      → Lived managed max_version history (record o { txn_mark = w })

abbrev Kept : List CommittedTxn → Oracle → Type 0
Kept history o = Covers history o × (o.detect_conflicts ≡ true)

opened-Kept : (managed : Bool) (max_version : ℕ) → Kept [] (opened_oracle managed true max_version)
unfolding opened_oracle new_oracle
opened-Kept managed max_version = (refl, refl)

read_ts-Kept :
    (history : List CommittedTxn) (ch : Chan) (ts : ℕ) (ready : Bool) (o u : Oracle)
    → Kept history o
    → read_ts ch o ≡ some (ts, ready, u)
    → Kept history u
unfolding read_ts
read_ts-Kept history ch ts ready o u k e = ground (arith, k.0, k.1, e)

done_commit-Kept :
    (history : List CommittedTxn) (ts : ℕ) (o : Oracle)
    → Kept history o
    → Kept history (done_commit ts o)
unfolding done_commit
done_commit-Kept history ts o k = elim (Bool-cases o.is_managed) [ inl t ↦ rw t k | inr f ↦ rw f k ]

pub Lived-Kept :
    {managed : Bool} {max_version : ℕ} {history : List CommittedTxn} {o : Oracle}
    → Lived managed max_version history o
    → Kept history o
Lived-Kept {managed} {max_version} opened = opened-Kept managed max_version
Lived-Kept (commits {history} {o} txn {r} l e free) =
    let k = Lived-Kept l in
    let (covers, low, det) = assigned_commit history o txn r k.0 k.1 free e in (covers, det)
Lived-Kept (discards {history} {o} {u} ts l e) =
    let k = Lived-Kept l in
    let d = set_discard_ts-Kept history ts o u k.0 e in (d.covers, d.detects ∙ k.1)
Lived-Kept (reads {history} {o} {u} ch {ts} {ready} l e) =
    read_ts-Kept history ch ts ready o u (Lived-Kept l) e
Lived-Kept (ends {history} {o} txn l) =
    let k = Lived-Kept l in let d = done_read-Kept history o txn k.0 in (d.covers, d.detects ∙ k.1)
Lived-Kept (finishes_commit {history} {o} ts l) = done_commit-Kept history ts o (Lived-Kept l)
Lived-Kept (works_off_reads l e) = Lived-Kept l
Lived-Kept (works_off_commits l e) = Lived-Kept l

-- In a database that detects conflicts, managed or not, whatever was done since it was opened and
-- whatever the cleanups have dropped by then: a transaction that began at or after the last cleanup
-- has a conflict exactly when some commit ever made after its read timestamp wrote a key that it
-- read.
pub has_conflict-Conflicting :
    (managed : Bool) (max_version : ℕ) (history : List CommittedTxn) (o : Oracle) (txn : TxnStamp)
    → Lived managed max_version history o
    → o.last_cleanup_ts ≤ txn.read_ts
    → (has_conflict o txn ≡ true) ↔ Conflicting txn history
has_conflict-Conflicting managed max_version history o txn l le =
    has_conflict_iff history o txn (Lived-Kept l).0 le
