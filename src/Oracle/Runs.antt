-- ===== src/Oracle/Runs.antt =====
-- The oracle of a database that is not managed, under any interleaving of transactions with the
-- goroutines that work off the watermarks.
use pri_zzl_badger.Base.{
  ℕ, ◌+◌, ◌^◌, ◌<◌, ◌≤◌, ◌≡◌, ◌≢◌, ap, sym, ◌∙◌, subst, Bool, false, none, some, eq_of_some,
}
use pri_zzl_badger.Watermark.{Chan, WaterMark, process_next}
use pri_zzl_badger.Oracle.{
  Oracle, TxnStamp, NewCommit, opened_oracle, read_ts, done_read, done_commit, new_commit_ts,
}
use pri_zzl_badger.Oracle.Ordered.{
  Ordered, new_commit_ts-Committed, Ordered-done_read, read_ts_ok, Ordered-read_begun,
  Ordered-txn_mark, Ordered-done_commit, Ordered-read_mark, Ordered-opened_oracle,
}

-- A transaction's read timestamp is one that the oracle gave out, below its counter; and the
-- counter has not run out of its 64 bits.
pub data Step (o : Oracle) : Oracle → Type 0 where
  reads :
      (ch : Chan) {ts : ℕ} {ready : Bool} {u : Oracle}
      → read_ts ch o ≡ some (ts, ready, u)
      → Step o u
  commits :
      (txn : TxnStamp) {r : NewCommit}
      → txn.read_ts < o.next_txn_ts
      → o.next_txn_ts + 1 < 2 ^ 64
      → new_commit_ts o txn ≡ some r
      → Step o r.oracle
  ends : (txn : TxnStamp) → txn.read_ts < o.next_txn_ts → Step o (done_read o txn).0
  finishes_commit : (ts : ℕ) → Step o (done_commit ts o)
  works_off_reads :
      {w : WaterMark} → process_next o.read_mark ≡ some w → Step o (record o { read_mark = w })
  works_off_commits :
      {w : WaterMark} → process_next o.txn_mark ≡ some w → Step o (record o { txn_mark = w })

pub data Reach (o : Oracle) : Oracle → Type 0 where
  here : Reach o o
  next : {u v : Oracle} → Reach o u → Step u v → Reach o v

Step-Ordered : {o u : Oracle} → Step o u → Ordered o → Ordered u
Step-Ordered {o} (reads ch {ts} {ready} {u} e) v =
    let (at_once, ok) = read_ts_ok ch o v.unmanaged in
    subst Ordered (ap (λ x. x.2) (eq_of_some (sym ok ∙ e))) (Ordered-read_begun ch o v)
Step-Ordered {o} (commits txn low fits e) v =
    let c = new_commit_ts-Committed o txn low v in
    subst (λ r. Ordered r.oracle) (eq_of_some (sym c.result ∙ e)) (c.ordered fits)
Step-Ordered {o} (ends txn low) v = Ordered-done_read o txn low v
Step-Ordered {o} (finishes_commit ts) v = Ordered-done_commit ts o v
Step-Ordered {o} (works_off_reads {w} e) v = Ordered-read_mark o w v e
Step-Ordered {o} (works_off_commits {w} e) v = Ordered-txn_mark o w v

Reach-Ordered : {o u : Oracle} → Reach o u → Ordered o → Ordered u
Reach-Ordered here v = v
Reach-Ordered (next r s) v = Step-Ordered s (Reach-Ordered r v)

-- In a database that is not managed, whatever the watermarks and transactions with read timestamps
-- below the counter did since it was opened, the counter staying below 2^64: the cleanup of commits
-- is not ahead of the read mark, the read mark is below the counter, and newCommitTs of a
-- transaction with a read timestamp below the counter gives an answer: neither its own assertion
-- nor that of the cleanup fails.
pub new_commit_ts-total :
    (detect : Bool) (max_version : ℕ) (o : Oracle) (txn : TxnStamp)
    → max_version + 1 < 2 ^ 64
    → Reach (opened_oracle false detect max_version) o
    → txn.read_ts < o.next_txn_ts
    → (o.last_cleanup_ts ≤ o.read_mark.done_until)
      × (o.read_mark.done_until < o.next_txn_ts)
      × (new_commit_ts o txn ≢ none)
new_commit_ts-total detect max_version o txn h run low =
    let v = Reach-Ordered run (Ordered-opened_oracle detect max_version h) in
    let c = new_commit_ts-Committed o txn low v in
    (v.cleaned, v.below.mark, λ e. absurd (cc (sym c.result ∙ e)))
