-- ===== src/Oracle/Ordered.antt =====
-- The order of the cleanup, the read mark and the counter, and that every operation of the oracle
-- keeps it.
use pri_zzl_badger.Base.{
  ℕ, ◌+◌, ◌-◌, ◌%◌, ◌^◌, ◌<◌, ◌≤◌, ◌≡◌, refl, ap, sym, ◌∙◌, subst, Bool, true, false, none, some,
  List, [], ◌∷◌, ◌++◌, inl, inr, arith, Bool-cases, ◌==◌, if◌then◌else◌, keep_if, not, leb, ◌⊎◌,
}
use pri_zzl_badger.Watermark.{Chan, WaterMark, begin, done, wait_for_mark, process_next}
use pri_zzl_badger.Watermark
use pri_zzl_badger.Watermark.Progress.{IsValid, IsValid-init}
use pri_zzl_badger.Watermark.Runs.{Step-IsValid, begins, finishes, processes}
use pri_zzl_badger.Watermark.Bounds.{Below, process_next-Below, begin-Below, done-Below, Below-mono}
use pri_zzl_badger.Oracle.{
  Oracle, TxnStamp, NewCommit, opened_oracle, new_oracle, read_ts, discard_at_or_below,
  has_conflict, cleanup_committed, done_read, done_commit, next_ts, assign_next, assign_ts,
  record_commit, new_commit_ts,
}

-- The cleanup does not pass the read mark, nor the read mark the counter.
pub record Ordered (o : Oracle) : Type 0 where
  pub unmanaged : o.is_managed ≡ false
  pub counter : 0 < o.next_txn_ts
  pub counter_fits : o.next_txn_ts < 2 ^ 64
  pub cleaned : o.last_cleanup_ts ≤ o.read_mark.done_until
  pub read_mark_ok : IsValid o.read_mark
  pub below : Below o.next_txn_ts o.read_mark

pub Ordered-done_read :
    (o : Oracle) (txn : TxnStamp)
    → txn.read_ts < o.next_txn_ts
    → Ordered o
    → Ordered (done_read o txn).0
unfolding done_read
Ordered-done_read o txn h v = elim (Bool-cases txn.done_read) [
  | inl already ↦ rw already v
  | inr first ↦
      let (ok, grows) = Step-IsValid {w = o.read_mark} (finishes txn.read_ts) v.read_mark_ok in
      rw first (record {
        unmanaged = v.unmanaged;
        counter = v.counter;
        counter_fits = v.counter_fits;
        cleaned = omega (arith, v.cleaned, grows);
        read_mark_ok = ok;
        below = done-Below o.next_txn_ts txn.read_ts o.read_mark h v.below;
      })
]

abbrev cleaned_up : Oracle → Oracle
cleaned_up o = record o {
  last_cleanup_ts = o.read_mark.done_until;
  committed_txns = keep_if (λ c. not (leb c.ts o.read_mark.done_until)) o.committed_txns;
}

cleanup_committed-cases :
    (o : Oracle)
    → Ordered o
    → (cleanup_committed o ≡ some o) ⊎ (cleanup_committed o ≡ some (cleaned_up o))
unfolding cleanup_committed discard_at_or_below
cleanup_committed-cases o v = elim (Bool-cases o.detect_conflicts) [
  | inr off ↦ inl (ground (arith, off))
  | inl on ↦ elim (Bool-cases (o.read_mark.done_until == o.last_cleanup_ts)) [
    | inl same ↦ inl (ground (arith, on, same, v.unmanaged, v.cleaned))
    | inr differs ↦ inr (ground (arith, on, differs, v.unmanaged, v.cleaned))
  ]
]

-- What the cleanup leaves: it never fails, and moves neither the counter nor the read mark.
record CleanedUp (o : Oracle) : Type 0 where
  state : Oracle
  result : cleanup_committed o ≡ some state
  ordered : Ordered state
  same_counter : state.next_txn_ts ≡ o.next_txn_ts

cleanup_committed-CleanedUp : (o : Oracle) → Ordered o → CleanedUp o
cleanup_committed-CleanedUp o v = elim (cleanup_committed-cases o v) [
  | inl same ↦ record { state = o; result = same; ordered = v; same_counter = refl }
  | inr new ↦ record {
    state = cleaned_up o;
    result = new;
    ordered = record {
      unmanaged = v.unmanaged;
      counter = v.counter;
      counter_fits = v.counter_fits;
      cleaned = omega arith;
      read_mark_ok = v.read_mark_ok;
      below = v.below;
    };
    same_counter = refl;
  }
]

-- The commit timestamp that the counter gives.
record Assigned (o : Oracle) (txn : TxnStamp) : Type 0 where
  commit : NewCommit
  result : assign_ts o txn ≡ some commit
  ordered : o.next_txn_ts + 1 < 2 ^ 64 → Ordered commit.oracle
  at_counter : commit.oracle.last_cleanup_ts ≤ commit.ts

Ordered-next_ts :
    (o : Oracle) (txn : TxnStamp)
    → Ordered o
    → o.next_txn_ts + 1 < 2 ^ 64
    → Ordered (next_ts txn o).oracle
unfolding next_ts
Ordered-next_ts o txn v h =
    let more : (o.next_txn_ts + 1) % 2 ^ 64 ≡ o.next_txn_ts + 1 = omega arith in
    record {
      unmanaged = v.unmanaged;
      counter = omega (arith, more);
      counter_fits = omega (arith, more);
      cleaned = v.cleaned;
      read_mark_ok = v.read_mark_ok;
      below = Below-mono o.next_txn_ts _ o.read_mark (omega (arith, more)) v.below;
    }

next_ts-late :
    (o : Oracle) (txn : TxnStamp)
    → Ordered o
    → (next_ts txn o).oracle.last_cleanup_ts ≤ (next_ts txn o).ts
unfolding next_ts
next_ts-late o txn v = omega (arith, v.cleaned, v.below.mark)

done_read-counter : (o : Oracle) (txn : TxnStamp) → (done_read o txn).0.next_txn_ts ≡ o.next_txn_ts
unfolding done_read
done_read-counter o txn = ground arith

assign_ts-Assigned :
    (o : Oracle) (txn : TxnStamp) → txn.read_ts < o.next_txn_ts → Ordered o → Assigned o txn
unfolding assign_ts assign_next
assign_ts-Assigned o txn h v =
    let d = (done_read o txn).0 in
    let t = (done_read o txn).1 in
    let vd = Ordered-done_read o txn h v in
    let c = cleanup_committed-CleanedUp d vd in
    let same : c.state.next_txn_ts ≡ o.next_txn_ts = c.same_counter ∙ done_read-counter o txn in
    record {
      commit = next_ts t c.state;
      result = ground (arith, v.unmanaged, c.result);
      ordered = λ fits. Ordered-next_ts c.state t c.ordered (omega (arith, same, fits));
      at_counter = next_ts-late c.state t c.ordered;
    }

abbrev recorded : List ℕ → NewCommit → NewCommit
recorded keys r = record r {
  oracle = record (r.oracle) {
    committed_txns = r.oracle.committed_txns ++ (record { ts = r.ts; conflict_keys = keys } ∷ []);
  };
}

record_commit-cases :
    (keys : List ℕ) (r : NewCommit)
    → r.oracle.last_cleanup_ts ≤ r.ts
    → (record_commit keys r ≡ some r) ⊎ (record_commit keys r ≡ some (recorded keys r))
unfolding record_commit
record_commit-cases keys r h = elim (Bool-cases r.oracle.detect_conflicts) [
  | inl on ↦ inr (ground (arith, on))
  | inr off ↦ inl (ground (arith, off))
]

Ordered-recorded :
    (keys : List ℕ) (r : NewCommit) → Ordered r.oracle → Ordered (recorded keys r).oracle
Ordered-recorded keys r v = record {
  unmanaged = v.unmanaged;
  counter = v.counter;
  counter_fits = v.counter_fits;
  cleaned = v.cleaned;
  read_mark_ok = v.read_mark_ok;
  below = v.below;
}

-- The commit of a transaction, whatever its answer.
pub record Committed (o : Oracle) (txn : TxnStamp) : Type 0 where
  pub commit : NewCommit
  pub result : new_commit_ts o txn ≡ some commit
  pub ordered : o.next_txn_ts + 1 < 2 ^ 64 → Ordered commit.oracle

pub new_commit_ts-Committed :
    (o : Oracle) (txn : TxnStamp) → txn.read_ts < o.next_txn_ts → Ordered o → Committed o txn
unfolding new_commit_ts
new_commit_ts-Committed o txn h v = elim (Bool-cases (has_conflict o txn)) [
  | inl refused ↦ record {
    commit = record { ts = 0; conflict = true; oracle = o; txn = txn };
    result = rw (refused, new_commit_ts) refl;
    ordered = λ fits. v;
  }
  | inr free ↦
      let a = assign_ts-Assigned o txn h v in
      elim (record_commit-cases txn.conflict_keys a.commit a.at_counter) [
        | inl kept ↦ record {
          commit = a.commit;
          result = rw (free, new_commit_ts, a.result) kept;
          ordered = a.ordered;
        }
        | inr added ↦ record {
          commit = recorded txn.conflict_keys a.commit;
          result = rw (free, new_commit_ts, a.result) added;
          ordered = λ fits. Ordered-recorded txn.conflict_keys a.commit (a.ordered fits);
        }
      ]
]

-- The state after readTs.
abbrev pub read_begun : Chan → Oracle → Oracle
read_begun ch o =
    let ts = (o.next_txn_ts + 2 ^ 64 - 1) % 2 ^ 64 in
    record o { read_mark = begin ts o.read_mark; txn_mark = (wait_for_mark ts ch o.txn_mark).0 }

pub read_ts_ok :
    (ch : Chan) (o : Oracle)
    → o.is_managed ≡ false
    → (ready : Bool) × (read_ts ch o
        ≡ some ((o.next_txn_ts + 2 ^ 64 - 1) % 2 ^ 64, ready, read_begun ch o))
unfolding read_ts
read_ts_ok ch o h =
    let ts = (o.next_txn_ts + 2 ^ 64 - 1) % 2 ^ 64 in
    let w = wait_for_mark ts ch o.txn_mark in
    (w.1, ap (λ b. if b then none else some (ts, w.1, read_begun ch o)) h)

pub Ordered-read_begun : (ch : Chan) (o : Oracle) → Ordered o → Ordered (read_begun ch o)
Ordered-read_begun ch o v =
    let ts = (o.next_txn_ts + 2 ^ 64 - 1) % 2 ^ 64 in
    let low : ts < o.next_txn_ts = omega (arith, v.counter, v.counter_fits) in
    let (ok, grows) = Step-IsValid {w = o.read_mark} (begins ts) v.read_mark_ok in
    record {
      unmanaged = v.unmanaged;
      counter = v.counter;
      counter_fits = v.counter_fits;
      cleaned = omega (arith, v.cleaned, grows);
      read_mark_ok = ok;
      below = begin-Below o.next_txn_ts ts o.read_mark low v.below;
    }

-- Another state of the commits' watermark.
pub Ordered-txn_mark :
    (o : Oracle) (w : WaterMark) → Ordered o → Ordered (record o { txn_mark = w })
Ordered-txn_mark o w v = record {
  unmanaged = v.unmanaged;
  counter = v.counter;
  counter_fits = v.counter_fits;
  cleaned = v.cleaned;
  read_mark_ok = v.read_mark_ok;
  below = v.below;
}

pub Ordered-done_commit : (ts : ℕ) (o : Oracle) → Ordered o → Ordered (done_commit ts o)
unfolding done_commit
Ordered-done_commit ts o v = elim (Bool-cases o.is_managed) [
  | inl managed ↦ absurd (ground (arith, managed, v.unmanaged))
  | inr unmanaged ↦
      subst Ordered
        (ap (λ b. if b then o else record o { txn_mark = done ts o.txn_mark }) (sym unmanaged))
        (Ordered-txn_mark o (done ts o.txn_mark) v)
]

pub Ordered-read_mark :
    (o : Oracle) (w : WaterMark)
    → Ordered o
    → process_next o.read_mark ≡ some w
    → Ordered (record o { read_mark = w })
Ordered-read_mark o w v e =
    let (ok, grows) = Step-IsValid {w = o.read_mark} (processes e) v.read_mark_ok in
    record {
      unmanaged = v.unmanaged;
      counter = v.counter;
      counter_fits = v.counter_fits;
      cleaned = omega (arith, v.cleaned, grows);
      read_mark_ok = ok;
      below = process_next-Below o.next_txn_ts o.read_mark w v.below e;
    }

pub Ordered-opened_oracle :
    (detect : Bool) (max_version : ℕ)
    → max_version + 1 < 2 ^ 64
    → Ordered (opened_oracle false detect max_version)
unfolding opened_oracle new_oracle
Ordered-opened_oracle detect max_version h =
    let more : (max_version + 1) % 2 ^ 64 ≡ max_version + 1 = omega arith in
    let (ok, grows) = Step-IsValid {w = Watermark.init} (finishes max_version) IsValid-init in
    record {
      unmanaged = refl;
      counter = omega (arith, more);
      counter_fits = omega (arith, more);
      cleaned = omega arith;
      read_mark_ok = ok;
      below =
          done-Below _ max_version Watermark.init (omega (arith, more))
            (record { mark = omega (arith, more); heap = tt; queue = tt });
    }
