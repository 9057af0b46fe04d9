-- ===== src/Oracle/Commits.antt =====
-- newCommitTs and the cleanups keep the oracle's list in step with the history of all commits.
use pri_zzl_badger.Base.{
  ℕ, ◌≤◌, ◌≡◌, ◌↔◌, refl, sym, ap, ◌∙◌, Bool, true, false, some, List, [], ◌∷◌, ◌++◌, inl, inr,
  arith, if◌then◌else◌, Bool-cases, Option-cases, eq_of_some, subst,
}
use pri_zzl_badger.Oracle.{
  CommittedTxn, Oracle, TxnStamp, has_conflict, cleanup_committed, discard_at_or_below,
  set_discard_ts, done_read, NewCommit, assign_ts, assign_next, next_ts, record_commit,
  new_commit_ts,
}
use pri_zzl_badger.Oracle.Conflicts.{
  above, Covers, above_above, above-append, Conflicting, has_conflict_iff,
}

-- What a cleanup, and the steps around it, leave of the list.
pub record Kept (history : List CommittedTxn) (o o' : Oracle) : Type 0 where
  pub covers : Covers history o'
  pub grows : o.last_cleanup_ts ≤ o'.last_cleanup_ts
  pub detects : o'.detect_conflicts ≡ o.detect_conflicts

raise :
    (lo hi : ℕ) (hs cs : List CommittedTxn)
    → lo ≤ hi
    → above lo hs ≡ above lo cs
    → above hi hs ≡ above hi (above hi cs)
raise lo hi hs cs le h =
    sym (above_above lo hi hs le)
    ∙ ap (above hi) h
    ∙ above_above lo hi cs le
    ∙ sym (above_above hi hi cs (omega arith))

cleanup-Kept :
    (history : List CommittedTxn) (o o' : Oracle)
    → Covers history o
    → cleanup_committed o ≡ some o'
    → Kept history o o'
unfolding cleanup_committed
cleanup-Kept history o o' h e = record {
  covers = ground (arith, raise o.last_cleanup_ts (discard_at_or_below o) history o.committed_txns);
  grows = ground arith;
  detects = ground arith;
}

-- SetDiscardTs drops no commit above the new cleanup timestamp.
pub set_discard_ts-Kept :
    (history : List CommittedTxn) (ts : ℕ) (o o' : Oracle)
    → Covers history o
    → set_discard_ts ts o ≡ some o'
    → Kept history o o'
unfolding set_discard_ts
set_discard_ts-Kept history ts o o' h e =
    let k = cleanup-Kept history (record o { discard_ts = ts }) o' h e in
    record { covers = k.covers; grows = k.grows; detects = k.detects }

pub done_read-Kept :
    (history : List CommittedTxn) (o : Oracle) (txn : TxnStamp)
    → Covers history o
    → Kept history o (done_read o txn).0
unfolding done_read
done_read-Kept history o txn h = record {
  covers = ground arith;
  grows = ground arith;
  detects = ground arith;
}

Kept-trans :
    (history : List CommittedTxn) (a b c : Oracle)
    → Kept history a b
    → Kept history b c
    → Kept history a c
Kept-trans history a b c f g = record {
  covers = g.covers;
  grows = omega (arith, f.grows, g.grows);
  detects = g.detects ∙ f.detects;
}

abbrev Assigned : List CommittedTxn → Oracle → NewCommit → Type 0
Assigned history o r = Kept history o r.oracle × (r.conflict ≡ false)

assign_next-Assigned :
    (history : List CommittedTxn) (o : Oracle) (txn : TxnStamp) (r : NewCommit)
    → Covers history o
    → assign_next o txn ≡ some r
    → Assigned history o r
unfolding assign_next
assign_next-Assigned history o txn r h e = elim (Option-cases (cleanup_committed o)) [
  | inl failed ↦ absurd (cc (rw (failed, assign_next) at e))
  | inr (c, cleaned) ↦
      let k = cleanup-Kept history o c h cleaned in
      subst (Assigned history o) (eq_of_some (rw (cleaned, assign_next) at e)) (
        unfold next_ts in
        (record { covers = k.covers; grows = k.grows; detects = k.detects }, refl))
]

assign_ts-Assigned :
    (history : List CommittedTxn) (o : Oracle) (txn : TxnStamp) (r : NewCommit)
    → Covers history o
    → assign_ts o txn ≡ some r
    → Assigned history o r
unfolding assign_ts
assign_ts-Assigned history o txn r h e = go o.is_managed e
  where
    next : assign_next (done_read o txn).0 (done_read o txn).1 ≡ some r → Assigned history o r
    next p =
        let d = done_read-Kept history o txn h in
        let (k, ok) =
          assign_next-Assigned history (done_read o txn).0 (done_read o txn).1 r d.covers p in
        (Kept-trans history o (done_read o txn).0 r.oracle d k, ok)

    go :
        (b : Bool)
        → (if b
            then some (record { ts = txn.commit_ts; conflict = false; oracle = o; txn = txn })
            else assign_next (done_read o txn).0 (done_read o txn).1)
          ≡ some r
        → Assigned history o r
    go true p =
        subst (Assigned history o) (eq_of_some p)
          (record { covers = h; grows = omega arith; detects = refl }, refl)
    go false p = next p

abbrev pub commit_of : NewCommit → List ℕ → CommittedTxn
commit_of r keys = record { ts = r.ts; conflict_keys = keys }

record_commit_lem :
    (history : List CommittedTxn) (keys : List ℕ) (r r' : NewCommit)
    → Covers history r.oracle
    → r.oracle.detect_conflicts ≡ true
    → record_commit keys r ≡ some r'
    → Covers (history ++ (commit_of r' keys ∷ [])) r'.oracle
      × (r'.oracle.last_cleanup_ts ≡ r.oracle.last_cleanup_ts)
      × (r'.oracle.detect_conflicts ≡ true)
      × (r'.conflict ≡ r.conflict)
unfolding record_commit
record_commit_lem history keys r r' h d e = ground (
  arith,
  above-append r.oracle.last_cleanup_ts history (commit_of r keys ∷ []),
  above-append r.oracle.last_cleanup_ts r.oracle.committed_txns (commit_of r keys ∷ []),
)

-- A commit that is not refused joins the history.
pub assigned_commit :
    (history : List CommittedTxn) (o : Oracle) (txn : TxnStamp) (r : NewCommit)
    → Covers history o
    → o.detect_conflicts ≡ true
    → r.conflict ≡ false
    → new_commit_ts o txn ≡ some r
    → Covers (history ++ (commit_of r txn.conflict_keys ∷ [])) r.oracle
      × (o.last_cleanup_ts ≤ r.oracle.last_cleanup_ts)
      × (r.oracle.detect_conflicts ≡ true)
unfolding new_commit_ts
assigned_commit history o txn r h d free e = elim (Bool-cases (has_conflict o txn)) [
  | inl hit ↦
      let same : record { ts = 0; conflict = true; oracle = o; txn = txn } ≡ r =
        cc (rw (hit, new_commit_ts) at e) in
      absurd (cc)
  | inr clear ↦ elim (Option-cases (assign_ts o txn)) [
    | inl failed ↦ absurd (cc (rw (clear, failed, new_commit_ts) at e))
    | inr (a, given) ↦
        let (k, ok) = assign_ts-Assigned history o txn a h given in
        let (covers, low, det, same) =
          record_commit_lem history txn.conflict_keys a r k.covers (k.detects ∙ d)
            (rw (clear, given, new_commit_ts) at e) in
        (covers, omega (arith, k.grows), det)
  ]
]

-- With conflict detection on, and for a history with which the oracle's list agrees above the last
-- cleanup: the commit of a transaction that began at or after that cleanup, when no assertion of it
-- fails. It is refused exactly when
-- a commit after its read timestamp wrote a key that it read, and then nothing changes. Else the
-- history grows by this commit, the oracle's list stays in step with it, and the cleanup
-- timestamp does not fall.
pub new_commit_ts_lem :
    (history : List CommittedTxn) (o : Oracle) (txn : TxnStamp) (r : NewCommit)
    → Covers history o
    → o.detect_conflicts ≡ true
    → o.last_cleanup_ts ≤ txn.read_ts
    → new_commit_ts o txn ≡ some r
    → ((r.conflict ≡ true) ↔ Conflicting txn history)
      × (r.conflict ≡ true → r.oracle ≡ o)
      × (r.conflict ≡ false
          → Covers (history ++ (commit_of r txn.conflict_keys ∷ [])) r.oracle
            × (o.last_cleanup_ts ≤ r.oracle.last_cleanup_ts)
            × (r.oracle.detect_conflicts ≡ true))
unfolding new_commit_ts
new_commit_ts_lem history o txn r h d le e =
    let (to, from) = has_conflict_iff history o txn h le in
    elim (Bool-cases (has_conflict o txn)) [
      | inl hit ↦
          let same : record { ts = 0; conflict = true; oracle = o; txn = txn } ≡ r =
            cc (rw (hit, new_commit_ts) at e) in
          ((λ c. to hit, λ c. ground arith), λ c. ground arith, λ c. absurd (cc))
      | inr clear ↦ elim (Option-cases (assign_ts o txn)) [
        | inl failed ↦ absurd (cc (rw (clear, failed, new_commit_ts) at e))
        | inr (a, given) ↦
            let (k, ok) = assign_ts-Assigned history o txn a h given in
            let (covers, low, det, same) =
              record_commit_lem history txn.conflict_keys a r k.covers (k.detects ∙ d)
                (rw (clear, given, new_commit_ts) at e) in
            (
              (λ c. absurd (cc), λ c. absurd (cc (from c))),
              λ c. absurd (cc),
              λ c. assigned_commit history o txn r h d c e,
            )
      ]
    ]
