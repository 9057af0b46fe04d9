-- ===== src/Oracle/Conflicts.antt =====
-- Conflict detection against a history with which the oracle's list agrees above the last cleanup.
use pri_zzl_badger.Base.{
  ℕ, ◌≤◌, ◌<◌, ◌≡◌, refl, sym, ◌∙◌, ◌↔◌, true, false, List, [], ◌∷◌, ◌++◌, inl, inr, arith, leb,
  elem, keep_if, not, Bool-cases,
}
use pri_zzl_badger.Oracle.{
  CommittedTxn, Oracle, TxnStamp, is_nil, any_read, conflict_in, has_conflict,
}

-- The commits above `cutoff`.
abbrev pub above : ℕ → List CommittedTxn → List CommittedTxn
above cutoff cs = keep_if (λ c. not (leb c.ts cutoff)) cs

-- The oracle's list and the history of all commits agree above the last cleanup.
abbrev pub Covers : List CommittedTxn → Oracle → Type 0
Covers history o = above o.last_cleanup_ts history ≡ above o.last_cleanup_ts o.committed_txns

conflict_in-above :
    (cutoff : ℕ) (cs : List CommittedTxn) (txn : TxnStamp)
    → cutoff ≤ txn.read_ts
    → conflict_in (above cutoff cs) txn ≡ conflict_in cs txn
unfolding conflict_in
conflict_in-above cutoff [] txn h = refl
conflict_in-above cutoff (c ∷ cs) txn h = ground (arith, conflict_in-above cutoff cs txn h)

pub above_above :
    (lo hi : ℕ) (cs : List CommittedTxn) → lo ≤ hi → above hi (above lo cs) ≡ above hi cs
above_above lo hi [] h = refl
above_above lo hi (c ∷ cs) h = ground (arith, above_above lo hi cs h)

pub above-append :
    (cutoff : ℕ) (cs ds : List CommittedTxn)
    → above cutoff (cs ++ ds) ≡ above cutoff cs ++ above cutoff ds
above-append cutoff [] ds = refl
above-append cutoff (c ∷ cs) ds = ground (arith, above-append cutoff cs ds)

-- The specification: some commit after the transaction's read timestamp wrote a key it read.
pub data Conflicting (txn : TxnStamp) : List CommittedTxn → Type 0 where
  here :
      {c : CommittedTxn} {cs : List CommittedTxn}
      → txn.read_ts < c.ts
      → (r : ℕ) → elem r txn.reads ≡ true
      → elem r c.conflict_keys ≡ true
      → Conflicting txn (c ∷ cs)
  there :
      {c : CommittedTxn} {cs : List CommittedTxn} → Conflicting txn cs → Conflicting txn (c ∷ cs)

any_read-witness :
    (reads keys : List ℕ)
    → any_read reads keys ≡ true
    → (r : ℕ) × (elem r reads ≡ true) × (elem r keys ≡ true)
unfolding any_read
any_read-witness [] keys e = absurd (cc)
any_read-witness (x ∷ reads) keys e = elim (Bool-cases (elem x keys)) [
  | inl hit ↦ (x, ground arith, hit)
  | inr miss ↦ let (r, m, k) = any_read-witness reads keys (rw miss at e) in (r, ground arith, k)
]

any_read-elem :
    (reads keys : List ℕ) (r : ℕ)
    → elem r reads ≡ true
    → elem r keys ≡ true
    → any_read reads keys ≡ true
unfolding any_read
any_read-elem [] keys r m k = cc
any_read-elem (x ∷ reads) keys r m k = ground (arith, any_read-elem reads keys r)

conflict_in-Conflicting :
    (cs : List CommittedTxn) (txn : TxnStamp) → conflict_in cs txn ≡ true → Conflicting txn cs
unfolding conflict_in
conflict_in-Conflicting [] txn e = absurd (cc)
conflict_in-Conflicting (c ∷ cs) txn e = elim (Bool-cases (leb c.ts txn.read_ts)) [
  | inl old ↦ there (conflict_in-Conflicting cs txn (rw old at e))
  | inr new ↦ elim (Bool-cases (any_read txn.reads c.conflict_keys)) [
    | inl hit ↦
        let (r, m, k) = any_read-witness txn.reads c.conflict_keys hit in here (ground arith) r m k
    | inr miss ↦ there (conflict_in-Conflicting cs txn (rw (new, miss) at e))
  ]
]

Conflicting-conflict_in :
    (txn : TxnStamp) {cs : List CommittedTxn} → Conflicting txn cs → conflict_in cs txn ≡ true
unfolding conflict_in
Conflicting-conflict_in txn (here {c = c} lt r m k) =
    ground (arith, any_read-elem txn.reads c.conflict_keys r m k)
Conflicting-conflict_in txn (there rest) = ground (arith, Conflicting-conflict_in txn rest)

no_reads : (reads keys : List ℕ) → is_nil reads ≡ true → any_read reads keys ≡ false
unfolding any_read is_nil
no_reads [] keys e = refl
no_reads (x ∷ reads) keys e = cc

conflict_in_no_reads :
    (cs : List CommittedTxn) (txn : TxnStamp) → is_nil txn.reads ≡ true → conflict_in cs txn ≡ false
unfolding conflict_in
conflict_in_no_reads [] txn e = refl
conflict_in_no_reads (c ∷ cs) txn e =
    ground (arith, no_reads txn.reads c.conflict_keys e, conflict_in_no_reads cs txn e)

has_conflict-eq :
    (o : Oracle) (txn : TxnStamp) → has_conflict o txn ≡ conflict_in o.committed_txns txn
unfolding has_conflict
has_conflict-eq o txn = ground (arith, conflict_in_no_reads o.committed_txns txn)

-- For a history with which the oracle's list agrees above the last cleanup: a transaction that began
-- at or after that cleanup is checked against all of it.
pub has_conflict_iff :
    (history : List CommittedTxn) (o : Oracle) (txn : TxnStamp)
    → Covers history o
    → o.last_cleanup_ts ≤ txn.read_ts
    → (has_conflict o txn ≡ true) ↔ Conflicting txn history
has_conflict_iff history o txn h le = (
  λ e. conflict_in-Conflicting history txn (same ∙ e),
  λ c. sym same ∙ Conflicting-conflict_in txn c,
)
  where
    same : conflict_in history txn ≡ has_conflict o txn
    same = cc (
      h,
      has_conflict-eq o txn,
      conflict_in-above o.last_cleanup_ts o.committed_txns txn le,
      conflict_in-above o.last_cleanup_ts history txn le,
    )
