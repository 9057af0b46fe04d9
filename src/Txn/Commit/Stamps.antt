-- ===== src/Txn/Commit/Stamps.antt =====
-- The entries that a commit sends, against the writes of the transaction.
use pri_zzl_badger.Base.{
  ℕ, ◌^◌, ◌<◌, ◌≡◌, ◌⊎◌, refl, subst, Bool, true, false, some, List, [], ◌∷◌, ◌++◌, inl, inr, arith,
  ◌==◌, length, All, Bool-cases, eq_of_some, sym, if◌then◌else◌,
}
use Prim.Native.Nat.{bit_or}
use pri_zzl_badger.Bytes.{Bytes}
use pri_zzl_badger.Keys.{parse_ts, parse_key}
use pri_zzl_badger.Keys.Order.{key_with_ts_parts, parse_key-key_with_ts}
use pri_zzl_badger.Entry.{Entry, bit_txn, bit_fin_txn}
use pri_zzl_badger.Txn.{Txn, txn_key}
use pri_zzl_badger.Txn.Commit.{
  entries_of, all_unversioned, process_entries, fin_entry, commit_entries,
}

-- Entries that modify accepts: the key is not empty, and the version fits a uint64.
abbrev pub IsWrite : Entry → Type 0
IsWrite e = (0 < length e.key) × (e.version < 2 ^ 64)

-- The version that a write gets: its own, if it has one.
abbrev pub version_in : ℕ → Entry → ℕ
version_in ts w = if w.version == 0 then ts else w.version

-- What is sent for a write.
pub record IsStamped (together : Bool) (ts : ℕ) (w e : Entry) : Type 0 where
  pub key : parse_key e.key ≡ w.key
  pub timestamp : parse_ts e.key ≡ version_in ts w
  pub version : e.version ≡ version_in ts w
  pub value : e.value ≡ w.value
  pub expires_at : e.expires_at ≡ w.expires_at
  pub user_meta : e.user_meta ≡ w.user_meta
  pub meta : e.meta ≡ (if together then bit_or w.meta bit_txn else w.meta)

-- One by one, in the order of the writes.
abbrev pub AreStamped : Bool → ℕ → List Entry → List Entry → Type 0
AreStamped together ts [] [] = Unit {0}
AreStamped together ts [] (e ∷ es) = ⊥
AreStamped together ts (w ∷ ws) [] = ⊥
AreStamped together ts (w ∷ ws) (e ∷ es) = IsStamped together ts w e × AreStamped together ts ws es

-- The entry that ends a transaction.
pub record IsEnd (ts : ℕ) (e : Entry) : Type 0 where
  pub key : parse_key e.key ≡ txn_key
  pub timestamp : parse_ts e.key ≡ ts
  pub meta : e.meta ≡ bit_fin_txn

process_entries-AreStamped :
    (together : Bool) (ts : ℕ) (ws : List Entry)
    → ts < 2 ^ 64
    → All IsWrite ws
    → AreStamped together ts ws (process_entries together ts ws)
unfolding process_entries
process_entries-AreStamped together ts [] h a = tt
process_entries-AreStamped together ts (w ∷ ws) h a =
    let now = key_with_ts_parts w.key ts a.0.0 h in
    let own = key_with_ts_parts w.key w.version a.0.0 a.0.1 in
    (
      record {
        key = ground (arith, parse_key-key_with_ts w.key ts, parse_key-key_with_ts w.key w.version);
        timestamp = ground (arith, now.1, own.1);
        version = ground arith;
        value = ground arith;
        expires_at = ground arith;
        user_meta = ground arith;
        meta = ground arith;
      },
      process_entries-AreStamped together ts ws h a.1,
    )

abbrev pub writes_of : Txn → List Entry
writes_of txn = entries_of txn.pending_writes ++ txn.duplicate_writes

unversioned_iff :
    (ws : List Entry)
    → (all_unversioned ws ≡ true → All (λ w. w.version ≡ 0) ws)
      × (All (λ w. w.version ≡ 0) ws → all_unversioned ws ≡ true)
unfolding all_unversioned
unversioned_iff [] = (λ e. tt, λ a. refl)
unversioned_iff (w ∷ ws) =
    let (to, from) = unversioned_iff ws in
    (λ e. (ground (arith, e), to (ground (arith, e))), λ a. ground (arith, a.0, from a.1))

-- The entries that a commit at a 64-bit timestamp sends, when its assertion holds, for writes with
-- keys that are not empty and versions of 64 bits: one for each write, in their order, with the
-- write's key at its own version, or at the commit timestamp where it has none, and with its value,
-- expiry and user meta. Where no write has a version of its own, all of them are marked as of one
-- transaction and an entry follows that ends it, at the commit timestamp, which is not 0; else they
-- are not marked, and nothing follows.
pub commit_entries-AreStamped :
    (format_uint : ℕ → Bytes) (ts : ℕ) (txn : Txn) (es : List Entry)
    → ts < 2 ^ 64
    → All IsWrite (writes_of txn)
    → commit_entries format_uint ts txn ≡ some es
    → (All (λ w. w.version ≡ 0) (writes_of txn)
        × (0 < ts)
        × ((sent : List Entry) × (end : Entry) × (es ≡ sent ++ (end ∷ []))
            × AreStamped true ts (writes_of txn) sent
            × IsEnd ts end))
      ⊎ ((All (λ w. w.version ≡ 0) (writes_of txn) → ⊥) × AreStamped false ts (writes_of txn) es)
unfolding commit_entries fin_entry
commit_entries-AreStamped format_uint ts txn es h a e =
    let ws = writes_of txn in
    let (plain, unset) = unversioned_iff ws in
    elim (Bool-cases (all_unversioned ws)) [
      | inl none_set ↦ elim (Bool-cases (ts == 0)) [
        | inl zero_ts ↦ absurd (cc (rw (none_set, zero_ts) at e))
        | inr given ↦ inl (
          plain none_set,
          ground (arith, given),
          (
            process_entries true ts ws,
            fin_entry format_uint ts,
            sym (eq_of_some (rw (none_set, given) at e)),
            process_entries-AreStamped true ts ws h a,
            record {
              key = parse_key-key_with_ts txn_key ts;
              timestamp = (key_with_ts_parts txn_key ts (omega arith) h).1;
              meta = refl;
            },
          ),
        )
      ]
      | inr some_set ↦ inr (
        (λ all. absurd (cc (unset all))),
        subst (AreStamped false ts ws) (eq_of_some (rw some_set at e))
            (process_entries-AreStamped false ts ws h a),
      )
    ]
