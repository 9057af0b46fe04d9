-- ===== src/Subcompact/Phases.antt =====
-- subcompact: where a reader of one key at one timestamp stands, round by round.
use Prim.Native.Nat.{Ordering}
use pri_zzl_badger.Base.{
  ℕ, ◌≤◌, ◌≡◌, ◌≢◌, refl, ap, true, false, ◌⊎◌, inl, inr, Option, none, some, List, [], ◌∷◌, ◌++◌,
  arith, length, All,
}
use pri_zzl_badger.Bytes.{Bytes}
use pri_zzl_badger.Keys.{compare_keys, parse_key, parse_ts}
use pri_zzl_badger.Entry.{is_deleted_or_expired}
use pri_zzl_badger.Iter.{KeyValue, seen, is_seen}
use pri_zzl_badger.Iter.Order.{first_of, seen-append}
use pri_zzl_badger.Subcompact.{Env, Scan, Added, has_any_prefixes, at_end}
use pri_zzl_badger.Subcompact.Steps.{HasPointer}

-- The pairs of a table.
unfoldable pub items_of : List Added → List KeyValue
items_of [] = []
items_of (a ∷ as_) = a.item ∷ items_of as_

pub items_of-append : (a b : List Added) → items_of (a ++ b) ≡ items_of a ++ items_of b
unfolding items_of
items_of-append [] b = refl
items_of-append (x ∷ a) b = ap (◌∷◌ x.item) (items_of-append a b)

-- The pair is a deletion or expired, at or below the discard timestamp, and no other table holds
-- keys of the range.
pub record IsObsolete (env : Env) (y : KeyValue) : Type 0 where
  pub old : parse_ts y.key ≤ env.discard_ts
  pub expired : is_deleted_or_expired env.now y.value.meta y.value.expires_at ≡ true
  pub no_overlap : env.has_overlap ≡ false

-- A key with its timestamp, a value pointer that can be decoded, and, for a version of `k`, no
-- dropped prefix and a place in the range of the subcompaction.
pub record IsFine (env : Env) (k : Bytes) (x : KeyValue) : Type 0 where
  pub long : 8 ≤ length x.key
  pub pointer : HasPointer x.value
  pub no_prefix : parse_key x.key ≡ k → has_any_prefixes x.key env.drop_prefixes ≡ false
  pub in_range : parse_key x.key ≡ k → at_end env x.key ≡ false

module _ (env : Env) (k : Bytes) (ts : ℕ) (want : Option KeyValue) where
  -- The reader sees an obsolete pair before the compaction.
  abbrev pub WantsObsolete : Type 0
  WantsObsolete = (y : KeyValue) × (want ≡ some y) × IsObsolete env y

  -- Where the reader stands: `skip` is the skip key, `rest` the pairs to come, and `got` what is
  -- seen in the tables so far.
  pub data Phase (skip : Bytes) (rest : List KeyValue) (got : Option KeyValue) : Type 0 where
    looking :
        got ≡ none
        → (length skip ≢ 0 → parse_key skip ≢ k)
        → seen k ts rest ≡ want
        → Phase skip rest got
    found : (y : KeyValue) → got ≡ some y → want ≡ some y → Phase skip rest got
    gone :
        got ≡ none
        → WantsObsolete
        → parse_key skip ≡ k
        → 8 ≤ length skip
        → All (λ y. compare_keys skip y.key ≡ Ordering.lt) rest
        → Phase skip rest got
    absent : got ≡ none → WantsObsolete → All (λ y. parse_key y.key ≢ k) rest → Phase skip rest got

  abbrev pub total : Option KeyValue → Scan → Option KeyValue
  total before st = first_of before (seen k ts (items_of st.added))

  -- What a round does to the table.
  abbrev pub AddsAtMost : Scan → KeyValue → Scan → Type 0
  AddsAtMost st x s =
      (s.added ≡ st.added) ⊎ ((a : Added) × (a.item ≡ x) × (s.added ≡ st.added ++ (a ∷ [])))

  pub total-unseen :
      (before : Option KeyValue) (st : Scan) (x : KeyValue) (s : Scan)
      → is_seen k ts x ≡ false
      → AddsAtMost st x s
      → total before s ≡ total before st
  unfolding items_of seen
  total-unseen before st x s e (inl same) = rw same refl
  total-unseen before st x s e (inr (a, item, added)) =
      rw
        (
          added,
          items_of-append st.added (a ∷ []),
          item,
          seen-append k ts (items_of st.added) (x ∷ []),
          e,
        )
        (ground arith)

  pub total-seen :
      (before : Option KeyValue) (st : Scan) (x : KeyValue) (s : Scan)
      → is_seen k ts x ≡ true
      → total before st ≡ none
      → (a : Added) → a.item ≡ x
      → s.added ≡ st.added ++ (a ∷ [])
      → total before s ≡ some x
  unfolding items_of seen
  total-seen before st x s e empty a item added =
      rw
        (
          added,
          items_of-append st.added (a ∷ []),
          item,
          seen-append k ts (items_of st.added) (x ∷ []),
          e,
        )
        (ground arith)

  pub total-found :
      (before : Option KeyValue) (st : Scan) (x y : KeyValue) (s : Scan)
      → total before st ≡ some y
      → AddsAtMost st x s
      → total before s ≡ some y
  total-found before st x y s e (inl same) = rw same e
  total-found before st x y s e (inr (a, item, added)) =
      rw
        (
          added,
          items_of-append st.added (a ∷ []),
          seen-append k ts (items_of st.added) (items_of (a ∷ [])),
        )
        (ground arith)
