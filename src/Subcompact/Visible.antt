-- ===== src/Subcompact/Visible.antt =====
-- subcompact: the tables that it builds show a reader at or above the discard timestamp what the
-- compacted tables showed.
use pri_zzl_badger.Base.{
  ℕ, suc, ◌≤◌, ◌≡◌, refl, false, inl, inr, none, some, List, [], ◌∷◌, arith, length, Bool-cases,
  ◌==◌, All,
}
use pri_zzl_badger.Bytes.{Bytes}
use pri_zzl_badger.Bytes.Order.{equal_bytes_iff}
use pri_zzl_badger.Keys.{compare_keys, parse_key}
use pri_zzl_badger.Compaction.{is_lt}
use pri_zzl_badger.Iter.{KeyValue, seen, seek}
use pri_zzl_badger.Iter.Order.{InKeyOrder, seek-InKeyOrder}
use pri_zzl_badger.Subcompact.{Env, Built, build_tables, new_scan, subcompact}
use pri_zzl_badger.Subcompact.Phases.{IsFine, looking}
use pri_zzl_badger.Subcompact.Tables.{all_items, IsPreserved, build_tables-Builds}

-- The version does not lie before the start of the range.
abbrev pub StartsIn : Bytes → Bytes → KeyValue → Type 0
StartsIn left k x = parse_key x.key ≡ k → is_lt (compare_keys x.key left) ≡ false

All-seek :
    (P : KeyValue → Type 0) (left : Bytes) (xs : List KeyValue) → All P xs → All P (seek left xs)
unfolding seek
All-seek P left [] a = tt
All-seek P left (x ∷ xs) a = elim (Bool-cases (is_lt (compare_keys x.key left))) [
  | inl skipped ↦ rw skipped (All-seek P left xs a.1)
  | inr first ↦ rw first a
]

-- A reader of a key that starts in the range misses nothing by the Seek.
seen-seek :
    (left k : Bytes) (ts : ℕ) (xs : List KeyValue)
    → All (StartsIn left k) xs
    → seen k ts (seek left xs) ≡ seen k ts xs
unfolding seek seen
seen-seek left k ts [] a = refl
seen-seek left k ts (x ∷ xs) a =
    ground (arith, a.0, (equal_bytes_iff (parse_key x.key) k).0, seen-seek left k ts xs a.1)

-- A subcompaction of pairs in key order, each with a timestamp in its key and, where its value is
-- a pointer, a whole one; with a builder that has room while it is empty, and without an error of
-- the throttle. It ends, without a fault, and for a reader of a key whose versions lie in the range
-- and under no dropped prefix, at a timestamp at or above the discard timestamp, its tables show
-- what the compacted pairs showed; except that where the reader saw a deleted or expired version
-- at or below the discard timestamp, and nothing overlaps below, it may see nothing at all.
pub subcompact-IsPreserved :
    (env : Env) (left k : Bytes) (ts : ℕ) (items : List KeyValue)
    → env.discard_ts ≤ ts
    → env.reached_capacity [] ≡ false
    → ((n : ℕ) → env.do_fails n ≡ false)
    → All (IsFine env k) items
    → All (StartsIn left k) items
    → InKeyOrder items
    → (b : Built) × (subcompact env left items ≡ some (some b))
      × (b.broken ≡ false)
      × IsPreserved env (seen k ts items) (seen k ts (all_items b.tables))
unfolding subcompact
subcompact-IsPreserved env left k ts items recent room ok f starts o =
    elim (Bool-cases (length left == 0)) [
      | inl all ↦ rw all (from items refl f o)
      | inr some_ ↦ rw some_ (
          from (seek left items) (seen-seek left k ts items starts) (All-seek _ left items f)
            (seek-InKeyOrder left items o))
    ]
  where
    from :
        (start : List KeyValue)
        → seen k ts start ≡ seen k ts items
        → All (IsFine env k) start
        → InKeyOrder start
        → (b : Built) × (build_tables (suc (length start)) env 0 new_scan start ≡ some (some b))
          × (b.broken ≡ false)
          × IsPreserved env (seen k ts items) (seen k ts (all_items b.tables))
    from start same g p =
        build_tables-Builds env k ts (seen k ts items) recent room ok (suc (length start)) 0 none
          new_scan start (omega arith) (looking refl (λ h. absurd (h refl)) same) g p
