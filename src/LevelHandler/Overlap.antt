-- ===== src/LevelHandler/Overlap.antt =====
-- overlappingTables on an ordered level: the half-open interval of the tables that meet a range.
use pri_zzl_badger.Base.{ℕ, ◌≤◌, ◌<◌, ◌≡◌, ◌↔◌, some, arith, length, get_elem?, lt_of_get_elem?}
use pri_zzl_badger.Base.Search.{search}
use pri_zzl_badger.Keys.Order.{compare_keys-flip}
use pri_zzl_badger.Table.{Table}
use pri_zzl_badger.Compaction.{KeyRange}
use pri_zzl_badger.LevelHandler.{
  LevelHandler, overlapping_tables, at_index, ends_from, starts_after,
}
use pri_zzl_badger.LevelHandler.Order.{AreDisjoint, UpTo, ends_from-Splits, starts_after-Splits}

-- The table's range and the given one have a key in common.
abbrev pub Meets : KeyRange → Table → Type 0
Meets kr t = UpTo kr.left t.biggest × UpTo t.smallest kr.right

module _ (s : LevelHandler) (kr : KeyRange) (left_given : 0 < length kr.left)
    (right_given : 0 < length kr.right) (ordered : AreDisjoint s.tables) where
  bounds :
      (overlapping_tables s kr).0 ≡ search (length s.tables) (at_index (ends_from kr.left) s.tables)
  unfolding overlapping_tables
  bounds = ground arith

  bounds' :
      (overlapping_tables s kr).1
      ≡ search (length s.tables) (at_index (starts_after kr.right) s.tables)
  unfolding overlapping_tables
  bounds' = ground arith

  ends_from_iff :
      (i : ℕ) (t : Table)
      → get_elem? s.tables i ≡ some t
      → i < length s.tables
      → ((overlapping_tables s kr).0 ≤ i) ↔ UpTo kr.left t.biggest
  ends_from_iff i t at below =
      let v = ends_from-Splits kr.left s.tables ordered in
      (λ h g. ground (arith, at, bounds, v.from i), λ h. ground (arith, at, bounds, v.below i))

  starts_after_iff :
      (i : ℕ) (t : Table)
      → get_elem? s.tables i ≡ some t
      → i < length s.tables
      → (i < (overlapping_tables s kr).1) ↔ UpTo t.smallest kr.right
  starts_after_iff i t at below =
      let v = starts_after-Splits kr.right s.tables ordered in
      (
        λ h g. ground (arith, at, bounds', v.below i, compare_keys-flip t.smallest kr.right),
        λ h. ground (arith, at, bounds', v.from i, compare_keys-flip t.smallest kr.right),
      )

  -- On a level whose tables are in order and apart, and for a range with both ends given, the
  -- interval of overlappingTables holds exactly the indices of the tables that meet the range.
  pub overlapping_tables_iff :
      (i : ℕ) (t : Table)
      → get_elem? s.tables i ≡ some t
      → ((overlapping_tables s kr).0 ≤ i × (i < (overlapping_tables s kr).1)) ↔ Meets kr t
  overlapping_tables_iff i t at =
      let below = lt_of_get_elem? s.tables i at in
      let e = ends_from_iff i t at below in
      let f = starts_after_iff i t at below in (λ h. (e.0 h.0, f.0 h.1), λ h. (e.1 h.0, f.1 h.1))
