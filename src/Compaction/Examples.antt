-- ===== src/Compaction/Examples.antt =====
-- The status of two compactions.
use Prim.Native.Nat.{Ordering}
use pri_zzl_badger.Base.{
  ℕ, zero, suc, subst, ◌≡◌, ◌≢◌, refl, Bool, true, false, some, none, List, [], ◌∷◌, ◌++◌, arith,
  All,
}
use pri_zzl_badger.Base.Int.{pos}
use pri_zzl_badger.Bytes.{Bytes}
use pri_zzl_badger.Keys.{compare_keys}
use pri_zzl_badger.Table.{Table}
use pri_zzl_badger.Compaction.{
  KeyRange, is_empty, equals, overlaps_with, CompactStatus, LevelCompactStatus, CompactDef,
  new_status, get_level_status, level_overlaps, ids, compare_and_add, delete, enter, update_level,
  set_level_status, leave, unmark, any_overlaps, any_equals, remove_range,
}
use pri_zzl_badger.Compaction.Ranges.{IsRange, Within, Apart}
use pri_zzl_badger.Compaction.Status.{
  AllApart, Fresh, compare_and_add-AllApart, delete-compare_and_add,
}
use pri_zzl_badger.Compaction.SameLevel.{delete-same_level}

-- A key of one byte, with its timestamp zero.
abbrev key : ℕ → Bytes
key b = b ∷ 0 ∷ 0 ∷ 0 ∷ 0 ∷ 0 ∷ 0 ∷ 0 ∷ 0 ∷ []

abbrev range_of : ℕ → ℕ → KeyRange
range_of a b = record { left = key a; right = key b; inf = false }

abbrev table_of : ℕ → Table
table_of i = record {
  id = i;
  smallest = key 1;
  biggest = key 5;
  size = pos 100;
  stale_data_size = pos 0;
  max_version = 0;
}

abbrev fresh_status : CompactStatus
fresh_status = record {
  levels = new_status ∷ new_status ∷ new_status ∷ [];
  tables = [];
  hot_tier_status = none;
  hot_tier_ord_status = none;
}

abbrev downward : CompactDef
downward = record {
  this_level = 1;
  next_level = 2;
  this_range = range_of 1 5;
  next_range = range_of 1 7;
  this_size = pos 100;
  top = table_of 10 ∷ [];
  bot = table_of 11 ∷ [];
}

abbrev entered : CompactStatus
entered = record fresh_status {
  levels =
      new_status
      ∷ record { ranges = range_of 1 5 ∷ []; del_size = pos 100 }
      ∷ record { ranges = range_of 1 7 ∷ []; del_size = pos 0 }
      ∷ [];
  tables = 10 ∷ 11 ∷ [];
}

downward_enters : compare_and_add fresh_status downward ≡ some (true, entered)
unfolding compare_and_add level_overlaps get_level_status any_overlaps enter update_level
    set_level_status pri_zzl_badger.Base.Int.◌+ℤ◌ ids
downward_enters = refl

this-IsRange : IsRange (range_of 1 5)
unfolding is_empty compare_keys pri_zzl_badger.Bytes.compare_bytes
this-IsRange = record { not_empty = refl; ordered = λ h. refl }

next-IsRange : IsRange (range_of 1 7)
unfolding is_empty compare_keys pri_zzl_badger.Bytes.compare_bytes
next-IsRange = record { not_empty = refl; ordered = λ h. refl }

fresh_ranges :
    (m : ℕ) (s : LevelCompactStatus) → get_level_status fresh_status m ≡ some s → [] ≡ s.ranges
unfolding get_level_status
fresh_ranges zero s at = ground arith
fresh_ranges (suc zero) s at = ground arith
fresh_ranges (suc (suc zero)) s at = ground arith
fresh_ranges (suc (suc (suc m))) s at = ground arith

fresh-AllApart : AllApart fresh_status
fresh-AllApart m s at = subst Apart (fresh_ranges m s at) tt

compare_and_add-AllApart_example : AllApart entered
compare_and_add-AllApart_example =
    compare_and_add-AllApart fresh_status downward entered (omega arith) fresh-AllApart
      downward_enters

downward-Fresh : Fresh (ids (downward.top ++ downward.bot)) fresh_status.tables
unfolding ids
downward-Fresh = (refl, (refl, tt))

delete-compare_and_add_example :
    (u : CompactStatus) × (delete entered downward ≡ some u)
    × ((m : ℕ) → get_level_status u m ≡ get_level_status fresh_status m)
    × (u.tables ≡ fresh_status.tables)
delete-compare_and_add_example =
    delete-compare_and_add fresh_status downward entered (omega arith) this-IsRange next-IsRange
      downward-Fresh downward_enters

-- A compaction within the last level that takes a neighbouring table along.
abbrev within : CompactDef
within = record downward { this_level = 2; this_range = range_of 1 5; next_range = range_of 1 9 }

abbrev within_entered : CompactStatus
within_entered = record fresh_status {
  levels =
      new_status
      ∷ new_status
      ∷ record { ranges = range_of 1 5 ∷ range_of 1 9 ∷ []; del_size = pos 100 }
      ∷ [];
  tables = 10 ∷ 11 ∷ [];
}

abbrev within_left : CompactStatus
within_left = record fresh_status {
  levels = new_status ∷ new_status ∷ record { ranges = range_of 1 9 ∷ []; del_size = pos 0 } ∷ [];
}

within_enters : compare_and_add fresh_status within ≡ some (true, within_entered)
unfolding compare_and_add level_overlaps get_level_status any_overlaps enter update_level
    set_level_status pri_zzl_badger.Base.Int.◌+ℤ◌ ids
within_enters = refl

within_leaves : delete within_entered within ≡ some within_left
unfolding delete leave get_level_status any_equals equals pri_zzl_badger.Bytes.equal_bytes unmark
    ids set_level_status remove_range pri_zzl_badger.Base.Int.◌-ℤ◌
within_leaves = refl

within_differs : equals (range_of 1 9) (range_of 1 5) ≡ false
unfolding equals pri_zzl_badger.Bytes.equal_bytes
within_differs = refl

within_self : overlaps_with (range_of 1 9) (range_of 1 9) ≡ true
unfolding overlaps_with is_empty compare_keys pri_zzl_badger.Bytes.compare_bytes
within_self = refl

delete-same_level_example : level_overlaps within_left 2 (range_of 1 9) ≡ some true
delete-same_level_example =
    delete-same_level fresh_status within within_entered within_left refl within_differs within_self
      within_enters within_leaves

lt_not_gt : (c : Ordering) → c ≡ Ordering.lt → c ≢ Ordering.gt
lt_not_gt c l = ground arith

key-Within : Within (key 3) (range_of 1 5)
unfolding is_empty compare_keys pri_zzl_badger.Bytes.compare_bytes
key-Within = record {
  not_empty = refl;
  low = λ h. lt_not_gt (compare_keys (key 1) (key 3)) refl;
  high = λ h. lt_not_gt (compare_keys (key 3) (key 5)) refl;
}
