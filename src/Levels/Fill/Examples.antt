-- ===== src/Levels/Fill/Examples.antt =====
-- Choices of tables for compactions.
use pri_zzl_badger.Base.{ℕ, ◌≡◌, ◌≤◌, refl, some, none, List, [], ◌∷◌, ◌++◌, length, set, false}
use pri_zzl_badger.Base.Int.{pos}
use pri_zzl_badger.Table.{Table}
use pri_zzl_badger.Compaction.{
  CompactStatus, CompactDef, new_status, get_key_range, inf_range, empty_range, update_level,
  add_range, ids,
}
use pri_zzl_badger.LevelHandler.{LevelHandler}
use pri_zzl_badger.LevelHandler.Sample.{table_of, two_tables}
use pri_zzl_badger.Levels.Fill.{
  fill_tables, fill_tables_l99, fill_tables_l98, fill_tables_l0_to_l0, passed_over,
}
use pri_zzl_badger.Levels.Fill.Choice.{no_tables, filled, add_or}
use pri_zzl_badger.Levels.Fill.MaxLevel.{MaxLevelEnv}
use pri_zzl_badger.Levels.Fill.Chosen.{
  IsChosen, Among, fill_tables-IsChosen, fill_tables_l98-IsChosen,
}
use pri_zzl_badger.Levels.Fill.Run.{IsBlock, fill_tables_l0_to_l0-IsBlock}

abbrev empty_level : ℕ → LevelHandler
empty_level level = record {
  level = level;
  tables = [];
  total_size = pos 0;
  total_stale_size = pos 0;
}

abbrev fresh_status : CompactStatus
fresh_status = record {
  levels = new_status ∷ new_status ∷ new_status ∷ new_status ∷ [];
  tables = [];
  hot_tier_status = none;
  hot_tier_ord_status = none;
}

-- A hot tier with a table of the keys from 3 to 4, over an ordered tier with the two tables.
abbrev hot : LevelHandler
hot = record (empty_level 98) { tables = table_of 21 3 4 ∷ [] }

abbrev ordered : LevelHandler
ordered = record two_tables { level = 99 }

abbrev from_hot : CompactDef
from_hot = record {
  this_level = 98;
  next_level = 99;
  this_range = get_key_range (table_of 21 3 4 ∷ []);
  next_range = get_key_range (table_of 11 1 5 ∷ []);
  this_size = pos 0;
  top = table_of 21 3 4 ∷ [];
  bot = table_of 11 1 5 ∷ [];
}

abbrev hot_status : CompactStatus
hot_status = record fresh_status {
  tables = 21 ∷ 11 ∷ [];
  hot_tier_status =
      some (record { ranges = get_key_range (table_of 21 3 4 ∷ []) ∷ []; del_size = pos 0 });
  hot_tier_ord_status =
      some (record { ranges = get_key_range (table_of 11 1 5 ∷ []) ∷ []; del_size = pos 0 });
}

hot_choice : fill_tables_l98 fresh_status [] hot ordered ≡ filled from_hot hot_status
unfolding fill_tables_l98 pri_zzl_badger.Levels.Fill.fill_down pri_zzl_badger.Levels.Fill.top_of
    pri_zzl_badger.Levels.Fill.overlap_run pri_zzl_badger.Compaction.extend
    pri_zzl_badger.Compaction.widen pri_zzl_badger.LevelHandler.overlapped
    pri_zzl_badger.LevelHandler.overlapping_tables get_key_range
    pri_zzl_badger.Compaction.overlaps_with pri_zzl_badger.Compaction.is_empty
    pri_zzl_badger.Keys.key_with_ts pri_zzl_badger.Keys.parse_key
    pri_zzl_badger.Compaction.smallest_of pri_zzl_badger.Bytes.be_bytes
    pri_zzl_badger.Compaction.biggest_of pri_zzl_badger.Base.Search.search
    pri_zzl_badger.Base.Search.search_loop pri_zzl_badger.Keys.compare_keys
    pri_zzl_badger.Base.Int.◌+ℤ◌ pri_zzl_badger.Bytes.compare_bytes
    pri_zzl_badger.Compaction.any_overlaps pri_zzl_badger.Compaction.compare_and_add
    pri_zzl_badger.Compaction.enter pri_zzl_badger.Compaction.get_level_status ids
    pri_zzl_badger.Compaction.level_overlaps pri_zzl_badger.Compaction.set_level_status update_level
    pri_zzl_badger.Keys.ts_bytes
hot_choice = refl

fill_tables_l98-IsChosen_example :
    IsChosen fresh_status ordered from_hot hot_status
    × ((rest : List Table) × (hot.tables ≡ from_hot.top ++ rest))
fill_tables_l98-IsChosen_example =
    fill_tables_l98-IsChosen fresh_status [] hot ordered from_hot hot_status hot_choice

-- Level 3 below the two tables, with a table of the keys from 4 to 9.
abbrev below : LevelHandler
below = record (empty_level 3) { tables = table_of 31 4 9 ∷ [] }

abbrev from_two : CompactDef
from_two = record {
  this_level = 2;
  next_level = 3;
  this_range = get_key_range (table_of 11 1 5 ∷ []);
  next_range = get_key_range (table_of 31 4 9 ∷ []);
  this_size = pos 100;
  top = table_of 11 1 5 ∷ [];
  bot = table_of 31 4 9 ∷ [];
}

abbrev two_status : CompactStatus
two_status = record fresh_status {
  levels =
      new_status
      ∷ new_status
      ∷ record { ranges = get_key_range (table_of 11 1 5 ∷ []) ∷ []; del_size = pos 100 }
      ∷ record { ranges = get_key_range (table_of 31 4 9 ∷ []) ∷ []; del_size = pos 0 }
      ∷ [];
  tables = 11 ∷ 31 ∷ [];
}

abbrev env : MaxLevelEnv
env = record { discard_ts = 10; too_new = λ t. false; need_file_sz = pos 1000 }

two_choice : fill_tables 7 env fresh_status two_tables below ≡ filled from_two two_status
unfolding fill_tables pri_zzl_badger.Levels.Fill.fill_each
    pri_zzl_badger.Levels.Fill.sort_by_heuristic pri_zzl_badger.Base.Sort.sort_by
    pri_zzl_badger.Base.Sort.insert_by pri_zzl_badger.LevelHandler.overlapped
    pri_zzl_badger.LevelHandler.overlapping_tables get_key_range
    pri_zzl_badger.Compaction.overlaps_with pri_zzl_badger.Compaction.is_empty
    pri_zzl_badger.Keys.key_with_ts pri_zzl_badger.Keys.parse_key
    pri_zzl_badger.Compaction.smallest_of pri_zzl_badger.Bytes.be_bytes
    pri_zzl_badger.Compaction.biggest_of pri_zzl_badger.Base.Search.search
    pri_zzl_badger.Base.Search.search_loop pri_zzl_badger.Keys.compare_keys
    pri_zzl_badger.Base.Int.◌+ℤ◌ pri_zzl_badger.Bytes.compare_bytes
    pri_zzl_badger.Compaction.any_overlaps pri_zzl_badger.Compaction.compare_and_add
    pri_zzl_badger.Compaction.enter pri_zzl_badger.Compaction.get_level_status ids
    pri_zzl_badger.Compaction.level_overlaps pri_zzl_badger.Compaction.set_level_status update_level
    pri_zzl_badger.Keys.ts_bytes
two_choice = refl

fill_tables-IsChosen_example :
    IsChosen fresh_status below from_two two_status
    × ((t : Table) × (from_two.top ≡ t ∷ []) × Among t two_tables.tables)
fill_tables-IsChosen_example =
    fill_tables-IsChosen 7 env fresh_status two_tables below from_two two_status refl two_choice

abbrev level_zero : LevelHandler
level_zero = record two_tables { level = 0 }

abbrev within_zero : CompactDef
within_zero = record {
  this_level = 0;
  next_level = 0;
  this_range = inf_range;
  next_range = empty_range;
  this_size = pos 0;
  top = level_zero.tables;
  bot = [];
}

abbrev zero_status : CompactStatus
zero_status = record fresh_status {
  levels =
      record { ranges = inf_range ∷ []; del_size = pos 0 }
      ∷ new_status
      ∷ new_status
      ∷ new_status
      ∷ [];
  tables = 11 ∷ 12 ∷ [];
}

zero_choice :
    fill_tables_l0_to_l0 fresh_status 0 (pos 375 ∷ []) (pos 300) (pos 150) level_zero
    ≡ (filled within_zero zero_status, pos 4294967295 ∷ [])
unfolding fill_tables_l0_to_l0 pri_zzl_badger.Levels.Fill.pick passed_over
    pri_zzl_badger.Base.Int.◌+ℤ◌ update_level pri_zzl_badger.Compaction.get_level_status
    pri_zzl_badger.Compaction.set_level_status ids
zero_choice = refl

fill_tables_l0_to_l0-IsBlock_example :
    IsBlock fresh_status (pos 300) within_zero.top level_zero.tables
    × (2 ≤ length within_zero.top)
    × ((a : CompactStatus) × (update_level fresh_status 0 (add_range inf_range) ≡ some a)
        × (zero_status ≡ record a { tables = ids within_zero.top ++ a.tables }))
    × (pos 4294967295 ∷ [] ≡ set (pos 375 ∷ []) 0 (pos 4294967295))
fill_tables_l0_to_l0-IsBlock_example =
    fill_tables_l0_to_l0-IsBlock fresh_status 0 (pos 375 ∷ []) (pos 300) (pos 150) level_zero
      within_zero zero_status (pos 4294967295 ∷ []) zero_choice

-- The last level, whose table has 12 MB of stale data and is large enough.
abbrev stale_table : Table
stale_table = record (table_of 41 1 5) { size = pos 2000; stale_data_size = pos 12582912 }

abbrev last_level : LevelHandler
last_level = record (empty_level 3) { tables = stale_table ∷ [] }

abbrev within_last : CompactDef
within_last = record {
  this_level = 3;
  next_level = 3;
  this_range = get_key_range (stale_table ∷ []);
  next_range = get_key_range (stale_table ∷ []);
  this_size = pos 2000;
  top = stale_table ∷ [];
  bot = [];
}

last_choice :
    fill_tables 4 env fresh_status last_level last_level ≡ add_or fresh_status within_last no_tables
unfolding fill_tables pri_zzl_badger.Levels.Fill.MaxLevel.fill_max_level_tables
    pri_zzl_badger.Levels.Fill.MaxLevel.max_level_each pri_zzl_badger.Levels.Fill.MaxLevel.last_try
    pri_zzl_badger.Levels.Fill.MaxLevel.not_worth
    pri_zzl_badger.Levels.Fill.MaxLevel.sort_by_stale_data_size pri_zzl_badger.Base.Sort.sort_by
    pri_zzl_badger.Base.Sort.insert_by pri_zzl_badger.Compaction.compare_and_add
    pri_zzl_badger.Compaction.level_overlaps pri_zzl_badger.Compaction.get_level_status
    pri_zzl_badger.Compaction.any_overlaps
last_choice = refl
