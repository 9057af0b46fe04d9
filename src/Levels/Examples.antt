-- ===== src/Levels/Examples.antt =====
-- A tree with tables on one of its levels.
use pri_zzl_badger.Base.{
  ℕ, ◌≡◌, ◌≢◌, ◌≤◌, ◌<◌, refl, Bool, true, false, Option, some, none, List, [], ◌∷◌, ◌++◌, arith,
  All, inl, inr, length,
}
use pri_zzl_badger.Base.Int.{pos}
use pri_zzl_badger.Bytes.{Bytes, compare_bytes}
use pri_zzl_badger.Keys.{key_with_ts, compare_keys, parse_key}
use pri_zzl_badger.Entry.{ValueStruct}
use pri_zzl_badger.Table.{Files}
use pri_zzl_badger.Compaction.{
  CompactStatus, CompactDef, KeyRange, new_status, get_key_range, inf_range, empty_range,
  update_level, add_range, ids, compare_and_add,
}
use pri_zzl_badger.LevelHandler.{LevelHandler}
use pri_zzl_badger.LevelHandler.Sample.{
  key, table_of, two_tables, two_tables-AreDisjoint, shelf, key-IsKey, two_tables-IsLevel, no_files,
  not_gt,
}
use pri_zzl_badger.LevelHandler.Get.Ordered.{IsLevel}
use pri_zzl_badger.Levels.{LevelsController, Answer, answer, get, check_overlap}
use pri_zzl_badger.Levels.Get.{NewestOver}
use pri_zzl_badger.Levels.Get.Whole.{get-NewestOver}
use pri_zzl_badger.Levels.Overlap.{check_overlap_sound, Spans}

abbrev empty_level : ℕ → LevelHandler
empty_level level = record {
  level = level;
  tables = [];
  total_size = pos 0;
  total_stale_size = pos 0;
}

abbrev tree : LevelsController
tree = record {
  levels = empty_level 0 ∷ two_tables ∷ [];
  hot_tier = some (empty_level 98);
  hot_tier_ord = some (empty_level 99);
}

empty_level-IsLevel : (level : ℕ) → IsLevel shelf (empty_level level)
empty_level-IsLevel level = record { tables = tt; apart = λ h. tt }

get-NewestOver_example :
    (got : Option ValueStruct) × (fs' : Files) × (get
        (λ n. false)
        shelf
        (key 5 4)
        none
        0
        tree
        no_files
      ≡ answer got fs')
    × NewestOver shelf (key 5 4) none got (empty_level 98 ∷ empty_level 99 ∷ tree.levels)
get-NewestOver_example =
    get-NewestOver (λ n. false) shelf (key 5 4) tree (empty_level 98) (empty_level 99) (λ n. refl)
      (key-IsKey 5 4 (omega arith)) refl refl (empty_level-IsLevel 98) (empty_level-IsLevel 99) tt
      (empty_level-IsLevel 0, (two_tables-IsLevel, tt)) none no_files (omega arith)

-- A table of the keys from 6 to 7 overlaps with neither table of the tree.
nothing_below : check_overlap (table_of 20 6 7 ∷ []) 1 0 0 tree ≡ false
unfolding check_overlap pri_zzl_badger.Levels.main_overlap
    pri_zzl_badger.LevelHandler.overlapping_tables get_key_range key_with_ts parse_key
    pri_zzl_badger.Compaction.smallest_of pri_zzl_badger.Bytes.be_bytes
    pri_zzl_badger.Compaction.biggest_of pri_zzl_badger.Base.Search.search
    pri_zzl_badger.Base.Search.search_loop compare_keys compare_bytes
nothing_below = refl

check_overlap_sound_example : ¬ Spans (table_of 11 1 5) (key 6 5)
unfolding compare_keys key_with_ts pri_zzl_badger.Bytes.be_bytes compare_bytes get_key_range
    pri_zzl_badger.Compaction.smallest_of pri_zzl_badger.Compaction.biggest_of
check_overlap_sound_example =
    check_overlap_sound (table_of 20 6 7) [] 1 0 0 tree nothing_below 1 0 two_tables
      (table_of 11 1 5) (key 6 5) refl refl (inr (omega arith)) (λ h. two_tables-AreDisjoint)
      (key-IsKey 1 7 (omega arith)) (key-IsKey 5 3 (omega arith))
      (
        not_gt (compare_keys (get_key_range (table_of 20 6 7 ∷ [])).left (key 6 5)) refl,
        not_gt (compare_keys (key 6 5) (get_key_range (table_of 20 6 7 ∷ [])).right) refl,
      )
