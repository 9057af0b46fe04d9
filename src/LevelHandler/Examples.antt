-- ===== src/LevelHandler/Examples.antt =====
-- Levels of two tables.
use mathlib.Core.List.{Perm}
use pri_zzl_badger.Base.{
  ℕ, zero, suc, ◌≡◌, ◌≢◌, ◌≤◌, ◌<◌, ◌↔◌, refl, Bool, true, false, Option, none, some, List, [], ◌∷◌,
  ◌++◌, arith, All, inl, inr, keep_if, elem, not, if◌then◌else◌, ◌==◌, ◌^◌,
}
use pri_zzl_badger.Bytes.{Bytes, compare_bytes}
use pri_zzl_badger.Entry.{ValueStruct}
use pri_zzl_badger.Keys.{compare_keys, key_with_ts}
use pri_zzl_badger.Table.{Files}
use pri_zzl_badger.Compaction.{ids}
use pri_zzl_badger.LevelHandler.{overlapping_tables, replaced}
use pri_zzl_badger.LevelHandler.Overlap.{Meets, overlapping_tables_iff}
use pri_zzl_badger.LevelHandler.Replace.{IsSized, replaced_lem}
use pri_zzl_badger.LevelHandler.Get
use pri_zzl_badger.LevelHandler.Get.{Shelf}
use pri_zzl_badger.LevelHandler.Get.Ordered.{IsNewest, get-IsNewest}
use pri_zzl_badger.LevelHandler.Sample.{
  key, table_of, two_tables, two_tables-AreDisjoint, from_4_to_6, two_tables-IsSized, shelf,
  key-IsKey, two_tables-IsLevel, no_files,
}

overlapping_tables_iff_example : (0 ≤ 0 × (0 < 1)) ↔ Meets from_4_to_6 (table_of 11 1 5)
unfolding key_with_ts overlapping_tables pri_zzl_badger.Bytes.be_bytes
    pri_zzl_badger.Base.Search.search pri_zzl_badger.Base.Search.search_loop compare_keys
    compare_bytes
overlapping_tables_iff_example =
    overlapping_tables_iff two_tables from_4_to_6 (omega arith) (omega arith) two_tables-AreDisjoint
      0 (table_of 11 1 5) refl

replaced_lem_example :
    Perm
      (replaced (table_of 11 1 5 ∷ []) (table_of 13 2 6 ∷ []) two_tables).tables
      (keep_if (λ t. not (elem t.id (11 ∷ []))) two_tables.tables ++ (table_of 13 2 6 ∷ []))
    × IsSized (replaced (table_of 11 1 5 ∷ []) (table_of 13 2 6 ∷ []) two_tables)
unfolding ids
replaced_lem_example =
    replaced_lem (table_of 11 1 5 ∷ []) (table_of 13 2 6 ∷ []) two_tables two_tables-IsSized

get-IsNewest_example :
    (got : Option ValueStruct) × (fs' : Files) × (err : Bool) × (Get.get
        (λ n. false)
        shelf
        (key 5 4)
        two_tables
        no_files
      ≡ some (got, fs', err))
    × IsNewest shelf (key 5 4) got two_tables.tables
get-IsNewest_example =
    get-IsNewest (λ n. false) shelf (key 5 4) two_tables no_files (key-IsKey 5 4 (omega arith))
      two_tables-IsLevel
