-- ===== src/Levels.antt =====
-- levels.go: the levels controller. The main levels, the two hot tiers beside them (98, whose
-- tables may overlap, and 99, whose tables are ordered), and what is asked of them together.
pub mod Get
pub mod Overlap
pub mod Fill
mod Examples
use pri_zzl_badger.Base.{
  ℕ, zero, suc, ◌-◌, Bool, true, false, ◌&&◌, ◌||◌, not, Option, none, some, List, [], ◌∷◌, ◌++◌,
  ltb, leb, ◌==◌, if◌then◌else◌, length,
}
use pri_zzl_badger.Base.Int.{ℤ, pos}
use pri_zzl_badger.Bytes.{Bytes}
use pri_zzl_badger.Keys.{parse_ts}
use pri_zzl_badger.Entry.{ValueStruct}
use pri_zzl_badger.Table.{Table, Files}
use pri_zzl_badger.Compaction.{KeyRange, get_key_range, overlaps_with}
use pri_zzl_badger.Manifest.{ManifestChange, new_create_change, new_delete_change}
use pri_zzl_badger.LevelHandler.{LevelHandler, overlapping_tables, decr_refs}
use pri_zzl_badger.LevelHandler.Get as LevelGet
use pri_zzl_badger.LevelHandler.Get.{Shelf, version_of}

-- levelsController, without its status, which Compaction models, and its database. The main levels
-- stand at their own indices.
pub record LevelsController : Type 0 where
  pub levels : List LevelHandler
  pub hot_tier : Option LevelHandler
  pub hot_tier_ord : Option LevelHandler

-- What get answers: a fault, an error, or the newest version, `none` for the zero value.
pub data Answer : Type 0 where
  fault : Answer
  failed : Files → Answer
  answer : Option ValueStruct → Files → Answer

-- A level's get as an Answer.
pub level_get : (ℕ → Bool) → Shelf → Bytes → LevelHandler → Files → Answer
level_get fails sh key s fs = elim (LevelGet.get fails sh key s fs) [
  | none ↦ fault
  | some (got, fs', true) ↦ failed fs'
  | some (got, fs', false) ↦ answer got fs'
]

-- getHotTier: the second tier is asked only if the first has no version above 0.
pub get_hot_tier : (ℕ → Bool) → Shelf → Bytes → LevelHandler → Option LevelHandler → Files → Answer
get_hot_tier fails sh key hot ord fs = elim (level_get fails sh key hot fs) [
  | fault ↦ fault
  | failed fs' ↦ failed fs'
  | answer vs fs' ↦
      if ltb 0 (version_of vs)
      then answer vs fs'
      else elim ord [ none ↦ fault | some h ↦ level_get fails sh key h fs' ]
]

-- `if maxVs.Version < vs.Version { maxVs = vs }`
abbrev pub newer : Option ValueStruct → ValueStruct → Option ValueStruct
newer max vs = if ltb (version_of max) vs.version then some vs else max

-- The loop of get over the levels from `start_level` on.
pub get_levels :
    (ℕ → Bool) → Shelf → Bytes → ℕ → Option ValueStruct → List LevelHandler → Files → Answer
get_levels fails sh key start_level max [] fs = answer max fs
get_levels fails sh key start_level max (h ∷ hs) fs = elim (ltb h.level start_level) [
  | true ↦ get_levels fails sh key start_level max hs fs
  | false ↦ elim (level_get fails sh key h fs) [
    | fault ↦ fault
    | failed fs' ↦ failed fs'
    | answer none fs' ↦ get_levels fails sh key start_level max hs fs'
    | answer (some vs) fs' ↦ elim (vs.version == parse_ts key) [
      | true ↦ answer (some vs) fs'
      | false ↦ get_levels fails sh key start_level (newer max vs) hs fs'
    ]
  ]
]

-- get of an open database; a version that was found has a value that is not nil.
pub get : (ℕ → Bool) → Shelf → Bytes → Option ValueStruct → ℕ → LevelsController → Files → Answer
get fails sh key max start_level s fs = elim s.hot_tier [
  | none ↦ get_levels fails sh key start_level max s.levels fs
  | some hot ↦ elim (get_hot_tier fails sh key hot s.hot_tier_ord fs) [
    | fault ↦ fault
    | failed fs' ↦ failed fs'
    | answer none fs' ↦ get_levels fails sh key start_level max s.levels fs'
    | answer (some vs) fs' ↦ elim (vs.version == parse_ts key) [
      | true ↦ answer (some vs) fs'
      | false ↦ get_levels fails sh key start_level (newer max vs) s.levels fs'
    ]
  ]
]

-- `for _, t := range tables { if getKeyRange(t).overlapsWith(kr) { hasOverlap = true; break } }`
pub any_table_overlaps : KeyRange → List Table → Bool
any_table_overlaps kr [] = false
any_table_overlaps kr (t ∷ ts) =
    overlaps_with (get_key_range (t ∷ [])) kr || any_table_overlaps kr ts

-- `right-left > 0` of overlappingTables.
abbrev pub meets_ordered : KeyRange → LevelHandler → Bool
meets_ordered kr lh = let (left, right) = overlapping_tables lh kr in ltb left right

-- The loop of checkOverlap over the main levels, from index `i` on.
pub main_overlap : KeyRange → ℕ → ℕ → ℕ → List LevelHandler → Bool
main_overlap kr lev current_lev i [] = false
main_overlap kr lev current_lev i (lh ∷ lhs) =
    let rest = main_overlap kr lev current_lev (suc i) lhs in
    if ltb current_lev 98 && ltb i lev
    then rest
    else (if i == 0 then any_table_overlaps kr lh.tables else meets_ordered kr lh) || rest

-- checkOverlap
pub check_overlap : List Table → ℕ → ℕ → ℕ → LevelsController → Bool
check_overlap tables lev current_lev base_level s =
    let kr = get_key_range tables in
    main_overlap kr lev current_lev 0 s.levels
    || ltb current_lev base_level
      && (elim s.hot_tier [ none ↦ false | some h ↦ any_table_overlaps kr h.tables ]
          || elim s.hot_tier_ord [ none ↦ false | some h ↦ meets_ordered kr h ])

-- What buildChangeSet reads of a new table.
pub record NewTable : Type 0 where
  pub id : ℕ
  pub key_id : ℕ
  pub compression : ℕ

pub create_changes : ℕ → List NewTable → List ManifestChange
create_changes level [] = []
create_changes level (t ∷ ts) =
    new_create_change t.id level t.key_id t.compression ∷ create_changes level ts

pub delete_changes : List Table → List ManifestChange
delete_changes [] = []
delete_changes (t ∷ ts) = new_delete_change t.id ∷ delete_changes ts

-- `if !table.IsInmemory`
pub delete_on_disk : (Table → Bool) → List Table → List ManifestChange
delete_on_disk in_memory [] = []
delete_on_disk in_memory (t ∷ ts) =
    let rest = delete_on_disk in_memory ts in
    if in_memory t then rest else new_delete_change t.id ∷ rest

-- buildChangeSet, of the number of the next level and the tables of the compaction.
pub build_change_set :
    (Table → Bool) → ℕ → List Table → List Table → List NewTable → List ManifestChange
build_change_set in_memory next_level top bot new_tables =
    create_changes next_level new_tables ++ (delete_on_disk in_memory top ++ delete_changes bot)

-- The tables of the main levels.
pub main_tables : List LevelHandler → List Table
main_tables [] = []
main_tables (l ∷ ls) = l.tables ++ main_tables ls

-- dropTree: the changes for the manifest, before anything is taken away.
pub drop_changes : (Table → Bool) → LevelsController → List ManifestChange
drop_changes in_memory s = delete_on_disk in_memory (main_tables s.levels)

pub emptied : List LevelHandler → List LevelHandler
emptied [] = []
emptied (l ∷ ls) = record l { total_size = pos 0; tables = [] } ∷ emptied ls

-- dropTree, once the manifest has the changes: the number of the tables, and the error of DecrRef
-- with the number 0.
pub drop_tree : (ℕ → Bool) → LevelsController → Files → (ℕ × Bool) × LevelsController × Files
drop_tree fails s fs =
    let all = main_tables s.levels in
    let (fs', err) = decr_refs fails all fs in
    if length all == 0 then ((0, false), s, fs) else (
      if err then (0, true) else (length all, false),
      record s { levels = emptied s.levels },
      fs',
    )
