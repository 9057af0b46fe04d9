-- ===== src/Levels/Fill.antt =====
-- levels.go, fillTables and its kin: which tables a compaction takes. A level's status is changed
-- when the tables are chosen, and only then.
pub mod Choice
pub mod MaxLevel
pub mod Chosen
pub mod Run
mod Examples
use pri_zzl_badger.Base.{
  ℕ, zero, suc, ◌-◌, ◌*◌, ◌^◌, Bool, true, false, ◌&&◌, ◌||◌, not, Option, none, some, List, [],
  ◌∷◌, ◌++◌, ltb, leb, ◌==◌, if◌then◌else◌, length, elem, set,
}
use pri_zzl_badger.Base.Int.{ℤ, pos, ◌+ℤ◌, leb_ℤ}
use pri_zzl_badger.Base.Search.{search}
use pri_zzl_badger.Base.Sort.{sort_by}
use pri_zzl_badger.Bytes.{Bytes}
use pri_zzl_badger.Keys.{compare_keys}
use pri_zzl_badger.Table.{Table}
use pri_zzl_badger.Compaction.{
  KeyRange, empty_range, inf_range, get_key_range, overlaps_with, extend, is_lt, CompactStatus,
  CompactDef, level_overlaps, compare_and_add, update_level, add_range, ids,
}
use pri_zzl_badger.LevelHandler.{LevelHandler, overlapped, is_last_level}
use pri_zzl_badger.Levels.Fill.Choice.{Filled, fault, no_tables, filled, add_or, is_nil}
use pri_zzl_badger.Levels.Fill.MaxLevel.{MaxLevelEnv, fill_max_level_tables}

-- The range of the tables of the next level, or this range where there are none.
abbrev pub next_range_of : KeyRange → List Table → KeyRange
next_range_of this [] = this
next_range_of this (b ∷ bs) = get_key_range (b ∷ bs)

-- sortByHeuristic, with a next level: the tables of the oldest versions first.
pub sort_by_heuristic : List Table → List Table
sort_by_heuristic ts = sort_by (λ a b. ltb a.max_version b.max_version) ts

-- The compaction of one table with the tables below it that meet its range.
abbrev pub single : LevelHandler → LevelHandler → Table → List Table → CompactDef
single this next t bot = record {
  this_level = this.level;
  next_level = next.level;
  this_range = get_key_range (t ∷ []);
  next_range = next_range_of (get_key_range (t ∷ [])) bot;
  this_size = t.size;
  top = t ∷ [];
  bot = bot;
}

-- The loop of fillTables and of fillTablesL99 over the sorted tables.
pub fill_each : CompactStatus → LevelHandler → LevelHandler → List Table → Filled
fill_each cs this next [] = no_tables
fill_each cs this next (t ∷ ts) = elim (level_overlaps cs this.level (get_key_range (t ∷ []))) [
  | none ↦ fault
  | some true ↦ fill_each cs this next ts
  | some false ↦ elim (overlapped next (get_key_range (t ∷ []))) [
    | none ↦ fault
    | some bot ↦
        let cd = single this next t bot in
        let rest = fill_each cs this next ts in
        if is_nil bot
        then add_or cs cd rest
        else elim (level_overlaps cs next.level cd.next_range) [
          | none ↦ fault
          | some true ↦ rest
          | some false ↦ add_or cs cd rest
        ]
  ]
]

-- fillTablesL99
pub fill_tables_l99 : CompactStatus → LevelHandler → LevelHandler → Filled
fill_tables_l99 cs this next =
    if is_nil this.tables then no_tables else fill_each cs this next (sort_by_heuristic this.tables)

-- fillTables
pub fill_tables : ℕ → MaxLevelEnv → CompactStatus → LevelHandler → LevelHandler → Filled
fill_tables max_levels env cs this next =
    if is_nil this.tables
    then no_tables
    else if is_last_level max_levels this
    then fill_max_level_tables cs env this.tables this next
    else fill_each cs this next (sort_by_heuristic this.tables)

-- The tables at the front, as long as each meets the range of those before it.
pub overlap_run : KeyRange → List Table → List Table
overlap_run kr [] = []
overlap_run kr (t ∷ ts) =
    let dkr = get_key_range (t ∷ []) in
    let rest = overlap_run (extend kr dkr) ts in if overlaps_with kr dkr then t ∷ rest else []

-- The tables that fillTablesL0ToLbase and fillTablesL98 take: all of them to drop prefixes.
pub top_of : List Bytes → List Table → List Table
top_of [] tables = overlap_run empty_range tables
top_of (p ∷ ps) tables = tables

-- The end of both: the tables below, and the two ranges.
pub fill_down : CompactStatus → LevelHandler → LevelHandler → List Table → Filled
fill_down cs this next out = elim (overlapped next (get_key_range out)) [
  | none ↦ fault
  | some bot ↦
      add_or cs
        (record {
          this_level = this.level;
          next_level = next.level;
          this_range = get_key_range out;
          next_range = next_range_of (get_key_range out) bot;
          this_size = pos 0;
          top = out;
          bot = bot;
        })
        no_tables
]

-- fillTablesL98: a target level 0 is a panic.
pub fill_tables_l98 : CompactStatus → List Bytes → LevelHandler → LevelHandler → Filled
fill_tables_l98 cs drop_prefixes this next =
    if next.level == 0
    then fault
    else if is_nil this.tables
    then no_tables
    else fill_down cs this next (top_of drop_prefixes this.tables)

-- `t.Size() < size`
abbrev pub smaller : ℤ → Table → Bool
smaller size t = not (leb_ℤ size t.size)

abbrev first_smaller : ℤ → List Table → Bool
first_smaller size [] = false
first_smaller size (t ∷ ts) = smaller size t

-- fillTablesL0ToLbase: `low_score` is the test on the adjusted score, and `target_size` the product
-- of 0.8 and the file size of level 0, both in floating point.
pub fill_tables_l0_to_lbase :
    CompactStatus → Bool → ℤ → List Bytes → LevelHandler → LevelHandler → Filled
fill_tables_l0_to_lbase cs low_score target_size drop_prefixes this next =
    if next.level == 0
    then fault
    else if low_score
    then no_tables
    else if is_nil this.tables
    then no_tables
    else if first_smaller target_size this.tables
    then no_tables
    else fill_down cs this next (top_of drop_prefixes this.tables)

-- The loops of fillTablesL0ToL0 over the tables: those that `skip` names are passed over until one
-- is taken, and end the loop after that.
pub pick : (Table → Bool) → ℤ → List Table → ℤ → List Table → List Table × ℤ
pick skip target out size [] = (out, size)
pick skip target out size (t ∷ ts) =
    let size' = size +ℤ t.size in
    let next = pick skip target out size ts in
    let taken = pick skip target (out ++ (t ∷ [])) size' ts in
    if skip t
    then (if is_nil out then next else (out, size))
    else if leb_ℤ target size'
    then (out ++ (t ∷ []), size')
    else taken

-- The tables that a loop passes over: those under compaction, and, where the first table is large,
-- the large ones.
pub passed_over : CompactStatus → ℤ → List Table → Table → Bool
passed_over cs target top t =
    elem t.id cs.tables
    || not (is_nil top) && not (first_smaller target top) && not (smaller target t)

-- fillTablesL0ToL0, by the worker 0: `half` is target_size / 2, and `file_sz` the file sizes of the
-- compaction's targets. The range is entered without a check, so that no other compaction of level 0
-- can start; and the output is to be one file, of any size.
pub fill_tables_l0_to_l0 : CompactStatus → ℕ → List ℤ → ℤ → ℤ → LevelHandler → Filled × List ℤ
fill_tables_l0_to_l0 cs compactor_id file_sz target_size half this =
    let (out, size) =
      pick (passed_over cs target_size this.tables) target_size [] (pos 0) this.tables in
    if not (compactor_id == 0)
    then (no_tables, file_sz)
    else if not (this.level == 0)
    then (fault, file_sz)
    else if ltb (length out) 2
    then (no_tables, file_sz)
    else if ltb (length out) 4 && not (leb_ℤ half size)
    then (no_tables, file_sz)
    else elim (update_level cs 0 (add_range inf_range)) [
      | none ↦ (fault, file_sz)
      | some a ↦ (
        filled
            (record {
              this_level = 0;
              next_level = 0;
              this_range = inf_range;
              next_range = empty_range;
              this_size = pos 0;
              top = out;
              bot = [];
            })
            (record a { tables = ids out ++ a.tables }),
        set file_sz 0 (pos (2 ^ 32 - 1)),
      )
    ]

-- fillTablesL0
pub fill_tables_l0 :
    CompactStatus
    → Bool
    → List ℤ
    → ℤ
    → ℤ
    → List Bytes
    → ℕ
    → LevelHandler
    → LevelHandler
    → Filled × List ℤ
fill_tables_l0 cs low_score file_sz target_size half drop_prefixes compactor_id this next =
    elim (fill_tables_l0_to_lbase cs low_score target_size drop_prefixes this next) [
      | fault ↦ (fault, file_sz)
      | no_tables ↦ fill_tables_l0_to_l0 cs compactor_id file_sz target_size half this
      | filled cd cs' ↦ (filled cd cs', file_sz)
    ]
