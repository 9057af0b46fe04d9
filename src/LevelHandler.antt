-- ===== src/LevelHandler.antt =====
-- level_handler.go: the tables of one level, their total sizes, and the tables a key may be in.
pub mod Order
pub mod Overlap
pub mod Replace
pub mod Get
pub mod Sample
mod Examples
use Prim.Native.Nat.{Ordering}
use pri_zzl_badger.Base.{
  ℕ, suc, ◌-◌, Bool, true, false, ◌||◌, not, Option, none, some, List, [], ◌∷◌, ◌++◌, ltb, leb,
  ◌==◌, if◌then◌else◌, length, get_elem?, elem, keep_if, take, drop,
}
use pri_zzl_badger.Base.Int.{ℤ, pos, ◌+ℤ◌, ◌-ℤ◌}
use pri_zzl_badger.Base.Search.{search}
use pri_zzl_badger.Base.Sort.{sort_by}
use pri_zzl_badger.Bytes.{Bytes}
use pri_zzl_badger.Keys.{compare_keys}
use pri_zzl_badger.Table.{Table, Files, incr_ref, decr_ref}
use pri_zzl_badger.Compaction.{KeyRange, is_lt, is_gt, ids}

-- levelHandler, without its lock and its options.
pub record LevelHandler : Type 0 where
  pub level : ℕ
  pub tables : List Table
  pub total_size : ℤ
  pub total_stale_size : ℤ

-- newLevelHandler
abbrev pub new_level_handler : ℕ → LevelHandler
new_level_handler level = record {
  level = level;
  tables = [];
  total_size = pos 0;
  total_stale_size = pos 0;
}

-- isLastLevel
abbrev pub is_last_level : ℕ → LevelHandler → Bool
is_last_level max_levels s = s.level == max_levels - 1

-- addSize
abbrev pub add_size : Table → LevelHandler → LevelHandler
add_size t s = record s {
  total_size = s.total_size +ℤ t.size;
  total_stale_size = s.total_stale_size +ℤ t.stale_data_size;
}

-- subtractSize
abbrev pub subtract_size : Table → LevelHandler → LevelHandler
subtract_size t s = record s {
  total_size = s.total_size -ℤ t.size;
  total_stale_size = s.total_stale_size -ℤ t.stale_data_size;
}

-- `for _, t := range tables { s.addSize(t) }`
pub add_sizes : List Table → LevelHandler → LevelHandler
add_sizes [] s = s
add_sizes (t ∷ ts) s = add_sizes ts (add_size t s)

-- The order of the tables by id, and by smallest key.
abbrev pub id_less : Table → Table → Bool
id_less a b = ltb a.id b.id

abbrev pub key_less : Table → Table → Bool
key_less a b = is_lt (compare_keys a.smallest b.smallest)

-- The levels whose tables may overlap.
abbrev pub is_unordered : ℕ → Bool
is_unordered level = level == 0 || level == 98

-- initTables
pub init_tables : List Table → LevelHandler → LevelHandler
init_tables tables s =
    let cleared = record s { tables = tables; total_size = pos 0; total_stale_size = pos 0 } in
    let sized = add_sizes tables cleared in
    record sized {
      tables = if is_unordered s.level then sort_by id_less tables else sort_by key_less tables;
    }

-- The loop over `s.tables` of deleteTables and of replaceTables.
pub drop_tables : List ℕ → List Table → LevelHandler → List Table × LevelHandler
drop_tables gone [] s = ([], s)
drop_tables gone (t ∷ ts) s =
    let found = elem t.id gone in
    let (kept, s') = drop_tables gone ts (if found then subtract_size t s else s) in
    (if found then kept else t ∷ kept, s')

-- decrRefs: up to the first error.
unfoldable pub decr_refs : (ℕ → Bool) → List Table → Files → Files × Bool
decr_refs fails [] fs = (fs, false)
decr_refs fails (t ∷ ts) fs =
    let (fs', err) = decr_ref fails t fs in
    let rest = decr_refs fails ts fs' in if err then (fs', true) else rest

-- `for _, t := range tables { t.IncrRef() }`
unfoldable pub incr_refs : List Table → Files → Files
incr_refs [] fs = fs
incr_refs (t ∷ ts) fs = incr_refs ts (incr_ref t fs)

-- deleteTables: the level, and then the files with the error of decrRefs.
pub delete_tables : (ℕ → Bool) → List Table → LevelHandler → Files → LevelHandler × Files × Bool
delete_tables fails to_del s fs =
    let (kept, s') = drop_tables (ids to_del) s.tables s in
    let (fs', err) = decr_refs fails to_del fs in (record s' { tables = kept }, fs', err)

-- replaceTables, up to its unlock: all levels but 98 are sorted by the smallest key.
pub replaced : List Table → List Table → LevelHandler → LevelHandler
replaced to_del to_add s =
    let (kept, s') = drop_tables (ids to_del) s.tables s in
    let tables = kept ++ to_add in
    record (add_sizes to_add s') {
      tables = if s.level == 98 then sort_by id_less tables else sort_by key_less tables;
    }

-- replaceTables
pub replace_tables :
    (ℕ → Bool) → List Table → List Table → LevelHandler → Files → LevelHandler × Files × Bool
replace_tables fails to_del to_add s fs =
    let (fs', err) = decr_refs fails to_del (incr_refs to_add fs) in
    (replaced to_del to_add s, fs', err)

-- addTable
pub add_table : Table → LevelHandler → Files → LevelHandler × Files
add_table t s fs = (record (add_size t s) { tables = s.tables ++ (t ∷ []) }, incr_ref t fs)

-- sortTables
pub sort_tables : LevelHandler → LevelHandler
sort_tables s = record s { tables = sort_by key_less s.tables }

-- tryAddLevel0Table: `none` is the failed assertion that this is level 0; `stall` is the option
-- NumLevelZeroTablesStall.
pub try_add_level0_table : ℕ → Table → LevelHandler → Files → Option (Bool × LevelHandler × Files)
try_add_level0_table stall t s fs =
    if not (s.level == 0)
    then none
    else if leb stall (length s.tables)
    then some (false, s, fs)
    else some (true, record (add_size t s) { tables = s.tables ++ (t ∷ []) }, incr_ref t fs)

-- addHotTable: `none` is the failed assertion that this is a hot level.
pub add_hot_table : Table → LevelHandler → Files → Option (LevelHandler × Files)
add_hot_table t s fs =
    if ltb s.level 98
    then none
    else some (record (add_size t s) { tables = s.tables ++ (t ∷ []) }, incr_ref t fs)

-- A test of the table at an index; indices past the end are not asked for.
abbrev pub at_index : (Table → Bool) → List Table → ℕ → Bool
at_index p tables i = elim (get_elem? tables i) [ none ↦ false | some t ↦ p t ]

-- y.CompareKeys(key, t.Biggest()) <= 0
abbrev pub ends_from : Bytes → Table → Bool
ends_from key t = not (is_gt (compare_keys key t.biggest))

-- y.CompareKeys(key, t.Smallest()) < 0
abbrev pub starts_after : Bytes → Table → Bool
starts_after key t = is_lt (compare_keys key t.smallest)

-- overlappingTables
unfoldable pub overlapping_tables : LevelHandler → KeyRange → ℕ × ℕ
overlapping_tables s kr = if length kr.left == 0 || length kr.right == 0 then (0, 0) else (
  search (length s.tables) (at_index (ends_from kr.left) s.tables),
  search (length s.tables) (at_index (starts_after kr.right) s.tables),
)

-- `s.tables[left:right]` of the indices of overlappingTables, as its callers copy it: `none` is the
-- fault of a negative length.
unfoldable pub overlapped : LevelHandler → KeyRange → Option (List Table)
overlapped s kr =
    let (left, right) = overlapping_tables s kr in
    if ltb right left then none else some (take (right - left) (drop left s.tables))

abbrev pub reverse_tables : List Table → List Table
reverse_tables [] = []
reverse_tables (t ∷ ts) = reverse_tables ts ++ (t ∷ [])

-- The tables that getTableForKey answers.
unfoldable pub tables_for_key : Bytes → LevelHandler → List Table
tables_for_key key s =
    if is_unordered s.level
    then reverse_tables s.tables
    else elim (get_elem? s.tables (
        search (length s.tables)
          (at_index (λ t. not (is_lt (compare_keys t.biggest key))) s.tables))) [
            | none ↦ []
            | some t ↦ t ∷ []
          ]

-- getTableForKey: every table has one more user.
unfoldable pub get_table_for_key : Bytes → LevelHandler → Files → List Table × Files
get_table_for_key key s fs = let tables = tables_for_key key s in (tables, incr_refs tables fs)
