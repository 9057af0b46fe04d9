-- ===== src/Levels/Fill/MaxLevel.antt =====
-- levels.go, fillMaxLevelTables: the compaction of the last level into itself, which starts from a
-- table with much stale data and takes those after it until the size is reached.
use pri_zzl_badger.Base.{
  ℕ, suc, ◌*◌, ◌^◌, Bool, true, false, ◌&&◌, ◌||◌, not, Option, none, some, List, [], ◌∷◌, ◌++◌,
  ltb, ◌==◌, if◌then◌else◌, length, get_elem?, drop,
}
use pri_zzl_badger.Base.Int.{ℤ, pos, ◌+ℤ◌, leb_ℤ}
use pri_zzl_badger.Base.Search.{search}
use pri_zzl_badger.Base.Sort.{sort_by}
use pri_zzl_badger.Keys.{compare_keys}
use pri_zzl_badger.Table.{Table}
use pri_zzl_badger.Compaction.{
  empty_range, get_key_range, extend, is_lt, CompactStatus, CompactDef, level_overlaps,
}
use pri_zzl_badger.LevelHandler.{LevelHandler, at_index}
use pri_zzl_badger.Levels.Fill.Choice.{Filled, fault, no_tables, add_or, is_nil}

-- discardAtOrBelow of the oracle, whether a table was created less than an hour ago, and the file
-- size of the level.
pub record MaxLevelEnv : Type 0 where
  pub discard_ts : ℕ
  pub too_new : Table → Bool
  pub need_file_sz : ℤ

-- sortByStaleDataSize: the tables with the most stale data first.
unfoldable pub sort_by_stale_data_size : List Table → List Table
sort_by_stale_data_size ts = sort_by (λ a b. not (leb_ℤ a.stale_data_size b.stale_data_size)) ts

-- The loop of collectBotTables over the tables after the first one.
pub collect : ℤ → ℤ → List Table → CompactDef → CompactDef
collect need_sz total_size [] cd = cd
collect need_sz total_size (new_t ∷ ts) cd =
    let total = total_size +ℤ new_t.size in
    let more = collect need_sz total ts (record cd {
      bot = cd.bot ++ (new_t ∷ []);
      next_range = extend cd.next_range (get_key_range (new_t ∷ []));
    }) in
    if leb_ℤ need_sz total then cd else more

-- collectBotTables: `none` is the failed assertion, or the index fault, on the table's place.
pub collect_bot_tables : List Table → Table → ℤ → CompactDef → Option CompactDef
collect_bot_tables tables t need_sz cd =
    let j =
      search (length tables)
        (at_index (λ u. not (is_lt (compare_keys u.smallest t.smallest))) tables) in
    elim (get_elem? tables j) [
      | none ↦ none
      | some u ↦
          if u.id == t.id then some (collect need_sz t.size (drop (suc j) tables) cd) else none
    ]

-- The tables that the loop passes over: nothing in them can be discarded, or too little, or they
-- are too new.
unfoldable pub not_worth : MaxLevelEnv → Table → Bool
not_worth env t =
    ltb env.discard_ts t.max_version
    || env.too_new t
    || not (leb_ℤ (pos (10 * 2 ^ 20)) t.stale_data_size)

-- What follows the loop.
unfoldable pub last_try : CompactStatus → CompactDef → Filled
last_try cs cd = if is_nil cd.top then no_tables else add_or cs cd no_tables

-- The loop over the sorted tables; `cd` is what the rounds before have left of the compaction.
unfoldable pub max_level_each :
    CompactStatus → MaxLevelEnv → List Table → CompactDef → List Table → Filled
max_level_each cs env tables cd [] = last_try cs cd
max_level_each cs env tables cd (t ∷ ts) =
    let kr = get_key_range (t ∷ []) in
    let ranged = record cd { this_size = t.size; this_range = kr; next_range = kr } in
    let found = record ranged { top = t ∷ [] } in
    let passed = max_level_each cs env tables cd ts in
    let busy = max_level_each cs env tables ranged ts in
    let tried : Filled = elim (collect_bot_tables tables t env.need_file_sz found) [
      | none ↦ fault
      | some c ↦
          add_or cs c
            (max_level_each cs env tables (record c { bot = []; next_range = empty_range }) ts)
    ] in
    if not_worth env t then passed else elim (level_overlaps cs cd.this_level kr) [
      | none ↦ fault
      | some true ↦ busy
      | some false ↦ if leb_ℤ env.need_file_sz t.size then last_try cs found else tried
    ]

unfoldable pub no_stale_data : List Table → Bool
no_stale_data [] = false
no_stale_data (t ∷ ts) = leb_ℤ t.stale_data_size (pos 0) && leb_ℤ (pos 0) t.stale_data_size

-- fillMaxLevelTables
unfoldable pub fill_max_level_tables :
    CompactStatus → MaxLevelEnv → List Table → LevelHandler → LevelHandler → Filled
unfolding no_stale_data
fill_max_level_tables cs env tables this next =
    let sorted_tables = sort_by_stale_data_size tables in
    let cd : CompactDef = record {
      this_level = this.level;
      next_level = next.level;
      this_range = empty_range;
      next_range = empty_range;
      this_size = pos 0;
      top = [];
      bot = [];
    } in
    if no_stale_data sorted_tables then no_tables else max_level_each cs env tables cd sorted_tables
