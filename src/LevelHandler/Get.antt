-- ===== src/LevelHandler/Get.antt =====
-- level_handler.go, get: the newest version of a key, not after the asked one, in a level. The
-- tables' iterators are the pairs that they go through, and the filters are those of the tables.
pub mod Newest
pub mod Ordered
use pri_zzl_badger.Base.{
  ℕ, Bool, true, false, Option, none, some, List, [], ◌∷◌, ◌++◌, ltb, if◌then◌else◌,
}
use pri_zzl_badger.Bytes.{Bytes}
use pri_zzl_badger.Keys.{parse_key, parse_ts, same_key}
use pri_zzl_badger.Entry.{ValueStruct}
use pri_zzl_badger.Bloom.{Filter, hash}
use pri_zzl_badger.Table.{Table, Files, does_not_have}
use pri_zzl_badger.Iter.{KeyValue, seek}
use pri_zzl_badger.LevelHandler.{LevelHandler, get_table_for_key, decr_refs}

-- What the tables hold: the pairs of their iterators, and the filters of their indices.
pub record Shelf : Type 0 where
  pub contents : Table → List KeyValue
  pub filter : Table → Option Filter

-- maxVs: `none` is the zero value, of version 0.
abbrev pub version_of : Option ValueStruct → ℕ
version_of none = 0
version_of (some vs) = vs.version

-- `maxVs = it.ValueCopy(); maxVs.Version = version`
abbrev pub stamped : KeyValue → ValueStruct
stamped x = record (x.value) { version = parse_ts x.key }

-- What a table's iterator, after its Seek, makes of maxVs.
pub consider : Bytes → Option ValueStruct → List KeyValue → Option ValueStruct
consider key max [] = max
consider key max (x ∷ xs) =
    if same_key key x.key
    then (if ltb (version_of max) (parse_ts x.key) then some (stamped x) else max)
    else max

-- The loop over the tables: the outer `none` is a fault of a filter.
pub get_in : Shelf → Bytes → Option ValueStruct → List Table → Option (Option ValueStruct)
get_in sh key max [] = some max
get_in sh key max (t ∷ ts) = elim (does_not_have (sh.filter t) (hash (parse_key key))) [
  | none ↦ none
  | some true ↦ get_in sh key max ts
  | some false ↦ get_in sh key (consider key max (seek key (sh.contents t))) ts
]

-- get: the answer, the files after its users are gone, and the error of that.
unfoldable pub get :
    (ℕ → Bool) → Shelf → Bytes → LevelHandler → Files → Option (Option ValueStruct × Files × Bool)
get fails sh key s fs =
    let (tables, held) = get_table_for_key key s fs in
    elim (get_in sh key none tables) [
      | none ↦ none
      | some max ↦ let (released, err) = decr_refs fails tables held in some (max, released, err)
    ]
