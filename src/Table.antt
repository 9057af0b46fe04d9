-- ===== src/Table.antt =====
-- table/table.go: what the levels know of a table without opening it, and the count of its users.
use pri_zzl_badger.Base.{
  ℕ, Bool, true, false, Option, none, some, List, ◌∷◌, NatMap, lookup, insert, not, if◌then◌else◌,
}
use pri_zzl_badger.Base.Int.{ℤ, pos, suc_ℤ, pred_ℤ}
use pri_zzl_badger.Bytes.{Bytes}
use pri_zzl_badger.Bloom.{Filter, may_contain}
use mathlib.Core.Option

-- The fields that ID, Smallest, Biggest, Size, StaleDataSize, MaxVersion and IncrRef read.
pub record Table : Type 0 where
  pub id : ℕ
  pub smallest : Bytes
  pub biggest : Bytes
  pub size : ℤ
  pub stale_data_size : ℤ
  pub max_version : ℕ

-- The reference counts of the tables, by their ids, and the tables whose files were deleted.
pub record Files : Type 0 where
  pub refs : NatMap ℤ
  pub deleted : List ℕ

abbrev pub refs_of : Files → ℕ → ℤ
refs_of fs id = elim (lookup id fs.refs) [ none ↦ pos 0 | some n ↦ n ]

-- IncrRef
unfoldable pub incr_ref : Table → Files → Files
incr_ref t fs = record fs { refs = insert t.id (suc_ℤ (refs_of fs t.id)) fs.refs }

abbrev is_zero : ℤ → Bool
is_zero (pos ℕ.zero) = true
is_zero n = false

-- DecrRef: the last user deletes the file, which fails for the tables of `fails`. The flag is the
-- error. The cached blocks of the table, dropped before, are not kept track of.
unfoldable pub decr_ref : (ℕ → Bool) → Table → Files → Files × Bool
decr_ref fails t fs =
    let left = pred_ℤ (refs_of fs t.id) in
    let counted = record fs { refs = insert t.id left fs.refs } in
    if is_zero left
    then (if fails t.id
        then (counted, true)
        else (record counted { deleted = t.id ∷ counted.deleted }, false))
    else (counted, false)

-- DoesNotHave, of the table's filter if it has one: `none` is a fault of MayContain.
unfoldable pub does_not_have : Option Filter → ℕ → Option Bool
does_not_have none hash = some false
does_not_have (some f) hash = Option.map not (may_contain f hash)
