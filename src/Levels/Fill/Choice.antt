-- ===== src/Levels/Fill/Choice.antt =====
-- The answer of a choice of tables, and its last step.
use pri_zzl_badger.Base.{Bool, true, false, none, some, List, [], ◌∷◌}
use pri_zzl_badger.Table.{Table}
use pri_zzl_badger.Compaction.{CompactStatus, CompactDef, compare_and_add}

-- The answer of a choice: a fault, `false`, or `true` with the compaction and the new status.
pub data Filled : Type 0 where
  fault : Filled
  no_tables : Filled
  filled : CompactDef → CompactStatus → Filled

-- `s.cstatus.compareAndAdd(...)` as the last step of a choice, and otherwise go on with `next`.
abbrev pub add_or : CompactStatus → CompactDef → Filled → Filled
add_or cs cd next = elim (compare_and_add cs cd) [
  | none ↦ fault
  | some (true, cs') ↦ filled cd cs'
  | some (false, cs') ↦ next
]

abbrev pub is_nil : List Table → Bool
is_nil [] = true
is_nil (t ∷ ts) = false
