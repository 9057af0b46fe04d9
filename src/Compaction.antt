-- ===== src/Compaction.antt =====
-- compaction.go: the key ranges under compaction. A compaction may start only if its ranges
-- overlap with no running one; it gives them back when it ends.
pub mod Ranges
pub mod Status
pub mod SameLevel
mod Examples
use Prim.Native.Nat.{Ordering}
use pri_zzl_badger.Base.{
  ℕ, zero, suc, ◌+◌, Bool, true, false, ◌&&◌, ◌||◌, Option, none, some, List, [], ◌∷◌, ◌++◌, ◌==◌,
  if◌then◌else◌, length, get_elem?, set, elem, keep_if, not,
}
use pri_zzl_badger.Base.Int.{ℤ, pos, ◌+ℤ◌, ◌-ℤ◌}
use pri_zzl_badger.Bytes.{Bytes, equal_bytes}
use pri_zzl_badger.Keys.{max_uint64, key_with_ts, parse_key, compare_keys}
use mathlib.Core.Option
use pri_zzl_badger.Table.{Table}

-- The field `size` of a range is used for key splits alone.
pub record KeyRange : Type 0 where
  pub left : Bytes
  pub right : Bytes
  pub inf : Bool

abbrev pub inf_range : KeyRange
inf_range = record { left = []; right = []; inf = true }

abbrev pub empty_range : KeyRange
empty_range = record { left = []; right = []; inf = false }

-- isEmpty
unfoldable pub is_empty : KeyRange → Bool
is_empty r = length r.left == 0 && length r.right == 0 && not r.inf

abbrev same_bool : Bool → Bool → Bool
same_bool true b = b
same_bool false b = not b

-- equals
pub equals : KeyRange → KeyRange → Bool
equals r dst =
    equal_bytes r.left dst.left && equal_bytes r.right dst.right && same_bool r.inf dst.inf

abbrev pub is_lt : Ordering → Bool
is_lt Ordering.lt = true
is_lt Ordering.eq = false
is_lt Ordering.gt = false

abbrev pub is_gt : Ordering → Bool
is_gt Ordering.lt = false
is_gt Ordering.eq = false
is_gt Ordering.gt = true

-- extend, after the case of an empty `kr`.
unfoldable pub widen : KeyRange → KeyRange → KeyRange
widen kr r = record {
  left = if length r.left == 0 || is_lt (compare_keys kr.left r.left) then kr.left else r.left;
  right =
      if length r.right == 0 || is_gt (compare_keys kr.right r.right) then kr.right else r.right;
  inf = if kr.inf then true else r.inf;
}

-- extend: `*r = kr` where `r` is empty, and then the comparisons.
unfoldable pub extend : KeyRange → KeyRange → KeyRange
extend r kr = if is_empty kr then r else widen kr (if is_empty r then kr else r)

-- overlapsWith
unfoldable pub overlaps_with : KeyRange → KeyRange → Bool
overlaps_with r dst =
    if is_empty r
    then true
    else if is_empty dst
    then false
    else if r.inf || dst.inf
    then true
    else if is_gt (compare_keys r.left dst.right)
    then false
    else if is_lt (compare_keys r.right dst.left)
    then false
    else true

-- The loop of getKeyRange.
unfoldable pub smallest_of : Bytes → List Table → Bytes
smallest_of s [] = s
smallest_of s (t ∷ ts) =
    smallest_of (if is_lt (compare_keys t.smallest s) then t.smallest else s) ts

unfoldable pub biggest_of : Bytes → List Table → Bytes
biggest_of b [] = b
biggest_of b (t ∷ ts) = biggest_of (if is_gt (compare_keys t.biggest b) then t.biggest else b) ts

-- getKeyRange: all versions of the smallest and of the biggest key.
unfoldable pub get_key_range : List Table → KeyRange
get_key_range [] = empty_range
get_key_range (t ∷ ts) = record {
  left = key_with_ts (parse_key (smallest_of t.smallest ts)) max_uint64;
  right = key_with_ts (parse_key (biggest_of t.biggest ts)) 0;
  inf = false;
}

pub record LevelCompactStatus : Type 0 where
  pub ranges : List KeyRange
  pub del_size : ℤ

-- levelCompactStatus.overlapsWith
unfoldable pub any_overlaps : List KeyRange → KeyRange → Bool
any_overlaps [] dst = false
any_overlaps (r ∷ rs) dst = overlaps_with r dst || any_overlaps rs dst

-- `found` of levelCompactStatus.remove.
pub any_equals : List KeyRange → KeyRange → Bool
any_equals [] dst = false
any_equals (r ∷ rs) dst = equals r dst || any_equals rs dst

-- levelCompactStatus.remove: what stays.
pub remove_range : List KeyRange → KeyRange → List KeyRange
remove_range rs dst = keep_if (λ r. not (equals r dst)) rs

-- `tables` is the set of the ids under compaction; the hot tiers' status is made on first use.
pub record CompactStatus : Type 0 where
  pub levels : List LevelCompactStatus
  pub tables : List ℕ
  pub hot_tier_status : Option LevelCompactStatus
  pub hot_tier_ord_status : Option LevelCompactStatus

abbrev pub new_status : LevelCompactStatus
new_status = record { ranges = []; del_size = pos 0 }

abbrev pub or_new : Option LevelCompactStatus → LevelCompactStatus
or_new none = new_status
or_new (some s) = s

-- getLevelStatus: `none` is the fault of an index out of range.
unfoldable pub get_level_status : CompactStatus → ℕ → Option LevelCompactStatus
get_level_status cs level =
    if level == 98
    then some (or_new cs.hot_tier_status)
    else if level == 99
    then some (or_new cs.hot_tier_ord_status)
    else get_elem? cs.levels level

-- A write through the pointer that getLevelStatus returned.
unfoldable pub set_level_status : CompactStatus → ℕ → LevelCompactStatus → CompactStatus
set_level_status cs level s =
    if level == 98
    then record cs { hot_tier_status = some s }
    else if level == 99
    then record cs { hot_tier_ord_status = some s }
    else record cs { levels = set cs.levels level s }

-- compactStatus.overlapsWith
unfoldable pub level_overlaps : CompactStatus → ℕ → KeyRange → Option Bool
level_overlaps cs level this = elim (get_level_status cs level) [
  | none ↦ none
  | some s ↦ some (any_overlaps s.ranges this)
]

-- The parts of a compactDef that the status reads. Levels are known by their numbers.
pub record CompactDef : Type 0 where
  pub this_level : ℕ
  pub next_level : ℕ
  pub this_range : KeyRange
  pub next_range : KeyRange
  pub this_size : ℤ
  pub top : List Table
  pub bot : List Table

unfoldable pub ids : List Table → List ℕ
ids [] = []
ids (t ∷ ts) = t.id ∷ ids ts

abbrev pub add_range : KeyRange → LevelCompactStatus → LevelCompactStatus
add_range r s = record s { ranges = s.ranges ++ (r ∷ []) }

abbrev grow : ℤ → LevelCompactStatus → LevelCompactStatus
grow n s = record s { del_size = s.del_size +ℤ n }

-- A change of one level's status, in place.
unfoldable pub update_level :
    CompactStatus → ℕ → (LevelCompactStatus → LevelCompactStatus) → Option CompactStatus
update_level cs level f = elim (get_level_status cs level) [
  | none ↦ none
  | some s ↦ some (set_level_status cs level (f s))
]

-- The ranges of one compaction are entered; the tables of `append(cd.top, cd.bot...)` are marked.
unfoldable pub enter : CompactStatus → CompactDef → Option CompactStatus
enter cs cd =
    elim (update_level cs cd.this_level (λ s. grow cd.this_size (add_range cd.this_range s))) [
      | none ↦ none
      | some a ↦ elim (update_level a cd.next_level (add_range cd.next_range)) [
        | none ↦ none
        | some b ↦ some (record b { tables = ids (cd.top ++ cd.bot) ++ b.tables })
      ]
    ]

-- compareAndAdd: the answer and the new state; `none` is an index fault. The size is added after
-- both ranges in the source, to a field that nothing reads in between.
unfoldable pub compare_and_add : CompactStatus → CompactDef → Option (Bool × CompactStatus)
compare_and_add cs cd = elim (level_overlaps cs cd.this_level cd.this_range) [
  | none ↦ none
  | some true ↦ some (false, cs)
  | some false ↦ elim (level_overlaps cs cd.next_level cd.next_range) [
    | none ↦ none
    | some true ↦ some (false, cs)
    | some false ↦ Option.map (λ s. (true, s)) (enter cs cd)
  ]
]

-- The ranges of one compaction are given back: the flag is `found`. Where both levels are one, or
-- the next range is empty, only this range is removed.
pub leave : CompactStatus → CompactDef → Option (Bool × CompactStatus)
leave cs cd = elim (get_level_status cs cd.this_level) [
  | none ↦ none
  | some s ↦
      let found = any_equals s.ranges cd.this_range in
      let a = set_level_status cs cd.this_level (record {
        ranges = remove_range s.ranges cd.this_range;
        del_size = s.del_size -ℤ cd.this_size;
      }) in
      if cd.this_level == cd.next_level || is_empty cd.next_range
      then some (found, a)
      else elim (get_level_status a cd.next_level) [
        | none ↦ none
        | some n ↦ some (
          any_equals n.ranges cd.next_range && found,
          set_level_status a cd.next_level
              (record n { ranges = remove_range n.ranges cd.next_range }),
        )
      ]
]

-- delete(cs.tables, t.ID()) for every table: `none` is the failed assertion that it is there.
pub unmark : List ℕ → List ℕ → Option (List ℕ)
unmark [] tables = some tables
unmark (i ∷ is) tables =
    let rest = unmark is (keep_if (λ x. not (x == i)) tables) in
    if elem i tables then rest else none

-- delete: `none` is an index fault, log.Fatal on a range that is not found, or a table not marked.
pub delete : CompactStatus → CompactDef → Option CompactStatus
delete cs cd = elim (leave cs cd) [
  | none ↦ none
  | some (found, a) ↦ if not found then none else elim (unmark (ids (cd.top ++ cd.bot)) a.tables) [
    | none ↦ none
    | some tables ↦ some (record a { tables = tables })
  ]
]
