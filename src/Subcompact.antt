-- ===== src/Subcompact.antt =====
-- levels.go, subcompact: what a compaction keeps of the versions that its iterator yields, and how
-- it cuts them into tables. The iterator is the pairs that it has before it.
pub mod Steps
pub mod Phases
pub mod Rounds
pub mod Tables
pub mod Visible
mod Examples
use Prim.Native.Nat.{bit_and}
use mathlib.Core.Option
use pri_zzl_badger.Base.{
  ℕ, zero, suc, ◌+◌, ◌-◌, ◌%◌, Bool, true, false, ◌&&◌, ◌||◌, not, Option, none, some, List, [],
  ◌∷◌, ◌++◌, NatMap, lookup, insert, ltb, leb, ◌==◌, if◌then◌else◌, length, get_elem?,
}
use pri_zzl_badger.Bytes.{Bytes, has_prefix}
use pri_zzl_badger.Keys.{compare_keys, same_key, parse_ts}
use pri_zzl_badger.Entry.{
  ValueStruct, bit_value_pointer, bit_discard_earlier_versions, bit_merge_entry,
  is_deleted_or_expired,
}
use pri_zzl_badger.Encoding.{ValuePointer, pointer_decode}
use pri_zzl_badger.Compaction.{KeyRange, empty_range, is_lt}
use pri_zzl_badger.LevelHandler.{LevelHandler, overlapping_tables}
use pri_zzl_badger.Iter.{KeyValue, seek}

-- One call of builder.Add or builder.AddStaleKey, with the length of the value in the value log.
pub record Added : Type 0 where
  pub item : KeyValue
  pub len : ℕ
  pub stale : Bool

-- What does not change in a subcompaction: the options, the time, the answers of checkOverlap and
-- discardAtOrBelow, kr.right, and what is asked of the levels, of the builder and of the throttle.
pub record Env : Type 0 where
  pub in_memory : Bool
  pub num_versions_to_keep : ℕ
  pub now : ℕ
  pub drop_prefixes : List Bytes
  pub has_overlap : Bool
  pub discard_ts : ℕ
  pub right : Bytes
  pub exceeds : KeyRange → Bool
  pub reached_capacity : List Added → Bool
  pub do_fails : ℕ → Bool

-- The variables of subcompact, and those of addKeys with its builder.
pub record Scan : Type 0 where
  pub last_key : Bytes
  pub skip_key : Bytes
  pub num_versions : ℕ
  pub first_key_has_discard_set : Bool
  pub discard_stats : NatMap ℕ
  pub added : List Added
  pub table_kr : KeyRange
  pub range_check : ℕ

-- hasAnyPrefixes
pub has_any_prefixes : Bytes → List Bytes → Bool
has_any_prefixes s [] = false
has_any_prefixes s (p ∷ ps) = has_prefix s p || has_any_prefixes s ps

-- `vs.Meta&bit > 0`
abbrev pub has_bit : ValueStruct → ℕ → Bool
has_bit vs bit = ltb 0 (bit_and vs.meta bit)

-- discardStats[fid] += int64(len)
pub count_discard : ValuePointer → NatMap ℕ → NatMap ℕ
count_discard vp stats =
    insert vp.fid (elim (lookup vp.fid stats) [ none ↦ vp.len | some n ↦ n + vp.len ]) stats

-- updateStats: `none` is the fault of decoding a value pointer from too few bytes.
pub update_stats : Env → ValueStruct → Scan → Option Scan
update_stats env vs st =
    if env.in_memory
    then some st
    else if has_bit vs bit_value_pointer
    then Option.map (λ vp. record st { discard_stats = count_discard vp st.discard_stats })
        (pointer_decode vs.value)
    else some st

-- exceedsAllowedOverlap, with the levels of the controller and the number of the next level.
pub exceeds_allowed_overlap : List LevelHandler → ℕ → KeyRange → Bool
exceeds_allowed_overlap levels next_level kr =
    let n2n = suc next_level in
    if leb n2n 1 || leb (length levels) n2n then false else elim (get_elem? levels n2n) [
      | none ↦ false
      | some n2nl ↦ let (l, r) = overlapping_tables n2nl kr in leb 10 (r - l)
    ]

-- One round of the loop of addKeys goes on to the next pair, breaks off, or faults.
pub data Outcome : Type 0 where
  go : Scan → Outcome
  stop : Scan → Outcome
  fault : Outcome

abbrev pub or_fault : Option Scan → Outcome
or_fault none = fault
or_fault (some st) = go st

-- `len(kr.right) > 0 && y.CompareKeys(it.Key(), kr.right) >= 0`
abbrev pub at_end : Env → Bytes → Bool
at_end env key = not (length env.right == 0) && not (is_lt (compare_keys key env.right))

-- tableKr, with a key that opens a new user key.
abbrev pub extend_kr : KeyRange → Bytes → KeyRange
extend_kr kr key = record kr { left = if length kr.left == 0 then key else kr.left; right = key }

-- `if !y.SameKey(it.Key(), lastKey) { ... }`
pub enter_key : Env → Scan → KeyValue → Outcome
enter_key env st x =
    if same_key x.key st.last_key
    then go st
    else let a = record st { first_key_has_discard_set = false } in
      if at_end env x.key
      then stop a
      else if env.reached_capacity a.added
      then stop a
      else let b = record a {
        last_key = x.key;
        num_versions = 0;
        first_key_has_discard_set = has_bit x.value bit_discard_earlier_versions;
        table_kr = extend_kr a.table_kr x.key;
        range_check = suc a.range_check;
      } in
        if b.range_check % 5000 == 0 && env.exceeds b.table_kr then stop b else go b

-- From `numKeys++` on: the pair enters the table.
pub keep : Scan → KeyValue → Bool → Outcome
keep st x expired =
    let stale = st.first_key_has_discard_set || expired in
    if has_bit x.value bit_value_pointer
    then elim (pointer_decode x.value.value) [
      | none ↦ fault
      | some vp ↦ go (record st {
        added = st.added ++ (record { item = x; len = vp.len; stale = stale } ∷ []);
      })
    ]
    else go (record st { added = st.added ++ (record { item = x; len = 0; stale = stale } ∷ []) })

-- From `isExpired :=` on.
pub judge : Env → Scan → KeyValue → Outcome
judge env st x =
    let expired = is_deleted_or_expired env.now x.value.meta x.value.expires_at in
    if not (leb (parse_ts x.key) env.discard_ts && not (has_bit x.value bit_merge_entry))
    then keep st x expired
    else let a = record st { num_versions = suc st.num_versions } in
      let last_valid_version =
        has_bit x.value bit_discard_earlier_versions
        || a.num_versions == env.num_versions_to_keep in
      if not (expired || last_valid_version)
      then keep a x expired
      else let b = record a { skip_key = x.key } in
        if not expired && last_valid_version
        then keep b x expired
        else if env.has_overlap
        then keep b x expired
        else or_fault (update_stats env x.value b)

-- The body of the loop of addKeys.
pub step : Env → Scan → KeyValue → Outcome
step env st x =
    if has_any_prefixes x.key env.drop_prefixes
    then or_fault (update_stats env x.value st)
    else if not (length st.skip_key == 0) && same_key x.key st.skip_key
    then or_fault (update_stats env x.value st)
    else elim (enter_key env (record st { skip_key = [] }) x) [
      | go s ↦ judge env s x
      | stop s ↦ stop s
      | fault ↦ fault
    ]

-- addKeys, with a new builder: the variables at its end, and the pairs that the iterator still has.
pub add_keys : Env → Scan → List KeyValue → Option (Scan × List KeyValue)
add_keys env st [] = some (st, [])
add_keys env st (x ∷ xs) = elim (step env st x) [
  | go s ↦ add_keys env s xs
  | stop s ↦ some (s, x ∷ xs)
  | fault ↦ none
]

abbrev pub new_builder : Scan → Scan
new_builder st = record st { added = []; table_kr = empty_range; range_check = 0 }

-- The result of the loop over the tables: the contents of the tables in their order, and the
-- statistics for updateDiscardStats. `broken` is the break after an error of the throttle.
pub record Built : Type 0 where
  pub tables : List (List Added)
  pub broken : Bool
  pub discard_stats : NatMap ℕ

abbrev pub with_table : List Added → Built → Built
with_table [] b = b
with_table (a ∷ as_) b = record b { tables = (a ∷ as_) ∷ b.tables }

abbrev is_nil : List Added → Bool
is_nil [] = true
is_nil (a ∷ as_) = false

-- `for it.Valid() { ... }`, by the rounds left, with the number of the tables built so far. The
-- outer `none` is that the rounds ran out, the inner one a fault.
pub build_tables : ℕ → Env → ℕ → Scan → List KeyValue → Option (Option Built)
build_tables zero env builds st xs = none
build_tables (suc rounds) env builds st [] =
    some (some (record { tables = []; broken = false; discard_stats = st.discard_stats }))
build_tables (suc rounds) env builds st (x ∷ xs) =
    if at_end env x.key
    then some (some (record { tables = []; broken = false; discard_stats = st.discard_stats }))
    else elim (add_keys env (new_builder st) (x ∷ xs)) [
      | none ↦ some none
      | some (s, rest) ↦
          if is_nil s.added
          then build_tables rounds env builds s rest
          else if env.do_fails (suc builds)
          then some (some (record { tables = []; broken = true; discard_stats = s.discard_stats }))
          else Option.map (Option.map (with_table s.added))
              (build_tables rounds env (suc builds) s rest)
    ]

abbrev pub new_scan : Scan
new_scan = record {
  last_key = [];
  skip_key = [];
  num_versions = 0;
  first_key_has_discard_set = false;
  discard_stats = [];
  added = [];
  table_kr = empty_range;
  range_check = 0;
}

-- subcompact, on the pairs of the iterator from its first one: kr.left is where it starts.
pub subcompact : Env → Bytes → List KeyValue → Option (Option Built)
subcompact env left items =
    let start = if length left == 0 then items else seek left items in
    build_tables (suc (length start)) env 0 new_scan start
