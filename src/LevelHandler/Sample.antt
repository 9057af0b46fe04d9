-- ===== src/LevelHandler/Sample.antt =====
-- Keys, pairs and tables for the tests: a level of two tables.
use Prim.Native.Nat.{Ordering}
use pri_zzl_badger.Base.{
  ℕ, zero, suc, ◌≡◌, ◌≢◌, ◌≤◌, ◌<◌, ◌↔◌, refl, Bool, true, false, Option, none, some, List, [], ◌∷◌,
  ◌++◌, arith, All, inl, inr, keep_if, elem, not, if◌then◌else◌, ◌==◌, ◌^◌,
}
use pri_zzl_badger.Base.Int.{pos}
use pri_zzl_badger.Bytes.{Bytes, compare_bytes}
use pri_zzl_badger.Entry.{ValueStruct}
use pri_zzl_badger.Keys.{compare_keys, key_with_ts}
use pri_zzl_badger.Table.{Table, Files, does_not_have}
use pri_zzl_badger.Compaction.{KeyRange}
use pri_zzl_badger.Iter.{KeyValue}
use pri_zzl_badger.LevelHandler.{LevelHandler}
use pri_zzl_badger.LevelHandler.Order.{AreDisjoint}
use pri_zzl_badger.LevelHandler.Replace.{IsSized, sum_of}
use pri_zzl_badger.LevelHandler.Get.{Shelf}
use pri_zzl_badger.LevelHandler.Get.Newest.{IsKey}
use pri_zzl_badger.LevelHandler.Get.Ordered.{Holds, IsLevel}

abbrev pub key : ℕ → ℕ → Bytes
key b ts = key_with_ts (b ∷ []) ts

abbrev pub table_of : ℕ → ℕ → ℕ → Table
table_of i a b = record {
  id = i;
  smallest = key a 7;
  biggest = key b 3;
  size = pos 100;
  stale_data_size = pos 5;
  max_version = 7;
}

-- Table 11 holds the keys from 1 to 5, and table 12 those from 8 to 9.
abbrev pub two_tables : LevelHandler
two_tables = record {
  level = 2;
  tables = table_of 11 1 5 ∷ table_of 12 8 9 ∷ [];
  total_size = pos 200;
  total_stale_size = pos 10;
}

pub not_gt : (c : Ordering) → c ≡ Ordering.lt → c ≢ Ordering.gt
not_gt c l = ground arith

pub not_gt' : (c : Ordering) → c ≡ Ordering.eq → c ≢ Ordering.gt
not_gt' c l = ground arith

pub two_tables-AreDisjoint : AreDisjoint two_tables.tables
unfolding compare_keys compare_bytes key_with_ts pri_zzl_badger.Bytes.be_bytes
two_tables-AreDisjoint = (
  not_gt (compare_keys (key 1 7) (key 5 3)) refl,
  (refl, tt),
  (not_gt (compare_keys (key 8 7) (key 9 3)) refl, tt, tt),
)

abbrev pub from_4_to_6 : KeyRange
from_4_to_6 = record { left = key 4 9; right = key 6 0; inf = false }

pub two_tables-IsSized : IsSized two_tables
unfolding sum_of pri_zzl_badger.Base.Int.◌+ℤ◌
two_tables-IsSized = record { sizes = refl; stale_sizes = refl }

abbrev pub value_of : ℕ → ValueStruct
value_of v = record { meta = 0; user_meta = 0; expires_at = 0; value = v ∷ []; version = 0 }

abbrev pub pair : ℕ → ℕ → KeyValue
pair b ts = record { key = key b ts; value = value_of b }

abbrev pub contents_of : ℕ → List KeyValue
contents_of id = if id == 11 then pair 1 7 ∷ pair 5 3 ∷ [] else pair 8 7 ∷ pair 9 3 ∷ []

abbrev pub shelf : Shelf
shelf = record { contents = λ t. contents_of t.id; filter = λ t. none }

pub key-IsKey : (b ts : ℕ) → ts < 2 ^ 64 → IsKey (key b ts)
key-IsKey b ts h = record { user = b ∷ []; ts = ts; given = omega arith; bound = h; built = refl }

pub first-Holds : Holds shelf (table_of 11 1 5)
unfolding does_not_have compare_keys key_with_ts pri_zzl_badger.Bytes.be_bytes compare_bytes
first-Holds = record {
  order = ((refl, tt), (tt, tt));
  keys = (key-IsKey 1 7 (omega arith), (key-IsKey 5 3 (omega arith), tt));
  low = (
    not_gt' (compare_keys (key 1 7) (key 1 7)) refl,
    (not_gt (compare_keys (key 1 7) (key 5 3)) refl, tt),
  );
  high = (
    not_gt (compare_keys (key 1 7) (key 5 3)) refl,
    (not_gt' (compare_keys (key 5 3) (key 5 3)) refl, tt),
  );
  last = inr (inl refl);
  total = λ h e. cc;
  sound = (refl, (refl, tt));
}

pub second-Holds : Holds shelf (table_of 12 8 9)
unfolding does_not_have compare_keys key_with_ts pri_zzl_badger.Bytes.be_bytes compare_bytes
second-Holds = record {
  order = ((refl, tt), (tt, tt));
  keys = (key-IsKey 8 7 (omega arith), (key-IsKey 9 3 (omega arith), tt));
  low = (
    not_gt' (compare_keys (key 8 7) (key 8 7)) refl,
    (not_gt (compare_keys (key 8 7) (key 9 3)) refl, tt),
  );
  high = (
    not_gt (compare_keys (key 8 7) (key 9 3)) refl,
    (not_gt' (compare_keys (key 9 3) (key 9 3)) refl, tt),
  );
  last = inr (inl refl);
  total = λ h e. cc;
  sound = (refl, (refl, tt));
}

pub two_tables-IsLevel : IsLevel shelf two_tables
two_tables-IsLevel = record {
  tables = (first-Holds, (second-Holds, tt));
  apart = λ h. two_tables-AreDisjoint;
}

abbrev pub no_files : Files
no_files = record { refs = (11, pos 1) ∷ (12, pos 1) ∷ []; deleted = [] }
