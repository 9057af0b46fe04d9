-- ===== src/Keys.antt =====
-- y/y.go: keys with a timestamp. A key is a list of bytes; the last eight bytes of a versioned
-- key are the complement of its timestamp, so that newer versions sort first.
pub mod Order
mod Examples
use Prim.Native.Nat.{Ordering}
use pri_zzl_badger.Base.{
  ℕ, ◌-◌, ◌^◌, Bool, false, ◌&&◌, ◌||◌, Option, none, some, ◌++◌, ltb, leb, ◌==◌, if◌then◌else◌,
  length, take, drop,
}
use pri_zzl_badger.Bytes.{Bytes, then_by, compare_bytes, equal_bytes, be_bytes, be_value}

abbrev pub max_uint64 : ℕ
max_uint64 = 2 ^ 64 - 1

-- KeyWithTs
unfoldable pub key_with_ts : Bytes → ℕ → Bytes
key_with_ts key ts = key ++ be_bytes 8 (max_uint64 - ts)

-- The two parts of a slice of eight bytes or more: `key[:len(key)-8]` and `key[len(key)-8:]`.
unfoldable pub parse_key : Bytes → Bytes
parse_key key = take (length key - 8) key

unfoldable pub ts_bytes : Bytes → Bytes
ts_bytes key = drop (length key - 8) key

-- ParseTs
unfoldable pub parse_ts : Bytes → ℕ
parse_ts key = if leb (length key) 8 then 0 else max_uint64 - be_value 0 (ts_bytes key)

-- ParseKey on a slice that is not nil; the code faults on a slice of less than eight bytes.
unfoldable pub parse_key? : Bytes → Option Bytes
parse_key? key = if ltb (length key) 8 then none else some (parse_key key)

-- CompareKeys, on slices of eight bytes or more.
unfoldable pub compare_keys : Bytes → Bytes → Ordering
unfolding parse_key ts_bytes
compare_keys key1 key2 =
    then_by (compare_bytes (parse_key key1) (parse_key key2))
      (compare_bytes (ts_bytes key1) (ts_bytes key2))

-- CompareKeys on any slices: `none` is the fault of a slice bound below zero.
unfoldable pub compare_keys? : Bytes → Bytes → Option Ordering
compare_keys? key1 key2 =
    if ltb (length key1) 8 || ltb (length key2) 8 then none else some (compare_keys key1 key2)

-- SameKey: the lengths are compared before any slice is taken.
unfoldable pub same_key? : Bytes → Bytes → Option Bool
same_key? src dst =
    if length src == length dst
    then (if ltb (length src) 8 then none else some (equal_bytes (parse_key src) (parse_key dst)))
    else some false

-- SameKey, on slices of eight bytes or more: all keys with a timestamp.
unfoldable pub same_key : Bytes → Bytes → Bool
unfolding parse_key
same_key src dst = length src == length dst && equal_bytes (parse_key src) (parse_key dst)
