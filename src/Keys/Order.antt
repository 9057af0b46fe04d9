-- ===== src/Keys/Order.antt =====
-- Versioned keys: taking one apart, and the order of the versions.
use Prim.Native.Nat.{Ordering, compare}
use pri_zzl_badger.Base.{
  ℕ, ◌+◌, ◌-◌, ◌^◌, ◌<◌, ◌≡◌, ◌≢◌, some, arith, true, ap, ◌≤◌, length, length-take, take-length,
  drop-length, length-append,
}
use pri_zzl_badger.Bytes.{Bytes, then_by, compare_bytes, be_bytes}
use pri_zzl_badger.Bytes.Order.{
  flip, compare_bytes-flip, compare_bytes_refl, eq_of_compare_bytes, compare_bytes_trans,
  equal_bytes_iff,
}
use pri_zzl_badger.Bytes.Endian.{length-be_bytes, be_value-be_bytes, compare_bytes-be_bytes}
use pri_zzl_badger.Keys.{
  max_uint64, key_with_ts, parse_ts, parse_key?, parse_key, ts_bytes, compare_keys, compare_keys?,
  same_key,
}

pub length-key_with_ts : (k : Bytes) (ts : ℕ) → length (key_with_ts k ts) ≡ length k + 8
unfolding key_with_ts
length-key_with_ts k ts =
    omega
      (arith, length-append k (be_bytes 8 (max_uint64 - ts)), length-be_bytes 8 (max_uint64 - ts))

pub parse_key-key_with_ts : (k : Bytes) (ts : ℕ) → parse_key (key_with_ts k ts) ≡ k
unfolding parse_key
parse_key-key_with_ts k ts =
    rw (length-key_with_ts k ts)
      (rw (cut) (unfold key_with_ts in take-length k (be_bytes 8 (max_uint64 - ts))))
  where
    cut : length k + 8 - 8 ≡ length k
    cut = omega arith

pub ts_bytes-key_with_ts :
    (k : Bytes) (ts : ℕ) → ts_bytes (key_with_ts k ts) ≡ be_bytes 8 (max_uint64 - ts)
unfolding ts_bytes
ts_bytes-key_with_ts k ts =
    rw (length-key_with_ts k ts)
      (rw (cut) (unfold key_with_ts in drop-length k (be_bytes 8 (max_uint64 - ts))))
  where
    cut : length k + 8 - 8 ≡ length k
    cut = omega arith

-- A key that is not empty gives back its bytes and its timestamp.
pub key_with_ts_parts :
    (k : Bytes) (ts : ℕ)
    → 0 < length k
    → ts < 2 ^ 64
    → (parse_key? (key_with_ts k ts) ≡ some k) × (parse_ts (key_with_ts k ts) ≡ ts)
unfolding parse_key? parse_ts
key_with_ts_parts k ts pos h = (
  ground (arith, length-key_with_ts k ts, parse_key-key_with_ts k ts),
  ground (
    arith,
    length-key_with_ts k ts,
    ts_bytes-key_with_ts k ts,
    be_value-be_bytes 8 (max_uint64 - ts) (omega arith),
  ),
)

-- Versioned keys compare by their keys, and versions of one key from the newest to the oldest.
pub compare_keys-key_with_ts :
    (k l : Bytes) (s t : ℕ)
    → s < 2 ^ 64
    → t < 2 ^ 64
    → compare_keys? (key_with_ts k s) (key_with_ts l t)
      ≡ some (then_by (compare_bytes k l) (compare t s))
unfolding compare_keys? compare_keys
compare_keys-key_with_ts k l s t hs ht = ground (
  arith,
  length-key_with_ts k s,
  length-key_with_ts l t,
  parse_key-key_with_ts k s,
  parse_key-key_with_ts l t,
  ts_bytes-key_with_ts k s,
  ts_bytes-key_with_ts l t,
  compare_bytes-be_bytes 8 (max_uint64 - s) (max_uint64 - t) (omega arith) (omega arith),
)

pub compare_keys-flip : (a b : Bytes) → compare_keys b a ≡ flip (compare_keys a b)
unfolding compare_keys
compare_keys-flip a b = ground (
  arith,
  compare_bytes-flip (parse_key a) (parse_key b),
  compare_bytes-flip (ts_bytes a) (ts_bytes b),
)

pub compare_keys_refl : (a : Bytes) → compare_keys a a ≡ Ordering.eq
unfolding compare_keys
compare_keys_refl a =
    ground (arith, compare_bytes_refl (parse_key a), compare_bytes_refl (ts_bytes a))

pub compare_keys_trans :
    (a b c : Bytes)
    → compare_keys a b ≢ Ordering.gt
    → compare_keys b c ≢ Ordering.gt
    → compare_keys a c ≢ Ordering.gt
unfolding compare_keys
compare_keys_trans a b c h k = ground (
  arith,
  compare_bytes_trans (parse_key a) (parse_key b) (parse_key c),
  compare_bytes_trans (ts_bytes a) (ts_bytes b) (ts_bytes c),
  eq_of_compare_bytes (parse_key a) (parse_key b),
  eq_of_compare_bytes (parse_key b) (parse_key c),
  eq_of_compare_bytes (parse_key a) (parse_key c),
  compare_bytes-flip (parse_key a) (parse_key b),
  compare_bytes-flip (parse_key b) (parse_key c),
)

length-parse_key : (a : Bytes) → 8 ≤ length a → length (parse_key a) + 8 ≡ length a
unfolding parse_key
length-parse_key a h = omega (arith, length-take (length a - 8) a (omega arith))

-- Long keys of one user key are the same to SameKey.
pub same_key-eq :
    (a b : Bytes) → 8 ≤ length a → 8 ≤ length b → parse_key a ≡ parse_key b → same_key a b ≡ true
unfolding same_key
same_key-eq a b ha hb e = ground (
  arith,
  length-parse_key a ha,
  length-parse_key b hb,
  ap length e,
  (equal_bytes_iff (parse_key a) (parse_key b)).1 e,
)

pub parse_key-same : (a b : Bytes) → same_key a b ≡ true → parse_key a ≡ parse_key b
unfolding same_key
parse_key-same a b e = (equal_bytes_iff (parse_key a) (parse_key b)).0 (ground arith)

pub parse_key-compare_keys :
    (a b : Bytes) → compare_keys a b ≡ Ordering.eq → parse_key a ≡ parse_key b
unfolding compare_keys
parse_key-compare_keys a b e = eq_of_compare_bytes (parse_key a) (parse_key b) (ground arith)
