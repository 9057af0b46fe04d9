-- ===== src/Iter.antt =====
-- y/iterator.go: an iterator, as the pairs of Key and Value that it has before it, in its order.
pub mod Order
use pri_zzl_badger.Base.{ℕ, Bool, ◌&&◌, Option, none, some, List, [], ◌∷◌, leb, if◌then◌else◌}
use pri_zzl_badger.Bytes.{Bytes, equal_bytes}
use pri_zzl_badger.Keys.{compare_keys, parse_key, parse_ts}
use pri_zzl_badger.Entry.{ValueStruct}
use pri_zzl_badger.Compaction.{is_lt}

pub record KeyValue : Type 0 where
  pub key : Bytes
  pub value : ValueStruct

-- Seek, forward: from the first key that is not before the given one.
unfoldable pub seek : Bytes → List KeyValue → List KeyValue
seek key [] = []
seek key (x ∷ xs) =
    let rest = seek key xs in if is_lt (compare_keys x.key key) then rest else x ∷ xs

-- Whether this is a version of the user key `k`, not newer than `ts`.
abbrev pub is_seen : Bytes → ℕ → KeyValue → Bool
is_seen k ts x = equal_bytes (parse_key x.key) k && leb (parse_ts x.key) ts

-- What a reader of `k` at `ts` sees: the first such version, the newest in key order.
unfoldable pub seen : Bytes → ℕ → List KeyValue → Option KeyValue
seen k ts [] = none
seen k ts (x ∷ xs) = let rest = seen k ts xs in if is_seen k ts x then some x else rest
