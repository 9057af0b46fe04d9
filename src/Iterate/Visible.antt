-- ===== src/Iterate/Visible.antt =====
-- The items of a walk over pairs in key order, against what a reader of a key sees.
use pri_zzl_badger.Base.{ℕ, ◌≤◌, ◌≡◌, Option, none, some, List, [], ◌∷◌, ltb, if◌then◌else◌, length}
use pri_zzl_badger.Bytes.{Bytes, equal_bytes}
use pri_zzl_badger.Keys.{parse_ts}
use pri_zzl_badger.Iter.{KeyValue}
use pri_zzl_badger.Txn.{DbView}
use pri_zzl_badger.Iterate.{Item, Options, fill, is_gone, is_hidden}

-- The item of a user key.
pub item_at : Bytes → List Item → Option Item
item_at k [] = none
item_at k (i ∷ is) = let rest = item_at k is in if equal_bytes i.key k then some i else rest

-- No two items have the same key.
abbrev pub AreDistinct : List Item → Type 0
AreDistinct [] = Unit {0}
AreDistinct (i ∷ is) = (item_at i.key is ≡ none) × AreDistinct is

module _ (db : DbView) (opt : Options) (read_ts now : ℕ) where
  -- What an iterator makes of the pair that a reader sees.
  abbrev pub item_of : Option KeyValue → Option Item
  item_of none = none
  item_of (some x) = if is_gone db opt read_ts now x then none else some (fill x)

  -- The key has a timestamp, and of the first tests of parseItem only that on it hides the pair.
  abbrev pub IsPlain : KeyValue → Type 0
  IsPlain x = (8 ≤ length x.key) × (is_hidden db opt read_ts now x ≡ ltb read_ts (parse_ts x.key))
