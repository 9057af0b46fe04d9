-- ===== src/LevelHandler/Order.antt =====
-- The tables of an ordered level, and what the binary searches of a level find in them.
use Prim.Native.Nat.{Ordering}
use pri_zzl_badger.Base.{
  ℕ, zero, suc, ◌<◌, ◌≡◌, ◌≢◌, Bool, true, some, List, [], ◌∷◌, arith, length, get_elem?, All,
  All-mono, not,
}
use pri_zzl_badger.Base.Search.{Rises, Splits, search, search-Splits}
use pri_zzl_badger.Bytes.{Bytes}
use pri_zzl_badger.Keys.{compare_keys}
use pri_zzl_badger.Keys.Order.{compare_keys-flip, compare_keys_trans}
use pri_zzl_badger.Table.{Table}
use pri_zzl_badger.Compaction.{is_lt}
use pri_zzl_badger.LevelHandler.{at_index, ends_from, starts_after}

-- `a` comes before `b`, and `a` does not come after `b`.
abbrev pub Before : Bytes → Bytes → Type 0
Before a b = compare_keys a b ≡ Ordering.lt

abbrev pub UpTo : Bytes → Bytes → Type 0
UpTo a b = compare_keys a b ≢ Ordering.gt

-- The ranges of the tables are in order, and do not overlap.
abbrev pub AreDisjoint : List Table → Type 0
AreDisjoint [] = Unit {0}
AreDisjoint (t ∷ ts) =
    UpTo t.smallest t.biggest × All (λ u. Before t.biggest u.smallest) ts × AreDisjoint ts

pub Before-UpTo : (a b : Bytes) → Before a b → UpTo a b
Before-UpTo a b h = λ g. cc

-- What `a` comes before, and what is not after it.
pub UpTo-Before : (a b c : Bytes) → UpTo a b → Before b c → Before a c
UpTo-Before a b c h k = ground (
  arith,
  compare_keys_trans a b c h (Before-UpTo b c k),
  compare_keys_trans c a b,
  compare_keys-flip a c,
  compare_keys-flip b c,
)

pub Before-trans : (a b c : Bytes) → Before a b → Before b c → Before a c
Before-trans a b c h k = UpTo-Before a b c (Before-UpTo a b h) k

pub Before-UpTo_trans : (a b c : Bytes) → Before a b → UpTo b c → Before a c
Before-UpTo_trans a b c h k = ground (
  arith,
  compare_keys_trans a b c (Before-UpTo a b h) k,
  compare_keys_trans b c a k,
  compare_keys-flip a c,
  compare_keys-flip a b,
)

-- Every table that follows `t` ends after `t` does.
ends_later :
    (t : Table) (ts : List Table)
    → All (λ u. Before t.biggest u.smallest) ts
    → AreDisjoint ts
    → All (λ u. Before t.biggest u.biggest) ts
ends_later t [] a d = tt
ends_later t (u ∷ us) a d =
    (Before-UpTo_trans t.biggest u.smallest u.biggest a.0 d.0, ends_later t us a.1 d.2)

pub All-at :
    (P : Table → Type 0) (ts : List Table) (i : ℕ) (u : Table)
    → All P ts
    → get_elem? ts i ≡ some u
    → P u
All-at P [] i u a e = absurd (cc)
All-at P (t ∷ ts) zero u a e = rw (← (some_inj e)) a.0
  where
    some_inj : some t ≡ some u → t ≡ u
    some_inj e = cc
All-at P (t ∷ ts) (suc i) u a e = All-at P ts i u a.1 e

-- A test that passes from one table to the later ones rises along the level.
abbrev PassesOn : (Table → Bool) → List Table → Type 0
PassesOn p [] = Unit {0}
PassesOn p (t ∷ ts) = All (λ u. p t ≡ true → p u ≡ true) ts × PassesOn p ts

at_index-Rises :
    (p : Table → Bool) (ts : List Table) → PassesOn p ts → Rises (length ts) (at_index p ts)
at_index-Rises p [] a i k le lt h = absurd (omega arith)
at_index-Rises p (t ∷ ts) a zero zero le lt h = h
at_index-Rises p (t ∷ ts) a zero (suc k) le lt h = from_head ts k (ground arith) a.0
  where
    from_head :
        (us : List Table) (j : ℕ)
        → j < length us
        → All (λ u. p t ≡ true → p u ≡ true) us
        → at_index p us j ≡ true
    from_head [] j below b = absurd (omega arith)
    from_head (u ∷ us) zero below b = b.0 h
    from_head (u ∷ us) (suc j) below b = from_head us j (ground arith) b.1
at_index-Rises p (t ∷ ts) a (suc i) zero le lt h = absurd (omega arith)
at_index-Rises p (t ∷ ts) a (suc i) (suc k) le lt h =
    at_index-Rises p ts a.1 i k (ground arith) (ground arith) h

ends_from-PassesOn : (key : Bytes) (ts : List Table) → AreDisjoint ts → PassesOn (ends_from key) ts
ends_from-PassesOn key [] d = tt
ends_from-PassesOn key (t ∷ ts) d = (
  All-mono _ _
      (λ u later h.
        ground (
          arith,
          compare_keys_trans key t.biggest u.biggest,
          Before-UpTo t.biggest u.biggest later,
        ))
      ts (ends_later t ts d.1 d.2),
  ends_from-PassesOn key ts d.2,
)

starts_after-PassesOn :
    (key : Bytes) (ts : List Table) → AreDisjoint ts → PassesOn (starts_after key) ts
starts_after-PassesOn key [] d = tt
starts_after-PassesOn key (t ∷ ts) d = (
  All-mono _ _
      (λ u later h. ground (
        arith,
        Before-trans key t.smallest u.smallest,
        UpTo-Before t.smallest t.biggest u.smallest d.0 later,
      ))
      ts d.1,
  starts_after-PassesOn key ts d.2,
)

-- The search for the first table that does not end before the key splits an ordered level.
pub ends_from-Splits :
    (key : Bytes) (ts : List Table)
    → AreDisjoint ts
    → Splits
        (length ts)
        (at_index (ends_from key) ts)
        (search (length ts) (at_index (ends_from key) ts))
ends_from-Splits key ts d =
    search-Splits (length ts) (at_index (ends_from key) ts)
      (at_index-Rises (ends_from key) ts (ends_from-PassesOn key ts d))

-- The search for the first table that starts after the key splits an ordered level.
pub starts_after-Splits :
    (key : Bytes) (ts : List Table)
    → AreDisjoint ts
    → Splits
        (length ts)
        (at_index (starts_after key) ts)
        (search (length ts) (at_index (starts_after key) ts))
starts_after-Splits key ts d =
    search-Splits (length ts) (at_index (starts_after key) ts)
      (at_index-Rises (starts_after key) ts (starts_after-PassesOn key ts d))

-- The test of getTableForKey: the table does not end before the key.
abbrev pub reaches : Bytes → Table → Bool
reaches key t = not (is_lt (compare_keys t.biggest key))

reaches-PassesOn : (key : Bytes) (ts : List Table) → AreDisjoint ts → PassesOn (reaches key) ts
reaches-PassesOn key [] d = tt
reaches-PassesOn key (t ∷ ts) d = (
  All-mono _ _ (λ u later h. ground (arith, Before-trans t.biggest u.biggest key later)) ts
      (ends_later t ts d.1 d.2),
  reaches-PassesOn key ts d.2,
)

pub reaches-Splits :
    (key : Bytes) (ts : List Table)
    → AreDisjoint ts
    → Splits
        (length ts)
        (at_index (reaches key) ts)
        (search (length ts) (at_index (reaches key) ts))
reaches-Splits key ts d =
    search-Splits (length ts) (at_index (reaches key) ts)
      (at_index-Rises (reaches key) ts (reaches-PassesOn key ts d))
