-- ===== src/LevelHandler/Get/Newest.antt =====
-- The newest version of a key that is not after the asked one, and what one Seek finds of it.
use Prim.Native.Nat.{Ordering, compare}
use pri_zzl_badger.Base.{
  ℕ, ◌^◌, ◌≤◌, ◌<◌, ◌≡◌, ◌≢◌, refl, sym, ap, ◌∙◌, true, false, ◌⊎◌, inl, inr, Option, some, List,
  [], ◌∷◌, arith, length, ltb, All, All-mono, Any, Bool-cases,
}
use pri_zzl_badger.Bytes.{Bytes, compare_bytes, then_by}
use pri_zzl_badger.Bytes.Order.{compare_bytes_refl, eq_of_compare_bytes, Ordering-cases}
use pri_zzl_badger.Keys.{key_with_ts, parse_key, parse_ts, same_key, compare_keys, compare_keys?}
use pri_zzl_badger.Keys.Order.{
  key_with_ts_parts, compare_keys-key_with_ts, compare_keys-flip, length-key_with_ts,
  parse_key-key_with_ts, same_key-eq, parse_key-same, parse_key-compare_keys,
}
use pri_zzl_badger.Entry.{ValueStruct}
use pri_zzl_badger.Compaction.{is_lt}
use pri_zzl_badger.Iter.{KeyValue, seek}
use pri_zzl_badger.Iter.Order.{InKeyOrder, group_ends}
use pri_zzl_badger.LevelHandler.Get.{consider, version_of, stamped}

-- A user key with its timestamp.
pub record IsKey (b : Bytes) : Type 0 where
  pub user : Bytes
  pub ts : ℕ
  pub given : 0 < length user
  pub bound : ts < 2 ^ 64
  pub built : b ≡ key_with_ts user ts

pub IsKey-long : {b : Bytes} → IsKey b → 8 ≤ length b
IsKey-long v = rw v.built (omega (arith, length-key_with_ts v.user v.ts))

IsKey-ts : {b : Bytes} (v : IsKey b) → parse_ts b ≡ v.ts
IsKey-ts v = rw v.built (key_with_ts_parts v.user v.ts v.given v.bound).1

pub IsKey-user : {b : Bytes} (v : IsKey b) → parse_key b ≡ v.user
IsKey-user v = rw v.built (parse_key-key_with_ts v.user v.ts)

pub compare-IsKey :
    (a b : Bytes) (v : IsKey a) (w : IsKey b)
    → compare_keys a b ≡ then_by (compare_bytes v.user w.user) (compare w.ts v.ts)
unfolding compare_keys?
compare-IsKey a b v w =
    rw (v.built, w.built)
      (ground (
        arith,
        length-key_with_ts v.user v.ts,
        length-key_with_ts w.user w.ts,
        compare_keys-key_with_ts v.user w.user v.ts w.ts v.bound w.bound,
      ))

-- Of one user key, the version that comes first is the newer one.
pub newer_first :
    (a b : Bytes)
    → IsKey a
    → IsKey b
    → parse_key a ≡ parse_key b
    → compare_keys a b ≡ Ordering.lt
    → parse_ts b < parse_ts a
newer_first a b v w e lt = ground (
  arith,
  compare-IsKey a b v w,
  IsKey-ts v,
  IsKey-ts w,
  compare_bytes_refl v.user,
  ap (compare_bytes v.user) (sym (IsKey-user v) ∙ (e ∙ IsKey-user w)),
)

-- Keys that compare equal are equal.
pub eq_of_IsKey : (a b : Bytes) → IsKey a → IsKey b → compare_keys a b ≡ Ordering.eq → a ≡ b
eq_of_IsKey a b v w e =
    let users : v.user ≡ w.user =
      eq_of_compare_bytes v.user w.user (ground (arith, compare-IsKey a b v w)) in
    let times : v.ts ≡ w.ts = ground (arith, compare-IsKey a b v w) in
    v.built ∙ (rw (users, times) (sym w.built))

-- A version of the asked key, not newer than it.
abbrev pub Matches : Bytes → KeyValue → Type 0
Matches key x = (same_key key x.key ≡ true) × (is_lt (compare_keys x.key key) ≡ false)

-- No such version among the pairs is newer than the answer.
abbrev pub Bounds : Bytes → Option ValueStruct → List KeyValue → Type 0
Bounds key max xs = All (λ x. Matches key x → parse_ts x.key ≤ version_of max) xs

-- The answer is such a version among the pairs, with its version filled in.
abbrev pub Found : Bytes → Option ValueStruct → List KeyValue → Type 0
Found key max xs = Any (λ x. Matches key x × (max ≡ some (stamped x))) xs

-- After a pair at or after the asked key that is no version of it there is none.
pub none_later :
    (key : Bytes) (y : KeyValue)
    → IsKey key
    → IsKey y.key
    → is_lt (compare_keys y.key key) ≡ false
    → same_key key y.key ≡ false
    → (z : KeyValue) → compare_keys y.key z.key ≡ Ordering.lt
    → same_key key z.key ≢ true
none_later key y v w from other z later same = elim (Ordering-cases (compare_keys key y.key)) [
  | inl before ↦
      group_ends key y.key z.key before (λ e. differ (sym e)) later
        (sym (parse_key-same key z.key same))
  | inr (inl at) ↦ differ (parse_key-compare_keys key y.key at)
  | inr (inr after) ↦ ground (arith, compare_keys-flip key y.key)
]
  where
    differ : parse_key key ≢ parse_key y.key
    differ e = ground (arith, same_key-eq key y.key (IsKey-long v) (IsKey-long w) e)

-- What one Seek makes of the answer: it bounds the table's versions, comes from the table if it is
-- a new one, and its version does not fall.
pub record Considered (key : Bytes) (max got : Option ValueStruct) (xs : List KeyValue)
    : Type 0 where
  pub bounds : Bounds key got xs
  pub origin : (got ≡ max) ⊎ Found key got xs
  pub grows : version_of max ≤ version_of got

pub consider-Considered :
    (key : Bytes) (max : Option ValueStruct) (xs : List KeyValue)
    → IsKey key
    → All (λ x. IsKey x.key) xs
    → InKeyOrder xs
    → Considered key max (consider key max (seek key xs)) xs
unfolding consider seek
consider-Considered key max [] v ks o = record {
  bounds = tt;
  origin = inl refl;
  grows = omega arith;
}
consider-Considered key max (x ∷ xs) v ks o = elim (Bool-cases (is_lt (compare_keys x.key key))) [
  | inl before ↦
      let c = consider-Considered key max xs v ks.1 o.1 in
      rw before (record {
        bounds = (λ m. absurd (ground (arith, before, m.1)), c.bounds);
        origin = elim (c.origin) [ inl e ↦ inl e | inr f ↦ inr (inr f) ];
        grows = c.grows;
      })
  | inr from ↦ elim (Bool-cases (same_key key x.key)) [
    | inr other ↦
        rw (from, other)
          (record {
            bounds = (
              λ m. absurd (ground (arith, m.0)),
              All-mono _ _ (λ z later m. absurd (none_later key x v ks.0 from other z later m.0)) xs
                  o.0,
            );
            origin = inl refl;
            grows = omega arith;
          })
    | inl same ↦ elim (Bool-cases (ltb (version_of max) (parse_ts x.key))) [
      | inl newer ↦
          rw (from, same, newer)
            (record {
              bounds = (λ m. omega arith, older xs ks.1 o.0 same (parse_ts x.key) (omega arith));
              origin = inr (inl ((same, from), refl));
              grows = ground arith;
            })
      | inr not_newer ↦
          rw (from, same, not_newer)
            (record {
              bounds = (λ m. ground arith, older xs ks.1 o.0 same (version_of max) (ground arith));
              origin = inl refl;
              grows = omega arith;
            })
    ]
  ]
]
  where
    older :
        (ys : List KeyValue)
        → All (λ y. IsKey y.key) ys
        → All (λ y. compare_keys x.key y.key ≡ Ordering.lt) ys
        → same_key key x.key ≡ true
        → (n : ℕ) → parse_ts x.key ≤ n
        → All (λ y. Matches key y → parse_ts y.key ≤ n) ys
    older [] ws later same n le = tt
    older (y ∷ ys) ws later same n le = (
      λ m.
          let e = sym (parse_key-same key x.key same) ∙ parse_key-same key y.key m.0 in
          omega (arith, newer_first x.key y.key ks.0 ws.0 e later.0),
      older ys ws.1 later.1 same n le,
    )
