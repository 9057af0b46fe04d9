-- ===== src/Levels/Get.antt =====
-- levels.go, get: over all levels and the hot tiers, the newest version of a key.
pub mod Tiers
pub mod Whole
use Prim.Native.Nat.{Ordering}
use pri_zzl_badger.Base.{
  ℕ, ◌+◌, ◌≤◌, ◌<◌, ◌≡◌, ◌≢◌, refl, sym, ◌∙◌, subst, Bool, true, false, ◌⊎◌, inl, inr, Option, none,
  some, List, [], ◌∷◌, arith, ltb, ◌==◌, All, All-mono, Any, Bool-cases, Option-cases, ap,
  eq_of_some,
}
use pri_zzl_badger.Bytes.{Bytes}
use pri_zzl_badger.Bytes.Order.{Ordering-cases}
use pri_zzl_badger.Keys.{parse_ts, compare_keys, parse_key, same_key}
use pri_zzl_badger.Keys.Order.{compare_keys-flip, parse_key-same}
use pri_zzl_badger.Entry.{ValueStruct}
use pri_zzl_badger.Table.{Table, Files, decr_ref}
use pri_zzl_badger.Compaction.{is_lt}
use pri_zzl_badger.Iter.{KeyValue}
use pri_zzl_badger.LevelHandler.{LevelHandler, decr_refs, get_table_for_key}
use pri_zzl_badger.LevelHandler.Get as LevelGet
use pri_zzl_badger.LevelHandler.Get.{Shelf, version_of, stamped}
use pri_zzl_badger.LevelHandler.Get.Newest.{IsKey, Matches, Bounds, Found, newer_first, eq_of_IsKey}
use pri_zzl_badger.LevelHandler.Get.Ordered.{Holds, IsNewest, IsLevel, get-IsNewest}
use pri_zzl_badger.Levels.{
  LevelsController, Answer, fault, failed, answer, level_get, get_hot_tier, get_levels, newer, get,
}

-- Of the asked key there is no newer version than the asked one.
Matches-le :
    (key : Bytes) (x : KeyValue)
    → IsKey key
    → IsKey x.key
    → Matches key x
    → parse_ts x.key ≤ parse_ts key
Matches-le key x v w m = elim (Ordering-cases (compare_keys key x.key)) [
  | inl before ↦ omega (arith, newer_first key x.key v w (parse_key-same key x.key m.0) before)
  | inr (inl at) ↦ rw (eq_of_IsKey key x.key v w at) (omega arith)
  | inr (inr after) ↦ absurd (ground (arith, compare_keys-flip key x.key, m.1))
]

decr_ref-ok :
    (fails : ℕ → Bool) (t : Table) (fs : Files)
    → ((n : ℕ) → fails n ≡ false)
    → (decr_ref fails t fs).1 ≡ false
unfolding decr_ref
decr_ref-ok fails t fs ok = ground (arith, ok t.id)

decr_refs-ok :
    (fails : ℕ → Bool) (ts : List Table) (fs : Files)
    → ((n : ℕ) → fails n ≡ false)
    → (decr_refs fails ts fs).1 ≡ false
unfolding decr_refs
decr_refs-ok fails [] fs ok = refl
decr_refs-ok fails (t ∷ ts) fs ok =
    ground (arith, decr_ref-ok fails t fs ok, decr_refs-ok fails ts (decr_ref fails t fs).0 ok)

get-ok :
    (fails : ℕ → Bool) (sh : Shelf) (key : Bytes) (s : LevelHandler) (fs : Files)
    → ((n : ℕ) → fails n ≡ false)
    → (got : Option ValueStruct) (fs' : Files)
    → LevelGet.get fails sh key s fs ≢ some (got, fs', true)
unfolding LevelGet.get get_table_for_key
get-ok fails sh key s fs ok got fs' e =
    let held = get_table_for_key key s fs in ground (arith, decr_refs-ok fails held.0 held.1 ok)

-- The answer over several levels: no table of theirs has a newer version, and the answer is the
-- newest of what was known before and of their versions.
pub record NewestOver (sh : Shelf) (key : Bytes) (max got : Option ValueStruct)
    (hs : List LevelHandler) : Type 0 where
  pub bounds : All (λ h. All (λ t. Bounds key got (sh.contents t)) h.tables) hs
  pub origin : (got ≡ max) ⊎ Any (λ h. Any (λ t. Found key got (sh.contents t)) h.tables) hs
  pub grows : version_of max ≤ version_of got

module _ (fails : ℕ → Bool) (sh : Shelf) (key : Bytes) (ok : (n : ℕ) → fails n ≡ false)
    (is_key : IsKey key) where
  -- One level.
  pub level_get-IsNewest :
      (s : LevelHandler) (fs : Files)
      → IsLevel sh s
      → (got : Option ValueStruct) × (fs' : Files) × (level_get fails sh key s fs ≡ answer got fs')
        × IsNewest sh key got s.tables
  unfolding level_get
  level_get-IsNewest s fs v =
      let (got, fs', err, e, n) = get-IsNewest fails sh key s fs is_key v in
      (got, fs', answered got fs' err e, n)
    where
      answered :
          (got : Option ValueStruct) (fs' : Files) (err : Bool)
          → LevelGet.get fails sh key s fs ≡ some (got, fs', err)
          → level_get fails sh key s fs ≡ answer got fs'
      answered got fs' true e = absurd (get-ok fails sh key s fs ok got fs' e)
      answered got fs' false e = ground (arith, e)

  -- A version equal to the asked one bounds every level.
  pub full-Bounds :
      (got : Option ValueStruct) (s : LevelHandler)
      → version_of got ≡ parse_ts key
      → IsLevel sh s
      → All (λ t. Bounds key got (sh.contents t)) s.tables
  full-Bounds got s e v =
      All-mono _ _
        (λ t holds.
          All-mono _ _ (λ x k m. omega (arith, Matches-le key x is_key k m, e)) (sh.contents t)
            holds.keys)
        s.tables v.tables

  abbrev pub Answered : Option ValueStruct → List LevelHandler → Answer → Type 0
  Answered max hs a =
      (got : Option ValueStruct) × (fs' : Files) × (a ≡ answer got fs')
      × NewestOver sh key max got hs

  pub raised :
      (a b : Option ValueStruct) (h : LevelHandler)
      → version_of a ≤ version_of b
      → All (λ t. Bounds key a (sh.contents t)) h.tables
      → All (λ t. Bounds key b (sh.contents t)) h.tables
  raised a b h le v =
      All-mono _ _ (λ t w. All-mono _ _ (λ x f m. omega (arith, f m)) (sh.contents t) w) h.tables v

  -- A level's answer taken into account, and then the other levels.
  pub then_levels :
      (h : LevelHandler) (hs : List LevelHandler) (max vs next : Option ValueStruct) (a : Answer)
      → IsNewest sh key vs h.tables
      → version_of vs ≤ version_of next
      → version_of max ≤ version_of next
      → (next ≡ max) ⊎ ((next ≡ vs) × (vs ≢ none))
      → Answered next hs a
      → Answered max (h ∷ hs) a
  then_levels h hs max vs next a n le le' from (got, fs', e, w) = (
    got,
    fs',
    e,
    record {
      bounds = (raised vs got h (omega (arith, w.grows)) n.bounds, w.bounds);
      origin = origin from w.origin n.origin;
      grows = omega (arith, w.grows);
    },
  )
    where
      origin :
          (next ≡ max) ⊎ ((next ≡ vs) × (vs ≢ none))
          → (got ≡ next) ⊎ Any (λ l. Any (λ t. Found key got (sh.contents t)) l.tables) hs
          → (vs ≡ none) ⊎ Any (λ t. Found key vs (sh.contents t)) h.tables
          → (got ≡ max) ⊎ Any (λ l. Any (λ t. Found key got (sh.contents t)) l.tables) (h ∷ hs)
      origin f (inr found) m = inr (inr found)
      origin (inl same) (inl e') m = inl (e' ∙ same)
      origin (inr (same, given)) (inl e') (inl empty) = absurd (given empty)
      origin (inr (same, given)) (inl e') (inr found) = inr (
          inl
            (subst (λ o. Any (λ t. Found key o (sh.contents t)) h.tables) (sym (e' ∙ same)) found))

  -- A level's answer that is the asked version itself: the other levels are not asked.
  pub at_once :
      (h : LevelHandler) (hs : List LevelHandler) (max : Option ValueStruct) (vs : ValueStruct)
      (fs' : Files)
      → IsNewest sh key (some vs) h.tables
      → All (IsLevel sh) hs
      → vs.version ≡ parse_ts key
      → version_of max ≤ parse_ts key
      → Answered max (h ∷ hs) (answer (some vs) fs')
  at_once h hs max vs fs' n v e le = (
    some vs,
    fs',
    refl,
    record {
      bounds = (n.bounds, All-mono _ _ (λ l w. full-Bounds (some vs) l e w) hs v);
      origin = elim (n.origin) [ inl none_ ↦ absurd (cc) | inr f ↦ inr (inl f) ];
      grows = omega arith;
    },
  )

  Found-pair :
      (got : ValueStruct) (xs : List KeyValue)
      → All (λ x. IsKey x.key) xs
      → Found key (some got) xs
      → got.version ≤ parse_ts key
  Found-pair got [] ks f = absurd f
  Found-pair got (x ∷ xs) ks (inl (m, e)) =
      let same : got ≡ stamped x = eq_of_some e in
      omega (arith, ap (λ (v : ValueStruct). v.version) same, Matches-le key x is_key ks.0 m)
  Found-pair got (x ∷ xs) ks (inr f) = Found-pair got xs ks.1 f

  -- An answer found in tables is not newer than the asked key.
  pub Found-le :
      (got : ValueStruct) (ts : List Table)
      → All (Holds sh) ts
      → Any (λ t. Found key (some got) (sh.contents t)) ts
      → got.version ≤ parse_ts key
  Found-le got [] v f = absurd f
  Found-le got (t ∷ ts) v (inl f) = Found-pair got (sh.contents t) v.0.keys f
  Found-le got (t ∷ ts) v (inr f) = Found-le got ts v.1 f
