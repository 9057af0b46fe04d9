-- ===== src/Levels/Get/Tiers.antt =====
-- levels.go, get: the answer of the levels, and of the two hot tiers before them.
use pri_zzl_badger.Base.{
  ℕ, ◌≤◌, ◌≡◌, ◌≢◌, refl, sym, subst, Bool, true, false, ◌⊎◌, inl, inr, Option, none, some, List,
  [], ◌∷◌, arith, ltb, ◌==◌, All, Any, Bool-cases, eq_of_some,
}
use pri_zzl_badger.Bytes.{Bytes}
use pri_zzl_badger.Keys.{parse_ts}
use pri_zzl_badger.Entry.{ValueStruct}
use pri_zzl_badger.Table.{Table, Files}
use pri_zzl_badger.Iter.{KeyValue}
use pri_zzl_badger.LevelHandler.{LevelHandler}
use pri_zzl_badger.LevelHandler.Get.{Shelf, version_of, stamped}
use pri_zzl_badger.LevelHandler.Get.Newest.{IsKey, Matches, Bounds, Found}
use pri_zzl_badger.LevelHandler.Get.Ordered.{IsNewest, IsLevel}
use pri_zzl_badger.Levels.{answer, level_get, get_hot_tier, get_levels, newer}
use pri_zzl_badger.Levels.Get.{level_get-IsNewest, Found-le, Answered, then_levels, at_once, raised}

-- No version of the key in the ordered hot tier is newer than one in the first.
abbrev pub IsLayered : Shelf → Bytes → LevelHandler → LevelHandler → Type 0
IsLayered sh key hot ord =
    All
      (λ t.
        All
          (λ y.
            Matches key y
            → All (λ u. All (λ x. Matches key x → parse_ts x.key ≤ parse_ts y.key) (sh.contents u))
                ord.tables)
          (sh.contents t))
      hot.tables

module _ (fails : ℕ → Bool) (sh : Shelf) (key : Bytes) (ok : (n : ℕ) → fails n ≡ false)
    (is_key : IsKey key) where
  level_none :
      (max : Option ValueStruct) (h : LevelHandler) (hs : List LevelHandler) (fs fs' : Files)
      → level_get fails sh key h fs ≡ answer none fs'
      → get_levels fails sh key 0 max (h ∷ hs) fs ≡ get_levels fails sh key 0 max hs fs'
  unfolding get_levels
  level_none max h hs fs fs' e = ground (arith, e)

  level_exact :
      (max : Option ValueStruct) (h : LevelHandler) (hs : List LevelHandler) (fs fs' : Files)
      (vs : ValueStruct)
      → level_get fails sh key h fs ≡ answer (some vs) fs'
      → (vs.version == parse_ts key) ≡ true
      → get_levels fails sh key 0 max (h ∷ hs) fs ≡ answer (some vs) fs'
  unfolding get_levels
  level_exact max h hs fs fs' vs e exact = ground (arith, e, exact)

  level_older :
      (max : Option ValueStruct) (h : LevelHandler) (hs : List LevelHandler) (fs fs' : Files)
      (vs : ValueStruct)
      → level_get fails sh key h fs ≡ answer (some vs) fs'
      → (vs.version == parse_ts key) ≡ false
      → get_levels fails sh key 0 max (h ∷ hs) fs ≡ get_levels fails sh key 0 (newer max vs) hs fs'
  unfolding get_levels
  level_older max h hs fs fs' vs e older = ground (arith, e, older)

  -- What `newer` makes of two answers.
  pub newer_lem :
      (max : Option ValueStruct) (vs : ValueStruct)
      → (vs.version ≤ version_of (newer max vs))
        × (version_of max ≤ version_of (newer max vs))
        × ((newer max vs ≡ max) ⊎ ((newer max vs ≡ some vs) × (some vs ≢ none)))
  newer_lem max vs = elim (Bool-cases (ltb (version_of max) vs.version)) [
    | inl above ↦ rw above (omega arith, ground arith, inr (refl, λ e. cc))
    | inr below ↦ rw below (ground arith, omega arith, inl refl)
  ]

  newest_le :
      (vs : ValueStruct) (h : LevelHandler)
      → IsLevel sh h
      → IsNewest sh key (some vs) h.tables
      → vs.version ≤ parse_ts key
  newest_le vs h v n = elim (n.origin) [
    | inl none_ ↦ absurd (cc)
    | inr f ↦ Found-le fails sh key ok is_key vs h.tables v.tables f
  ]

  pub newer_le :
      (max : Option ValueStruct) (vs : ValueStruct)
      → version_of max ≤ parse_ts key
      → vs.version ≤ parse_ts key
      → version_of (newer max vs) ≤ parse_ts key
  newer_le max vs a b = ground arith

  pub get_levels-Answered :
      (max : Option ValueStruct) (hs : List LevelHandler) (fs : Files)
      → version_of max ≤ parse_ts key
      → All (IsLevel sh) hs
      → Answered fails sh key ok is_key max hs (get_levels fails sh key 0 max hs fs)
  unfolding get_levels
  get_levels-Answered max [] fs le v =
      (max, fs, refl, record { bounds = tt; origin = inl refl; grows = omega arith })
  get_levels-Answered max (h ∷ hs) fs le v =
      let (vs, fs', e, n) = level_get-IsNewest fails sh key ok is_key h fs v.0 in
      asked vs fs' e n (λ m l. get_levels-Answered m hs fs' l v.1)
    where
      asked :
          (vs : Option ValueStruct) (fs' : Files)
          → level_get fails sh key h fs ≡ answer vs fs'
          → IsNewest sh key vs h.tables
          → ((m : Option ValueStruct)
              → version_of m ≤ parse_ts key
              → Answered fails sh key ok is_key m hs (get_levels fails sh key 0 m hs fs'))
          → Answered fails sh key ok is_key max (h ∷ hs) (get_levels fails sh key 0 max (h ∷ hs) fs)
      asked none fs' e n next = rw (level_none max h hs fs fs' e) (
          then_levels fails sh key ok is_key h hs max none max _ n (omega arith) (omega arith)
            (inl refl) (next max le))
      asked (some vs) fs' e n next = elim (Bool-cases (vs.version == parse_ts key)) [
        | inl exact ↦
            rw (level_exact max h hs fs fs' vs e exact)
              (at_once fails sh key ok is_key h hs max vs fs' n v.1 (ground arith) le)
        | inr older ↦
            let (a, b, c) = newer_lem max vs in
            rw (level_older max h hs fs fs' vs e older) (
              then_levels fails sh key ok is_key h hs max (some vs) (newer max vs) _ n a b c
                (next (newer max vs) (newer_le max vs le (newest_le vs h v.0 n))))
      ]

  -- A version of the first hot tier bounds the second.
  layered-Bounds :
      (vs : ValueStruct) (ts : List Table) (ord : LevelHandler)
      → All
          (λ t.
            All
              (λ y.
                Matches key y
                → All
                    (λ u.
                      All (λ x. Matches key x → parse_ts x.key ≤ parse_ts y.key) (sh.contents u))
                    ord.tables)
              (sh.contents t))
          ts
      → Any (λ t. Found key (some vs) (sh.contents t)) ts
      → All (λ u. Bounds key (some vs) (sh.contents u)) ord.tables
  layered-Bounds vs [] ord l f = absurd f
  layered-Bounds vs (t ∷ ts) ord l (inr f) = layered-Bounds vs ts ord l.1 f
  layered-Bounds vs (t ∷ ts) ord l (inl f) = in_table (sh.contents t) l.0 f
    where
      in_table :
          (ys : List KeyValue)
          → All
              (λ y.
                Matches key y
                → All
                    (λ u.
                      All (λ x. Matches key x → parse_ts x.key ≤ parse_ts y.key) (sh.contents u))
                    ord.tables)
              ys
          → Found key (some vs) ys
          → All (λ u. Bounds key (some vs) (sh.contents u)) ord.tables
      in_table [] k g = absurd g
      in_table (y ∷ ys) k (inr g) = in_table ys k.1 g
      in_table (y ∷ ys) k (inl (m, e)) =
          let same : vs ≡ stamped y = eq_of_some e in
          subst (λ w. All (λ u. Bounds key (some w) (sh.contents u)) ord.tables) (sym same) (k.0 m)

  hot_first :
      (hot ord : LevelHandler) (fs fs' : Files) (vs : Option ValueStruct)
      → level_get fails sh key hot fs ≡ answer vs fs'
      → ltb 0 (version_of vs) ≡ true
      → get_hot_tier fails sh key hot (some ord) fs ≡ answer vs fs'
  unfolding get_hot_tier
  hot_first hot ord fs fs' vs e above = ground (arith, e, above)

  hot_second :
      (hot ord : LevelHandler) (fs fs' : Files) (vs : Option ValueStruct)
      → level_get fails sh key hot fs ≡ answer vs fs'
      → ltb 0 (version_of vs) ≡ false
      → get_hot_tier fails sh key hot (some ord) fs ≡ level_get fails sh key ord fs'
  unfolding get_hot_tier
  hot_second hot ord fs fs' vs e zero_ = ground (arith, e, zero_)

  pub get_hot_tier-Answered :
      (hot ord : LevelHandler) (fs : Files)
      → IsLevel sh hot
      → IsLevel sh ord
      → IsLayered sh key hot ord
      → Answered fails sh key ok is_key none
          (hot ∷ ord ∷ [])
          (get_hot_tier fails sh key hot (some ord) fs)
  get_hot_tier-Answered hot ord fs v w l =
      let (vs, fs', e, n) = level_get-IsNewest fails sh key ok is_key hot fs v in
      elim (Bool-cases (ltb 0 (version_of vs))) [
        | inl above ↦ rw (hot_first hot ord fs fs' vs e above) (first vs fs' n above)
        | inr zero_ ↦
            let (us, fs'', e', n') = level_get-IsNewest fails sh key ok is_key ord fs' w in
            rw (hot_second hot ord fs fs' vs e zero_, e')
              (
                us,
                fs'',
                refl,
                record {
                  bounds = (
                    raised fails sh key ok is_key vs us hot (ground arith) n.bounds,
                    (n'.bounds, tt),
                  );
                  origin = elim (n'.origin) [ inl none_ ↦ inl none_ | inr f ↦ inr (inr (inl f)) ];
                  grows = omega arith;
                },
              )
      ]
    where
      first :
          (vs : Option ValueStruct) (fs' : Files)
          → IsNewest sh key vs hot.tables
          → ltb 0 (version_of vs) ≡ true
          → Answered fails sh key ok is_key none (hot ∷ ord ∷ []) (answer vs fs')
      first none fs' n above = absurd (ground arith)
      first (some vs) fs' n above = elim (n.origin) [
        | inl none_ ↦ absurd (cc)
        | inr f ↦ (
          some vs,
          fs',
          refl,
          record {
            bounds = (n.bounds, (layered-Bounds vs hot.tables ord l f, tt));
            origin = inr (inl f);
            grows = omega arith;
          },
        )
      ]
