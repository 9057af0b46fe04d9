-- ===== src/Levels/Get/Whole.antt =====
-- levels.go, get: the answer of the whole tree, the hot tiers first.
use pri_zzl_badger.Base.{
  ℕ, ◌≤◌, ◌≡◌, ◌≢◌, refl, sym, ◌∙◌, subst, Bool, true, false, ◌⊎◌, inl, inr, Option, none, some, [],
  ◌∷◌, arith, ◌==◌, All, All-mono, Any, Bool-cases,
}
use pri_zzl_badger.Bytes.{Bytes}
use pri_zzl_badger.Keys.{parse_ts}
use pri_zzl_badger.Entry.{ValueStruct}
use pri_zzl_badger.Table.{Files}
use pri_zzl_badger.LevelHandler.{LevelHandler}
use pri_zzl_badger.LevelHandler.Get.{Shelf, version_of}
use pri_zzl_badger.LevelHandler.Get.Newest.{IsKey, Found}
use pri_zzl_badger.LevelHandler.Get.Ordered.{IsLevel}
use pri_zzl_badger.Levels.{LevelsController, Answer, answer, get_hot_tier, get_levels, newer, get}
use pri_zzl_badger.Levels.Get.{NewestOver, full-Bounds, Found-le, Answered, raised}
use pri_zzl_badger.Levels.Get.Tiers.{
  IsLayered, newer_lem, newer_le, get_levels-Answered, get_hot_tier-Answered,
}

module _ (fails : ℕ → Bool) (sh : Shelf) (key : Bytes) (s : LevelsController)
    (hot ord : LevelHandler) (ok : (n : ℕ) → fails n ≡ false) (is_key : IsKey key)
    (has_hot : s.hot_tier ≡ some hot) (has_ord : s.hot_tier_ord ≡ some ord)
    (hot_level : IsLevel sh hot) (ord_level : IsLevel sh ord) (layered : IsLayered sh key hot ord)
    (main_levels : All (IsLevel sh) s.levels) where
  get_older :
      (max : Option ValueStruct) (fs fs' : Files) (vs next : Option ValueStruct)
      → get_hot_tier fails sh key hot (some ord) fs ≡ answer vs fs'
      → ((vs ≡ none) × (next ≡ max))
        ⊎ ((w : ValueStruct) × (vs ≡ some w)
            × ((w.version == parse_ts key) ≡ false)
            × (next ≡ newer max w))
      → get fails sh key max 0 s fs ≡ get_levels fails sh key 0 next s.levels fs'
  unfolding get
  get_older max fs fs' vs next e (inl (a, b)) = ground (arith, has_hot, has_ord, e)
  get_older max fs fs' vs next e (inr (w, a, older, b)) = ground (arith, has_hot, has_ord, e, older)

  get_exact :
      (max : Option ValueStruct) (fs fs' : Files) (w : ValueStruct)
      → get_hot_tier fails sh key hot (some ord) fs ≡ answer (some w) fs'
      → (w.version == parse_ts key) ≡ true
      → get fails sh key max 0 s fs ≡ answer (some w) fs'
  unfolding get
  get_exact max fs fs' w e exact = ground (arith, has_hot, has_ord, e, exact)

  -- An answer of the hot tiers is one of the whole tree.
  origin_of :
      {max : Option ValueStruct} (vs : Option ValueStruct)
      → (vs ≡ none) ⊎ Any (λ h. Any (λ t. Found key vs (sh.contents t)) h.tables) (hot ∷ ord ∷ [])
      → vs ≢ none
      → (vs ≡ max)
        ⊎ Any (λ h. Any (λ t. Found key vs (sh.contents t)) h.tables) (hot ∷ ord ∷ s.levels)
  origin_of vs (inl empty) given = absurd (given empty)
  origin_of vs (inr (inl f)) given = inr (inl f)
  origin_of vs (inr (inr (inl f))) given = inr (inr (inl f))
  origin_of vs (inr (inr (inr n))) given = absurd n

  hot_le :
      (w : ValueStruct)
      → (some w ≡ none)
        ⊎ Any (λ h. Any (λ t. Found key (some w) (sh.contents t)) h.tables) (hot ∷ ord ∷ [])
      → w.version ≤ parse_ts key
  hot_le w (inl empty) = absurd (cc)
  hot_le w (inr (inl f)) = Found-le fails sh key ok is_key w hot.tables hot_level.tables f
  hot_le w (inr (inr (inl f))) = Found-le fails sh key ok is_key w ord.tables ord_level.tables f
  hot_le w (inr (inr (inr n))) = absurd n

  -- The hot tiers' answer taken into account, and then the main levels.
  joined :
      (max vs next : Option ValueStruct) (a : Answer)
      → NewestOver sh key none vs (hot ∷ ord ∷ [])
      → version_of vs ≤ version_of next
      → version_of max ≤ version_of next
      → (next ≡ max) ⊎ ((next ≡ vs) × (vs ≢ none))
      → Answered fails sh key ok is_key next s.levels a
      → Answered fails sh key ok is_key max (hot ∷ ord ∷ s.levels) a
  joined max vs next a n le le' from (got, fs', e, w) = (
    got,
    fs',
    e,
    record {
      bounds = (
        raised fails sh key ok is_key vs got hot (omega (arith, w.grows)) n.bounds.0,
        (raised fails sh key ok is_key vs got ord (omega (arith, w.grows)) n.bounds.1.0, w.bounds),
      );
      origin = origin w.origin from;
      grows = omega (arith, w.grows);
    },
  )
    where
      origin :
          (got ≡ next) ⊎ Any (λ h. Any (λ t. Found key got (sh.contents t)) h.tables) s.levels
          → (next ≡ max) ⊎ ((next ≡ vs) × (vs ≢ none))
          → (got ≡ max)
            ⊎ Any (λ h. Any (λ t. Found key got (sh.contents t)) h.tables) (hot ∷ ord ∷ s.levels)
      origin (inr f) from' = inr (inr (inr f))
      origin (inl same) (inl before) = inl (same ∙ before)
      origin (inl same) (inr (hit, given)) =
          subst
            (λ o.
              (o ≡ max)
              ⊎ Any (λ h. Any (λ t. Found key o (sh.contents t)) h.tables) (hot ∷ ord ∷ s.levels))
            (sym (same ∙ hit)) (origin_of vs n.origin given)

  -- get, from any answer of the memtables not newer than the asked key, where every table, level
  -- and hot tier is as it should be, no file fails to be deleted, and the ordered hot tier has no
  -- newer version of the key than the first one: it answers, and of the earlier answer and all
  -- versions of the key in the hot tiers and the main levels, not newer than the asked one, the
  -- answer is the newest; whichever levels were left out after an exact hit.
  pub get-NewestOver :
      (max : Option ValueStruct) (fs : Files)
      → version_of max ≤ parse_ts key
      → (got : Option ValueStruct) × (fs' : Files) × (get fails sh key max 0 s fs ≡ answer got fs')
        × NewestOver sh key max got (hot ∷ ord ∷ s.levels)
  get-NewestOver max fs le =
      let (vs, fs', e, n) =
        get_hot_tier-Answered fails sh key ok is_key hot ord fs hot_level ord_level layered in
      after_hot vs fs' e n
    where
      after_hot :
          (vs : Option ValueStruct) (fs' : Files)
          → get_hot_tier fails sh key hot (some ord) fs ≡ answer vs fs'
          → NewestOver sh key none vs (hot ∷ ord ∷ [])
          → Answered fails sh key ok is_key max (hot ∷ ord ∷ s.levels) (get fails sh key max 0 s fs)
      after_hot none fs' e n = rw (get_older max fs fs' none max e (inl (refl, refl))) (
          joined max none max _ n (omega arith) (omega arith) (inl refl)
            (get_levels-Answered fails sh key ok is_key max s.levels fs' le main_levels))
      after_hot (some w) fs' e n = elim (Bool-cases (w.version == parse_ts key)) [
        | inl exact ↦ rw (get_exact max fs fs' w e exact) (
          some w,
          fs',
          refl,
          record {
            bounds = (
              n.bounds.0,
              (
                n.bounds.1.0,
                All-mono _ _ (λ l v. full-Bounds fails sh key ok is_key (some w) l (ground arith) v)
                    s.levels main_levels,
              ),
            );
            origin = origin_of (some w) n.origin (λ q. cc);
            grows = ground arith;
          },
        )
        | inr older ↦
            let (a, b, c) = newer_lem fails sh key ok is_key max w in
            rw (get_older max fs fs' (some w) (newer max w) e (inr (w, refl, older, refl))) (
              joined max (some w) (newer max w) _ n a b c (
                get_levels-Answered fails sh key ok is_key (newer max w) s.levels fs'
                  (newer_le fails sh key ok is_key max w le (hot_le w n.origin)) main_levels))
      ]
