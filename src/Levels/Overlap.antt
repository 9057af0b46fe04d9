-- ===== src/Levels/Overlap.antt =====
-- levels.go, checkOverlap: whether a compaction may drop deletion markers, because no table below
-- holds a key of its range.
use pri_zzl_badger.Base.{
  ℕ, zero, suc, ◌+◌, ◌≤◌, ◌<◌, ◌≡◌, refl, sym, subst, false, ◌⊎◌, inl, inr, some, List, [], ◌∷◌,
  arith, length, get_elem?, ◌==◌, Bool-cases, eq_of_some, if◌then◌else◌,
}
use pri_zzl_badger.Bytes.{Bytes}
use pri_zzl_badger.Bytes.Order.{compare_bytes_refl}
use pri_zzl_badger.Keys.{key_with_ts, parse_key, max_uint64}
use pri_zzl_badger.Keys.Order.{length-key_with_ts, compare_keys_trans}
use pri_zzl_badger.Table.{Table}
use pri_zzl_badger.Compaction.{KeyRange, get_key_range, is_empty, smallest_of, biggest_of}
use pri_zzl_badger.Compaction.Ranges.{Within, overlaps_with_sound}
use pri_zzl_badger.LevelHandler.{LevelHandler}
use pri_zzl_badger.LevelHandler.Order.{AreDisjoint, UpTo}
use pri_zzl_badger.LevelHandler.Overlap.{overlapping_tables_iff}
use pri_zzl_badger.LevelHandler.Get.Newest.{IsKey, compare-IsKey, IsKey-user}
use pri_zzl_badger.Levels.{
  LevelsController, check_overlap, main_overlap, any_table_overlaps, meets_ordered,
}

-- The key lies between the ends of the range.
abbrev pub Covers : KeyRange → Bytes → Type 0
Covers kr x = UpTo kr.left x × UpTo x kr.right

-- The key lies between the ends of the table.
abbrev pub Spans : Table → Bytes → Type 0
Spans t x = UpTo t.smallest x × UpTo x t.biggest

-- On an ordered level that does not meet the range, no table spans a key of it.
ordered_apart :
    (kr : KeyRange) (lh : LevelHandler) (i : ℕ) (t : Table) (x : Bytes)
    → 0 < length kr.left
    → 0 < length kr.right
    → AreDisjoint lh.tables
    → get_elem? lh.tables i ≡ some t
    → meets_ordered kr lh ≡ false
    → Covers kr x
    → Spans t x
    → ⊥
ordered_apart kr lh i t x left right d at apart c s =
    let inside = (overlapping_tables_iff lh kr left right d i t at).1 (
      compare_keys_trans kr.left x t.biggest c.0 s.1,
      compare_keys_trans t.smallest x kr.right s.0 c.1,
    ) in
    ground (arith, inside.0, inside.1)

first_version : (b : Bytes) → IsKey b → UpTo (key_with_ts (parse_key b) max_uint64) b
first_version b v = rw (IsKey-user v) (up)
  where
    newest : IsKey (key_with_ts v.user max_uint64)
    newest = record {
      user = v.user;
      ts = max_uint64;
      given = v.given;
      bound = omega arith;
      built = refl;
    }

    up : UpTo (key_with_ts v.user max_uint64) b
    up g = ground (
      arith,
      compare-IsKey (key_with_ts v.user max_uint64) b newest v,
      compare_bytes_refl v.user,
      v.bound,
    )

last_version : (b : Bytes) → IsKey b → UpTo b (key_with_ts (parse_key b) 0)
last_version b v = rw (IsKey-user v) (up)
  where
    oldest : IsKey (key_with_ts v.user 0)
    oldest = record { user = v.user; ts = 0; given = v.given; bound = omega arith; built = refl }

    up : UpTo b (key_with_ts v.user 0)
    up g =
        ground (arith, compare-IsKey b (key_with_ts v.user 0) v oldest, compare_bytes_refl v.user)

-- A table that spans a key has it in its range, with all versions of its ends.
table_range-Within :
    (t : Table) (x : Bytes)
    → IsKey t.smallest
    → IsKey t.biggest
    → Spans t x
    → Within x (get_key_range (t ∷ []))
unfolding get_key_range smallest_of biggest_of is_empty
table_range-Within t x small big s = record {
  not_empty = ground (arith, length-key_with_ts (parse_key t.smallest) max_uint64);
  low = λ h. compare_keys_trans _ t.smallest x (first_version t.smallest small) s.0;
  high = λ h. compare_keys_trans x t.biggest _ s.1 (last_version t.biggest big);
}

-- The range of some tables has both its ends.
pub range_ends :
    (t : Table) (ts : List Table)
    → (0 < length (get_key_range (t ∷ ts)).left)
      × (0 < length (get_key_range (t ∷ ts)).right)
      × ((get_key_range (t ∷ ts)).inf ≡ false)
      × (is_empty (get_key_range (t ∷ ts)) ≡ false)
unfolding get_key_range is_empty
range_ends t ts =
    let l = length-key_with_ts (parse_key (smallest_of t.smallest ts)) max_uint64 in
    let r = length-key_with_ts (parse_key (biggest_of t.biggest ts)) 0 in
    (omega (arith, l), omega (arith, r), refl, ground (arith, l))

-- Among tables that may overlap, none that spans a key of the range goes unnoticed.
unordered_apart :
    (kr : KeyRange) (ts : List Table) (i : ℕ) (t : Table) (x : Bytes)
    → is_empty kr ≡ false
    → IsKey t.smallest
    → IsKey t.biggest
    → get_elem? ts i ≡ some t
    → any_table_overlaps kr ts ≡ false
    → Covers kr x
    → Spans t x
    → ⊥
unfolding any_table_overlaps
unordered_apart kr [] i t x ne small big at apart c s = absurd (cc)
unordered_apart kr (u ∷ ts) (suc i) t x ne small big at apart c s =
    unordered_apart kr ts i t x ne small big at (ground arith) c s
unordered_apart kr (u ∷ ts) zero t x ne small big at apart c s =
    let within =
      subst (λ w. Within x (get_key_range (w ∷ []))) (sym (eq_of_some at))
        (table_range-Within t x small big s) in
    ground (
      arith,
      overlaps_with_sound x (get_key_range (u ∷ [])) kr within
          (record { not_empty = ne; low = λ h. c.0; high = λ h. c.1 }),
    )

-- The loop over the main levels.
main_apart :
    (kr : KeyRange) (lev current_lev base i j : ℕ) (ls : List LevelHandler) (lh : LevelHandler)
    → get_elem? ls j ≡ some lh
    → i ≡ base + j
    → (98 ≤ current_lev) ⊎ (lev ≤ i)
    → main_overlap kr lev current_lev base ls ≡ false
    → (if i == 0 then any_table_overlaps kr lh.tables else meets_ordered kr lh) ≡ false
unfolding main_overlap
main_apart kr lev cur base i j [] lh at e from none_over = absurd (cc)
main_apart kr lev cur base i zero (l ∷ ls) lh at e from none_over =
    subst (λ w. (if i == 0 then any_table_overlaps kr w.tables else meets_ordered kr w) ≡ false)
      (eq_of_some at) (here from)
  where
    same : i ≡ base
    same = omega arith

    here :
        (98 ≤ cur) ⊎ (lev ≤ i)
        → (if i == 0 then any_table_overlaps kr l.tables else meets_ordered kr l) ≡ false
    here (inl hot) = rw same (ground arith)
    here (inr below) = rw same (ground arith)
main_apart kr lev cur base i (suc j) (l ∷ ls) lh at e from none_over =
    main_apart kr lev cur (suc base) i j ls lh at (omega arith) from (ground arith)

module _ (u : Table) (us : List Table) (lev current_lev base_level : ℕ) (s : LevelsController)
    (clear : check_overlap (u ∷ us) lev current_lev base_level s ≡ false) where
  -- Where checkOverlap finds nothing for a compaction of some tables: no table of a main level
  -- that it looks at, from `lev` on, or all of them for a compaction in the hot tiers, spans a key
  -- of the compaction's range. The levels below the first are to be in order and apart.
  pub check_overlap_sound :
      (i j : ℕ) (lh : LevelHandler) (t : Table) (x : Bytes)
      → get_elem? s.levels i ≡ some lh
      → get_elem? lh.tables j ≡ some t
      → (98 ≤ current_lev) ⊎ (lev ≤ i)
      → (0 < i → AreDisjoint lh.tables)
      → IsKey t.smallest
      → IsKey t.biggest
      → Covers (get_key_range (u ∷ us)) x
      → ¬ Spans t x
  unfolding check_overlap
  check_overlap_sound i j lh t x at at_t from d small big c sp =
      let kr = get_key_range (u ∷ us) in
      let (left, right, bounded, not_empty) = range_ends u us in
      let apart =
        main_apart kr lev current_lev 0 i i s.levels lh at (omega arith) from (ground arith) in
      elim (Bool-cases (i == 0)) [
        | inl first ↦
            unordered_apart kr lh.tables j t x not_empty small big at_t (ground (arith, apart)) c sp
        | inr later ↦
            ordered_apart kr lh j t x left right (d (ground arith)) at_t (ground (arith, apart)) c
              sp
      ]

  -- Where checkOverlap finds nothing for a compaction that starts above the base level: no table
  -- of the hot tiers spans a key of its range. The second tier is to be in order and apart.
  pub check_overlap-hot_sound :
      (j : ℕ) (h : LevelHandler) (t : Table) (x : Bytes)
      → current_lev < base_level
      → ((s.hot_tier ≡ some h) ⊎ ((s.hot_tier_ord ≡ some h) × AreDisjoint h.tables))
      → get_elem? h.tables j ≡ some t
      → IsKey t.smallest
      → IsKey t.biggest
      → Covers (get_key_range (u ∷ us)) x
      → ¬ Spans t x
  unfolding check_overlap
  check_overlap-hot_sound j h t x above tier at_t small big c sp =
      let kr = get_key_range (u ∷ us) in
      let (left, right, bounded, not_empty) = range_ends u us in
      elim (tier) [
        | inl first ↦
            unordered_apart kr h.tables j t x not_empty small big at_t (ground (arith, first)) c sp
        | inr (second, d) ↦ ordered_apart kr h j t x left right d at_t (ground (arith, second)) c sp
      ]

-- A compaction of level 0 into itself is not told of the other tables of level 0, whatever keys
-- they hold: older ones that the choice of tables left behind included.
pub check_overlap-level_zero :
    (tables : List Table) (base_level : ℕ) (l l' : LevelHandler) (s : LevelsController)
    (ls : List LevelHandler)
    → check_overlap tables 1 0 base_level (record s { levels = l ∷ ls })
      ≡ check_overlap tables 1 0 base_level (record s { levels = l' ∷ ls })
unfolding check_overlap main_overlap
check_overlap-level_zero tables base_level l l' s ls = refl
