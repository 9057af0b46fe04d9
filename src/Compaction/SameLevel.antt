-- ===== src/Compaction/SameLevel.antt =====
-- A compaction within one level, as fillMaxLevelTables sets it up: the range of the tables that it
-- takes along is entered at the level too.
use pri_zzl_badger.Base.{
  ℕ, ◌≡◌, refl, ap, ◌∙◌, subst, Bool, true, false, some, List, [], ◌∷◌, ◌++◌, inl, inr, arith,
  Bool-cases, Option-cases, eq_of_some,
}
use pri_zzl_badger.Base.Int.{◌-ℤ◌}
use pri_zzl_badger.Compaction.{
  KeyRange, equals, overlaps_with, any_overlaps, any_equals, remove_range, LevelCompactStatus,
  CompactStatus, get_level_status, set_level_status, level_overlaps, CompactDef, ids, enter,
  compare_and_add, leave, unmark, delete, add_range, grow,
}
use pri_zzl_badger.Compaction.Ranges.{remove_range-append, any_overlaps-append}
use pri_zzl_badger.Compaction.Status.{
  get-set, compare_and_add-inv, level_overlaps-inv, update_level-some, get_level_status-tables,
}

-- What the level holds while the compaction runs.
enter-same_level :
    (cs : CompactStatus) (cd : CompactDef) (t : CompactStatus)
    → cd.this_level ≡ cd.next_level
    → compare_and_add cs cd ≡ some (true, t)
    → (s : LevelCompactStatus) × (get_level_status t cd.this_level
        ≡ some (add_range cd.next_range (grow cd.this_size (add_range cd.this_range s))))
unfolding enter
enter-same_level cs cd t same e =
    let (o1, o2, en) = compare_and_add-inv cs cd t e in
    let (s, at, free) = level_overlaps-inv cs cd.this_level cd.this_range o1 in
    let g = grow cd.this_size (add_range cd.this_range s) in
    let a = set_level_status cs cd.this_level g in
    let a_at : get_level_status a cd.next_level ≡ some g =
      ground (arith, get-set cs cd.this_level cd.next_level s g at) in
    let n = add_range cd.next_range g in
    let b = set_level_status a cd.next_level n in
    let up1 =
      update_level-some cs cd.this_level (λ s. grow cd.this_size (add_range cd.this_range s)) s
        at in
    let up2 = update_level-some a cd.next_level (add_range cd.next_range) g a_at in
    let done : record b { tables = ids (cd.top ++ cd.bot) ++ b.tables } ≡ t =
      eq_of_some (rw (up1, up2, enter) at en) in
    let b_at : get_level_status b cd.this_level ≡ some n =
      ground (arith, get-set a cd.next_level cd.this_level g n a_at) in
    (
      s,
      subst (λ x. get_level_status x cd.this_level ≡ some n) done
          (get_level_status-tables b _ cd.this_level ∙ b_at),
    )

-- What leave does where both levels are one.
leave-same_level :
    (t : CompactStatus) (cd : CompactDef) (s : LevelCompactStatus)
    → cd.this_level ≡ cd.next_level
    → get_level_status t cd.this_level ≡ some s
    → (n : LevelCompactStatus) × (n.ranges ≡ remove_range s.ranges cd.this_range)
      × (leave t cd ≡ some (any_equals s.ranges cd.this_range, set_level_status t cd.this_level n))
unfolding leave
leave-same_level t cd s same at = (
  record { ranges = remove_range s.ranges cd.this_range; del_size = s.del_size -ℤ cd.this_size },
  refl,
  ground (arith, at),
)

delete-levels :
    (t : CompactStatus) (cd : CompactDef) (found : Bool) (a u : CompactStatus)
    → leave t cd ≡ some (found, a)
    → delete t cd ≡ some u
    → (m : ℕ) → get_level_status u m ≡ get_level_status a m
unfolding delete
delete-levels t cd found a u left e m =
    elim (Option-cases (unmark (ids (cd.top ++ cd.bot)) a.tables)) [
      | inl fault ↦ absurd (ground (arith, left, fault))
      | inr (ts, marked) ↦ elim (Bool-cases found) [
        | inl was_found ↦
            let same : record a { tables = ts } ≡ u = ground (arith, left, marked) in
            subst (λ x. get_level_status x m ≡ get_level_status a m) same
              (get_level_status-tables a ts m)
        | inr not_found ↦ absurd (ground (arith, left))
      ]
    ]

-- The next range of the compaction is still there, so that it refuses itself.
kept_range :
    (rs : List KeyRange) (this next : KeyRange)
    → equals next this ≡ false
    → overlaps_with next next ≡ true
    → any_overlaps (remove_range ((rs ++ (this ∷ [])) ++ (next ∷ [])) this) next ≡ true
unfolding remove_range any_overlaps
kept_range rs this next ne self = ground (
  arith,
  remove_range-append (rs ++ (this ∷ [])) (next ∷ []) this,
  any_overlaps-append (remove_range (rs ++ (this ∷ [])) this) (next ∷ []) next,
)

-- After a compaction within one level whose next range is not its own range, and which was let in
-- and has ended, the level still refuses every compaction with that next range, where that range
-- overlaps with itself.
pub delete-same_level :
    (cs : CompactStatus) (cd : CompactDef) (t u : CompactStatus)
    → cd.this_level ≡ cd.next_level
    → equals cd.next_range cd.this_range ≡ false
    → overlaps_with cd.next_range cd.next_range ≡ true
    → compare_and_add cs cd ≡ some (true, t)
    → delete t cd ≡ some u
    → level_overlaps u cd.next_level cd.next_range ≡ some true
unfolding delete level_overlaps
delete-same_level cs cd t u same ne self e ended =
    let (s, at) = enter-same_level cs cd t same e in
    let (n, ranges, left) = leave-same_level t cd _ same at in
    let a = set_level_status t cd.this_level n in
    let a_at : get_level_status a cd.next_level ≡ some n =
      ground (arith, get-set t cd.this_level cd.next_level _ n at) in
    let kept = kept_range s.ranges cd.this_range cd.next_range ne self in
    let over : any_overlaps n.ranges cd.next_range ≡ true =
      ap (λ x. any_overlaps x cd.next_range) ranges ∙ kept in
    let final : get_level_status u cd.next_level ≡ some n =
      delete-levels t cd _ a u left ended cd.next_level ∙ a_at in
    rw (final, level_overlaps) (ap some over)
