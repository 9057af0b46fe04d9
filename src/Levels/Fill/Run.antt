-- ===== src/Levels/Fill/Run.antt =====
-- levels.go, fillTablesL0ToL0: the tables of level 0 that are compacted among themselves stand next
-- to each other.
use pri_zzl_badger.Base.{
  ℕ, ◌≤◌, ◌≡◌, refl, ap, sym, ◌∙◌, Bool, true, false, some, List, [], ◌∷◌, ◌++◌, arith, length, All,
  All-mono, elem, set, ◌⊎◌, Bool-cases, inl, inr, Option-cases,
}
use pri_zzl_badger.Base.Int.{ℤ, pos, ◌+ℤ◌, leb_ℤ}
use mathlib.Core.List.{append-nil, append_assoc}
use pri_zzl_badger.Table.{Table}
use pri_zzl_badger.Compaction.{CompactStatus, CompactDef, inf_range, update_level, add_range, ids}
use pri_zzl_badger.LevelHandler.{LevelHandler}
use pri_zzl_badger.Levels.Fill.Choice.{filled, is_nil}
use pri_zzl_badger.Levels.Fill.{pick, passed_over, fill_tables_l0_to_l0}

-- What the loop takes from the tables that are left, once it has taken one.
record GoesOn (skip : Table → Bool) (out got ts : List Table) : Type 0 where
  mid : List Table
  rest : List Table
  got_is : got ≡ out ++ mid
  split : ts ≡ mid ++ rest
  free : All (λ t. skip t ≡ false) mid

-- A block of neighbours: those before it are passed over, and none of it is.
record IsRun (skip : Table → Bool) (got ts : List Table) : Type 0 where
  before : List Table
  rest : List Table
  split : ts ≡ before ++ (got ++ rest)
  skipped : All (λ t. skip t ≡ true) before
  free : All (λ t. skip t ≡ false) got

append_cons : (out ts : List Table) (t : Table) → (out ++ (t ∷ [])) ++ ts ≡ out ++ (t ∷ ts)
append_cons out ts t = append_assoc out (t ∷ []) ts

is_nil-snoc : (out : List Table) (t : Table) → is_nil (out ++ (t ∷ [])) ≡ false
is_nil-snoc [] t = refl
is_nil-snoc (u ∷ out) t = refl

pick-GoesOn :
    (skip : Table → Bool) (target : ℤ) (out : List Table) (size : ℤ) (ts : List Table)
    → is_nil out ≡ false
    → GoesOn skip out (pick skip target out size ts).0 ts
unfolding pick
pick-GoesOn skip target out size [] some_ = record {
  mid = [];
  rest = [];
  got_is = sym (append-nil out);
  split = refl;
  free = tt;
}
pick-GoesOn skip target out size (t ∷ ts) some_ = elim (Bool-cases (skip t)) [
  | inl busy ↦
      rw (busy, some_)
        (record { mid = []; rest = t ∷ ts; got_is = sym (append-nil out); split = refl; free = tt })
  | inr free ↦ elim (Bool-cases (leb_ℤ target (size +ℤ t.size))) [
    | inl enough ↦
        rw (free, enough)
          (record { mid = t ∷ []; rest = ts; got_is = refl; split = refl; free = (free, tt) })
    | inr more ↦
        let g = pick-GoesOn skip target (out ++ (t ∷ [])) (size +ℤ t.size) ts (is_nil-snoc out t) in
        rw (free, more)
          (record {
            mid = t ∷ g.mid;
            rest = g.rest;
            got_is = g.got_is ∙ append_cons out g.mid t;
            split = ap (◌∷◌ t) g.split;
            free = (free, g.free);
          })
  ]
]

pick-IsRun :
    (skip : Table → Bool) (target : ℤ) (size : ℤ) (ts : List Table)
    → IsRun skip (pick skip target [] size ts).0 ts
unfolding pick
pick-IsRun skip target size [] = record {
  before = [];
  rest = [];
  split = refl;
  skipped = tt;
  free = tt;
}
pick-IsRun skip target size (t ∷ ts) = elim (Bool-cases (skip t)) [
  | inl busy ↦
      let b = pick-IsRun skip target size ts in
      rw busy (record {
        before = t ∷ b.before;
        rest = b.rest;
        split = ap (◌∷◌ t) b.split;
        skipped = (busy, b.skipped);
        free = b.free;
      })
  | inr free ↦ elim (Bool-cases (leb_ℤ target (size +ℤ t.size))) [
    | inl enough ↦
        rw (free, enough)
          (record { before = []; rest = ts; split = refl; skipped = tt; free = (free, tt) })
    | inr more ↦
        let g = pick-GoesOn skip target (t ∷ []) (size +ℤ t.size) ts refl in
        rw (free, more)
          (record {
            before = [];
            rest = g.rest;
            split = ap (◌∷◌ t) g.split ∙ rw g.got_is refl;
            skipped = tt;
            free = rw g.got_is (free, g.free);
          })
  ]
]

-- The first table has at least the target size.
abbrev pub StartsLarge : ℤ → List Table → Type 0
StartsLarge target [] = ⊥
StartsLarge target (t ∷ ts) = leb_ℤ target t.size ≡ true

-- Neighbours among the tables, none of them under compaction; where the first table of all is
-- large, none of them is; and each table before them is under compaction, or is large where the
-- first one is.
pub record IsBlock (cs : CompactStatus) (target : ℤ) (got ts : List Table) : Type 0 where
  pub before : List Table
  pub rest : List Table
  pub split : ts ≡ before ++ (got ++ rest)
  pub idle : All (λ t. elem t.id cs.tables ≡ false) got
  pub small : StartsLarge target ts → All (λ t. leb_ℤ target t.size ≡ false) got
  pub passed :
      All
        (λ t. (elem t.id cs.tables ≡ true) ⊎ (StartsLarge target ts × (leb_ℤ target t.size ≡ true)))
        before

passed_over-taken :
    (cs : CompactStatus) (target : ℤ) (top : List Table) (t : Table)
    → passed_over cs target top t ≡ false
    → (elem t.id cs.tables ≡ false) × (StartsLarge target top → leb_ℤ target t.size ≡ false)
unfolding passed_over
passed_over-taken cs target [] t e = (ground (arith, e), λ large. elim large [ ])
passed_over-taken cs target (u ∷ top) t e = (ground (arith, e), λ large. ground (arith, e, large))

passed_over-left :
    (cs : CompactStatus) (target : ℤ) (top : List Table) (t : Table)
    → passed_over cs target top t ≡ true
    → (elem t.id cs.tables ≡ true) ⊎ (StartsLarge target top × (leb_ℤ target t.size ≡ true))
unfolding passed_over
passed_over-left cs target [] t e = inl (ground (arith, e))
passed_over-left cs target (u ∷ top) t e = elim (Bool-cases (elem t.id cs.tables)) [
  | inl busy ↦ inl busy
  | inr idle ↦ inr (ground (arith, e, idle), ground (arith, e, idle))
]

IsRun-IsBlock :
    (cs : CompactStatus) (target : ℤ) (got ts : List Table)
    → IsRun (passed_over cs target ts) got ts
    → IsBlock cs target got ts
IsRun-IsBlock cs target got ts r = record {
  before = r.before;
  rest = r.rest;
  split = r.split;
  idle = All-mono _ _ (λ t e. (passed_over-taken cs target ts t e).0) got r.free;
  small = λ large. All-mono _ _ (λ t e. (passed_over-taken cs target ts t e).1 large) got r.free;
  passed = All-mono _ _ (λ t e. passed_over-left cs target ts t e) r.before r.skipped;
}

-- A choice of fillTablesL0ToL0: at least two tables of level 0 that stand next to each other, none
-- of them under compaction, nor of the target size or more where the first table of the level is;
-- each table before them is under compaction, or of that size where the first one is; the status
-- then has the unbounded range at level 0, and the tables among those under compaction; and the
-- file size of level 0 is the greatest uint32.
pub fill_tables_l0_to_l0-IsBlock :
    (cs : CompactStatus) (compactor_id : ℕ) (file_sz : List ℤ) (target_size half : ℤ)
    (this : LevelHandler) (cd : CompactDef) (cs' : CompactStatus) (file_sz' : List ℤ)
    → fill_tables_l0_to_l0 cs compactor_id file_sz target_size half this ≡ (filled cd cs', file_sz')
    → IsBlock cs target_size cd.top this.tables
      × (2 ≤ length cd.top)
      × ((a : CompactStatus) × (update_level cs 0 (add_range inf_range) ≡ some a)
          × (cs' ≡ record a { tables = ids cd.top ++ a.tables }))
      × (file_sz' ≡ set file_sz 0 (pos 4294967295))
unfolding fill_tables_l0_to_l0
fill_tables_l0_to_l0-IsBlock cs compactor_id file_sz target_size half this cd cs' file_sz' e =
    elim (Option-cases (update_level cs 0 (add_range inf_range))) [
      | inl bad ↦ absurd (ground (arith, bad))
      | inr (a, ok) ↦
          let got =
            (pick (passed_over cs target_size this.tables) target_size [] (pos 0) this.tables).0 in
          let top : cd.top ≡ got = ground (arith, ok) in
          (
            rw top (
                IsRun-IsBlock cs target_size got this.tables (
                  pick-IsRun (passed_over cs target_size this.tables) target_size (pos 0)
                    this.tables)),
            ground (arith, ok),
            (a, ok, ground (arith, ok)),
            ground (arith, ok),
          )
    ]
