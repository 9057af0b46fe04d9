-- ===== src/Levels/Fill/Chosen.antt =====
-- levels.go, fillTables and its kin: what a chosen compaction consists of.
use pri_zzl_badger.Base.{
  ℕ, zero, suc, ◌+◌, ◌-◌, ◌≤◌, ◌<◌, ◌≡◌, refl, ap, sym, ◌∙◌, subst, true, false, ◌⊎◌, inl, inr,
  some, List, [], ◌∷◌, ◌++◌, arith, get_elem?, take, drop, All, All-mono, Any, Bool-cases,
  Option-cases, eq_of_some,
}
use pri_zzl_badger.Base.Int.{pos}
use pri_zzl_badger.Base.Sort.{All-sort_by}
use mathlib.Core.List.{append-nil}
use pri_zzl_badger.Bytes.{Bytes}
use pri_zzl_badger.Table.{Table}
use pri_zzl_badger.Compaction.{
  KeyRange, empty_range, get_key_range, extend, overlaps_with, is_empty, CompactStatus, CompactDef,
  level_overlaps, compare_and_add,
}
use pri_zzl_badger.LevelHandler.{LevelHandler, overlapped, overlapping_tables, is_last_level}
use pri_zzl_badger.LevelHandler.Order.{AreDisjoint}
use pri_zzl_badger.LevelHandler.Overlap.{Meets, overlapping_tables_iff}
use pri_zzl_badger.Levels.Overlap.{range_ends}
use pri_zzl_badger.Levels.Fill.{
  single, next_range_of, fill_each, fill_tables_l99, fill_tables, fill_down, overlap_run, top_of,
  sort_by_heuristic, fill_tables_l98,
}
use pri_zzl_badger.Levels.Fill.Choice.{Filled, no_tables, filled, add_or, is_nil}
use pri_zzl_badger.Levels.Fill.MaxLevel.{MaxLevelEnv}

-- The table is one of them.
abbrev pub Among : Table → List Table → Type 0
Among t ts = Any (λ u. u ≡ t) ts

Among-taken :
    (ts : List Table) (l n i : ℕ) (t : Table)
    → get_elem? ts i ≡ some t
    → l ≤ i
    → i < l + n
    → Among t (take n (drop l ts))
Among-taken [] l n i t e a b = absurd (cc)
Among-taken (u ∷ ts) zero zero i t e a b = absurd (omega arith)
Among-taken (u ∷ ts) zero (suc n) zero t e a b = inl (eq_of_some e)
Among-taken (u ∷ ts) zero (suc n) (suc i) t e a b = inr (Among-front ts n i t e (omega arith))
  where
    Among-front :
        (us : List Table) (m j : ℕ) (w : Table)
        → get_elem? us j ≡ some w
        → j < m
        → Among w (take m us)
    Among-front [] m j w q lt = absurd (cc)
    Among-front (x ∷ us) zero j w q lt = absurd (omega arith)
    Among-front (x ∷ us) (suc m) zero w q lt = inl (eq_of_some q)
    Among-front (x ∷ us) (suc m) (suc j) w q lt = inr (Among-front us m j w q (omega arith))
Among-taken (u ∷ ts) (suc l) n zero t e a b = absurd (omega arith)
Among-taken (u ∷ ts) (suc l) n (suc i) t e a b =
    Among-taken ts l n i t e (omega arith) (omega arith)

-- Every table of an ordered level that meets the range is copied.
pub overlapped_complete :
    (s : LevelHandler) (u : Table) (us bot : List Table) (i : ℕ) (t : Table)
    → overlapped s (get_key_range (u ∷ us)) ≡ some bot
    → AreDisjoint s.tables
    → get_elem? s.tables i ≡ some t
    → Meets (get_key_range (u ∷ us)) t
    → Among t bot
unfolding overlapped
overlapped_complete s u us bot i t e d at meets =
    let kr = get_key_range (u ∷ us) in
    let (left, right, bounded, not_empty) = range_ends u us in
    let (lo, hi) = (overlapping_tables_iff s kr left right d i t at).1 meets in
    let l = (overlapping_tables s kr).0 in
    let r = (overlapping_tables s kr).1 in
    let e' : take (r - l) (drop l s.tables) ≡ bot = ground arith in
    subst (Among t) e' (Among-taken s.tables l (r - l) i t at lo (omega (arith, lo, hi)))

-- A choice that was made: the status let the compaction in, and its bottom tables are all tables
-- of an ordered next level that meet its range.
pub record IsChosen (cs : CompactStatus) (next : LevelHandler) (cd : CompactDef)
    (cs' : CompactStatus) : Type 0 where
  pub entered : compare_and_add cs cd ≡ some (true, cs')
  pub range : cd.this_range ≡ get_key_range cd.top
  pub complete :
      (i : ℕ) (t : Table)
      → AreDisjoint next.tables
      → get_elem? next.tables i ≡ some t
      → Meets cd.this_range t
      → Among t cd.bot

add_or-filled :
    (cs : CompactStatus) (c : CompactDef) (rest : Filled) (cd : CompactDef) (cs' : CompactStatus)
    → add_or cs c rest ≡ filled cd cs'
    → ((compare_and_add cs c ≡ some (true, cs')) × (c ≡ cd)) ⊎ (rest ≡ filled cd cs')
add_or-filled cs c rest cd cs' e = elim (Option-cases (compare_and_add cs c)) [
  | inl bad ↦ absurd (ground arith)
  | inr ((true, after), ok) ↦ inl (ground arith, ground arith)
  | inr ((false, after), refused) ↦ inr (ground arith)
]

-- The round of the loop for one table: it is chosen, or the choice is left to the others.
fill_each-cons :
    (cs : CompactStatus) (this next : LevelHandler) (t : Table) (ts : List Table) (cd : CompactDef)
    (cs' : CompactStatus)
    → fill_each cs this next (t ∷ ts) ≡ filled cd cs'
    → ((bot : List Table) × (overlapped next (get_key_range (t ∷ [])) ≡ some bot)
        × (compare_and_add cs (single this next t bot) ≡ some (true, cs'))
        × (single this next t bot ≡ cd))
      ⊎ (fill_each cs this next ts ≡ filled cd cs')
unfolding fill_each
fill_each-cons cs this next t ts cd cs' e =
    elim (Option-cases (level_overlaps cs this.level (get_key_range (t ∷ [])))) [
      | inl bad ↦ absurd (ground arith)
      | inr (true, busy) ↦ inr (ground arith)
      | inr (false, free) ↦ elim (Option-cases (overlapped next (get_key_range (t ∷ [])))) [
        | inl bad ↦ absurd (ground arith)
        | inr (bot, below) ↦ elim (Bool-cases (is_nil bot)) [
          | inl alone ↦ done bot below (ground arith)
          | inr more ↦
              elim (Option-cases
                (level_overlaps cs next.level (single this next t bot).next_range)) [
                  | inl bad ↦ absurd (ground arith)
                  | inr (true, busy) ↦ inr (ground arith)
                  | inr (false, free') ↦ done bot below (ground arith)
                ]
        ]
      ]
    ]
  where
    done :
        (bot : List Table)
        → overlapped next (get_key_range (t ∷ [])) ≡ some bot
        → add_or cs (single this next t bot) (fill_each cs this next ts) ≡ filled cd cs'
        → ((b : List Table) × (overlapped next (get_key_range (t ∷ [])) ≡ some b)
            × (compare_and_add cs (single this next t b) ≡ some (true, cs'))
            × (single this next t b ≡ cd))
          ⊎ (fill_each cs this next ts ≡ filled cd cs')
    done bot below q =
        elim (add_or-filled cs (single this next t bot) (fill_each cs this next ts) cd cs' q) [
          | inl (ok, same) ↦ inl (bot, below, ok, same)
          | inr later ↦ inr later
        ]

fill_each-filled :
    (cs : CompactStatus) (this next : LevelHandler) (ts : List Table) (P : Table → Type 0)
    (cd : CompactDef) (cs' : CompactStatus)
    → All P ts
    → fill_each cs this next ts ≡ filled cd cs'
    → IsChosen cs next cd cs' × ((t : Table) × (cd.top ≡ t ∷ []) × P t)
unfolding fill_each
fill_each-filled cs this next [] P cd cs' a e = absurd (cc)
fill_each-filled cs this next (t ∷ ts) P cd cs' a e =
    elim (fill_each-cons cs this next t ts cd cs' e) [
      | inr later ↦ fill_each-filled cs this next ts P cd cs' a.1 later
      | inl (bot, below, ok, same) ↦ (
        subst (λ c. IsChosen cs next c cs') same
            (record {
              entered = ok;
              range = refl;
              complete = λ i u d at meets. overlapped_complete next t [] bot i u below d at meets;
            }),
        (t, ap (λ (c : CompactDef). c.top) (sym same), a.0),
      )
    ]

All-Among : (ts : List Table) → All (λ t. Among t ts) ts
All-Among [] = tt
All-Among (t ∷ ts) = (inl refl, All-mono _ _ (λ u among. inr among) ts (All-Among ts))

-- A choice of fillTablesL99 is of the kind that fillTables makes.
pub fill_tables_l99-IsChosen :
    (cs : CompactStatus) (this next : LevelHandler) (cd : CompactDef) (cs' : CompactStatus)
    → fill_tables_l99 cs this next ≡ filled cd cs'
    → IsChosen cs next cd cs' × ((t : Table) × (cd.top ≡ t ∷ []) × Among t this.tables)
unfolding fill_tables_l99 sort_by_heuristic
fill_tables_l99-IsChosen cs this next cd cs' e =
    fill_each-filled cs this next (sort_by_heuristic this.tables) (λ t. Among t this.tables) cd cs'
      (All-sort_by _ (λ t. Among t this.tables) this.tables (All-Among this.tables)) (ground arith)

-- A choice of fillTables for a level that is not the last one: one table of the level on top, and
-- below it, if the next level is in order, all tables that meet its range; and the status has let it
-- in.
pub fill_tables-IsChosen :
    (max_levels : ℕ) (env : MaxLevelEnv) (cs : CompactStatus) (this next : LevelHandler)
    (cd : CompactDef) (cs' : CompactStatus)
    → is_last_level max_levels this ≡ false
    → fill_tables max_levels env cs this next ≡ filled cd cs'
    → IsChosen cs next cd cs' × ((t : Table) × (cd.top ≡ t ∷ []) × Among t this.tables)
unfolding fill_tables fill_tables_l99
fill_tables-IsChosen max_levels env cs this next cd cs' inner e =
    fill_tables_l99-IsChosen cs this next cd cs' (ground (arith, inner, e))

-- The tables that come with the first one are a prefix of the level.
overlap_run-prefix :
    (kr : KeyRange) (ts : List Table) → (rest : List Table) × (ts ≡ overlap_run kr ts ++ rest)
unfolding overlap_run
overlap_run-prefix kr [] = ([], refl)
overlap_run-prefix kr (t ∷ ts) = elim (Bool-cases (overlaps_with kr (get_key_range (t ∷ [])))) [
  | inl meets ↦
      let (rest, e) = overlap_run-prefix (extend kr (get_key_range (t ∷ []))) ts in
      (rest, rw meets (ap (◌∷◌ t) e))
  | inr apart ↦ (t ∷ ts, rw apart refl)
]

top_of-prefix :
    (ps : List Bytes) (ts : List Table) → (rest : List Table) × (ts ≡ top_of ps ts ++ rest)
unfolding top_of
top_of-prefix [] ts = overlap_run-prefix empty_range ts
top_of-prefix (p ∷ ps) ts = ([], sym (append-nil ts))

fill_down-filled :
    (cs : CompactStatus) (this next : LevelHandler) (u : Table) (us : List Table) (cd : CompactDef)
    (cs' : CompactStatus)
    → fill_down cs this next (u ∷ us) ≡ filled cd cs'
    → IsChosen cs next cd cs' × (cd.top ≡ u ∷ us)
unfolding fill_down
fill_down-filled cs this next u us cd cs' e =
    elim (Option-cases (overlapped next (get_key_range (u ∷ us)))) [
      | inl bad ↦ absurd (ground arith)
      | inr (bot, below) ↦
          let (ok, same) = only (add_or-filled cs (whole bot) no_tables cd cs' (ground arith)) in
          (
            subst (λ c. IsChosen cs next c cs') same
                (record {
                  entered = ok;
                  range = refl;
                  complete =
                      λ i t d at meets. overlapped_complete next u us bot i t below d at meets;
                }),
            ap (λ (c : CompactDef). c.top) (sym same),
          )
    ]
  where
    whole : List Table → CompactDef
    whole bot = record {
      this_level = this.level;
      next_level = next.level;
      this_range = get_key_range (u ∷ us);
      next_range = next_range_of (get_key_range (u ∷ us)) bot;
      this_size = pos 0;
      top = u ∷ us;
      bot = bot;
    }

    only : {A : Type 0} → A ⊎ (no_tables ≡ filled cd cs') → A
    only (inl a) = a
    only (inr e') = absurd (cc)

List-cases : (xs : List Table) → (xs ≡ []) ⊎ ((u : Table) × (us : List Table) × (xs ≡ u ∷ us))
List-cases [] = inl refl
List-cases (u ∷ us) = inr (u, us, refl)

no_top : (ps : List Bytes) (ts : List Table) → top_of ps ts ≡ [] → is_nil ts ≡ true
unfolding top_of overlap_run overlaps_with is_empty
no_top ps [] e = refl
no_top [] (t ∷ ts) e = absurd (ground arith)
no_top (p ∷ ps) (t ∷ ts) e = absurd (cc)

-- A choice of fillTablesL98: the oldest tables of the hot tier on top, in their order and none left
-- out between them; below, if the ordered tier is in order, all of its tables that meet their
-- range; and the status has let it in.
pub fill_tables_l98-IsChosen :
    (cs : CompactStatus) (drop_prefixes : List Bytes) (this next : LevelHandler) (cd : CompactDef)
    (cs' : CompactStatus)
    → fill_tables_l98 cs drop_prefixes this next ≡ filled cd cs'
    → IsChosen cs next cd cs' × ((rest : List Table) × (this.tables ≡ cd.top ++ rest))
unfolding fill_tables_l98
fill_tables_l98-IsChosen cs drop_prefixes this next cd cs' e =
    let (rest, split) = top_of-prefix drop_prefixes this.tables in
    elim (List-cases (top_of drop_prefixes this.tables)) [
      | inl none_ ↦ absurd (ground (arith, no_top drop_prefixes this.tables none_))
      | inr (u, us, some_) ↦
          let (chosen, top) = fill_down-filled cs this next u us cd cs' (ground arith) in
          (chosen, (rest, subst (λ ts. this.tables ≡ ts ++ rest) (some_ ∙ sym top) split))
    ]
