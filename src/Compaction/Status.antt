-- ===== src/Compaction/Status.antt =====
-- The compaction status: running compactions exclude one another, and one that ends gives back
-- exactly what it entered.
use pri_zzl_badger.Base.{
  ℕ, ◌≡◌, ◌≢◌, refl, ap, ◌∙◌, subst, true, false, some, List, [], ◌∷◌, ◌++◌, inl, inr, ◌==◌,
  if◌then◌else◌, arith, not, keep_if, Option-cases, eq_of_some, get_elem?-set, elem,
}
use pri_zzl_badger.Base.Int.{ℤ, ◌-ℤ◌, +-ℤ_cancel}
use pri_zzl_badger.Compaction.{
  KeyRange, any_overlaps, remove_range, LevelCompactStatus, CompactStatus, get_level_status,
  set_level_status, level_overlaps, CompactDef, ids, update_level, enter, compare_and_add, leave,
  unmark, delete, add_range, grow,
}
use pri_zzl_badger.Compaction.Ranges.{
  IsRange, overlaps_with_self, remove_range_added, any_equals_added, Apart, Apart-append,
}

-- Writing one level's status changes what that level reads, and nothing else.
pub get-set :
    (cs : CompactStatus) (l m : ℕ) (old s : LevelCompactStatus)
    → get_level_status cs l ≡ some old
    → get_level_status (set_level_status cs l s) m
      ≡ (if m == l then some s else get_level_status cs m)
unfolding get_level_status set_level_status
get-set cs l m old s h = ground (arith, get_elem?-set cs.levels l m old s)

pub level_overlaps-inv :
    (cs : CompactStatus) (l : ℕ) (r : KeyRange)
    → level_overlaps cs l r ≡ some false
    → (s : LevelCompactStatus) × (get_level_status cs l ≡ some s)
      × (any_overlaps s.ranges r ≡ false)
unfolding level_overlaps
level_overlaps-inv cs l r e = elim (Option-cases (get_level_status cs l)) [
  | inl out ↦ absurd (cc (rw (out, level_overlaps) at e))
  | inr (s, at) ↦ (s, at, eq_of_some (rw (at, level_overlaps) at e))
]

pub compare_and_add-inv :
    (cs : CompactStatus) (cd : CompactDef) (t : CompactStatus)
    → compare_and_add cs cd ≡ some (true, t)
    → (level_overlaps cs cd.this_level cd.this_range ≡ some false)
      × (level_overlaps cs cd.next_level cd.next_range ≡ some false)
      × (enter cs cd ≡ some t)
unfolding compare_and_add
compare_and_add-inv cs cd t e = (ground arith, ground arith, ground arith)

-- The state after an entry into two different levels.
pub record Entered (cs : CompactStatus) (cd : CompactDef) (t : CompactStatus) : Type 0 where
  pub this : LevelCompactStatus
  pub next : LevelCompactStatus
  pub this_at : get_level_status cs cd.this_level ≡ some this
  pub next_at : get_level_status cs cd.next_level ≡ some next
  pub this_free : any_overlaps this.ranges cd.this_range ≡ false
  pub next_free : any_overlaps next.ranges cd.next_range ≡ false
  pub levels :
      (m : ℕ)
      → get_level_status t m ≡ (
          if m == cd.next_level
          then some (add_range cd.next_range next)
          else if m == cd.this_level
          then some (grow cd.this_size (add_range cd.this_range this))
          else get_level_status cs m)
  pub tables : t.tables ≡ ids (cd.top ++ cd.bot) ++ cs.tables

pub update_level-some :
    (cs : CompactStatus) (l : ℕ) (f : LevelCompactStatus → LevelCompactStatus)
    (s : LevelCompactStatus)
    → get_level_status cs l ≡ some s
    → update_level cs l f ≡ some (set_level_status cs l (f s))
unfolding update_level
update_level-some cs l f s at = rw (at, update_level) refl

set_level_status-tables :
    (cs : CompactStatus) (l : ℕ) (s : LevelCompactStatus)
    → (set_level_status cs l s).tables ≡ cs.tables
unfolding set_level_status
set_level_status-tables cs l s = ground arith

pub get_level_status-tables :
    (cs : CompactStatus) (ts : List ℕ) (m : ℕ)
    → get_level_status (record cs { tables = ts }) m ≡ get_level_status cs m
unfolding get_level_status
get_level_status-tables cs ts m = refl

compare_and_add-Entered :
    (cs : CompactStatus) (cd : CompactDef) (t : CompactStatus)
    → cd.this_level ≢ cd.next_level
    → compare_and_add cs cd ≡ some (true, t)
    → Entered cs cd t
unfolding enter
compare_and_add-Entered cs cd t ne e =
    let (o1, o2, en) = compare_and_add-inv cs cd t e in
    let (this, this_at, this_free) = level_overlaps-inv cs cd.this_level cd.this_range o1 in
    let (next, next_at, next_free) = level_overlaps-inv cs cd.next_level cd.next_range o2 in
    let g = grow cd.this_size (add_range cd.this_range this) in
    let a = set_level_status cs cd.this_level g in
    let next_a : get_level_status a cd.next_level ≡ some next =
      ground (arith, get-set cs cd.this_level cd.next_level this g this_at) in
    let n = add_range cd.next_range next in
    let b = set_level_status a cd.next_level n in
    let up1 =
      update_level-some cs cd.this_level (λ s. grow cd.this_size (add_range cd.this_range s)) this
        this_at in
    let up2 = update_level-some a cd.next_level (add_range cd.next_range) next next_a in
    let same : record b { tables = ids (cd.top ++ cd.bot) ++ b.tables } ≡ t =
      eq_of_some (rw (up1, up2, enter) at en) in
    subst (Entered cs cd) same (record {
      this = this;
      next = next;
      this_at = this_at;
      next_at = next_at;
      this_free = this_free;
      next_free = next_free;
      levels = λ m.
          get_level_status-tables b _ m
          ∙ get-set a cd.next_level m next n next_a
          ∙ ap (λ x. if m == cd.next_level then some n else x)
              (get-set cs cd.this_level m this g this_at);
      tables =
          ap (λ x. ids (cd.top ++ cd.bot) ++ x)
            (set_level_status-tables a cd.next_level n
              ∙ set_level_status-tables cs cd.this_level g);
    })

-- Tables that a compaction may mark: distinct, and none of them marked.
abbrev pub Fresh : List ℕ → List ℕ → Type 0
Fresh [] marked = Unit
Fresh (i ∷ is) marked = (elem i (is ++ marked) ≡ false) × Fresh is marked

keep_if-absent : (i : ℕ) (xs : List ℕ) → elem i xs ≡ false → keep_if (λ x. not (x == i)) xs ≡ xs
keep_if-absent i [] h = refl
keep_if-absent i (x ∷ xs) h = ground (arith, keep_if-absent i xs)

unmark-added : (is marked : List ℕ) → Fresh is marked → unmark is (is ++ marked) ≡ some marked
unfolding unmark
unmark-added [] marked h = refl
unmark-added (i ∷ is) marked h =
    let rest = unmark-added is marked h.1 in
    let kept = keep_if-absent i (is ++ marked) h.0 in ground (arith, rest, kept)

same_level-false : (m n : ℕ) → m ≢ n → (m == n) ≡ false
same_level-false m n h = ground arith

cong2_status :
    {rs ss : List KeyRange} {d e : ℤ}
    → rs ≡ ss
    → d ≡ e
    → ◌≡◌ {A = LevelCompactStatus}
        (record { ranges = rs; del_size = d })
        (record { ranges = ss; del_size = e })
cong2_status p q i = record { ranges = p i; del_size = q i }

leave-Entered :
    (cs : CompactStatus) (cd : CompactDef) (t : CompactStatus)
    → cd.this_level ≢ cd.next_level
    → IsRange cd.this_range
    → IsRange cd.next_range
    → Entered cs cd t
    → (u : CompactStatus) × (leave t cd ≡ some (true, u))
      × ((m : ℕ) → get_level_status u m ≡ get_level_status cs m)
      × (u.tables ≡ t.tables)
unfolding leave
leave-Entered cs cd t ne vt vn en =
    let g = grow cd.this_size (add_range cd.this_range en.this) in
    let n = add_range cd.next_range en.next in
    let this_t : get_level_status t cd.this_level ≡ some g =
      ground (arith, en.levels cd.this_level) in
    let next_t : get_level_status t cd.next_level ≡ some n =
      ground (arith, en.levels cd.next_level) in
    let back : LevelCompactStatus = record {
      ranges = remove_range g.ranges cd.this_range;
      del_size = g.del_size -ℤ cd.this_size;
    } in
    let this_self = overlaps_with_self cd.this_range vt in
    let next_self = overlaps_with_self cd.next_range vn in
    let back_ranges = remove_range_added en.this.ranges cd.this_range this_self en.this_free in
    let back_eq : back ≡ en.this =
      cong2_status back_ranges (+-ℤ_cancel en.this.del_size cd.this_size) in
    let a = set_level_status t cd.this_level back in
    let next_a : get_level_status a cd.next_level ≡ some n =
      ground (arith, get-set t cd.this_level cd.next_level g back this_t) in
    let last : LevelCompactStatus = record n { ranges = remove_range n.ranges cd.next_range } in
    let last_ranges = remove_range_added en.next.ranges cd.next_range next_self en.next_free in
    let last_eq : last ≡ en.next = cong2_status last_ranges refl in
    let u = set_level_status a cd.next_level last in
    let found1 = any_equals_added en.this.ranges cd.this_range in
    let found2 = any_equals_added en.next.ranges cd.next_range in
    (
      u,
      rw
          (
            this_t,
            leave,
            same_level-false cd.this_level cd.next_level ne,
            vn.not_empty,
            next_a,
            found1,
            found2,
          )
          refl,
      λ m. ground (
        arith,
        get-set a cd.next_level m n last next_a,
        get-set t cd.this_level m g back this_t,
        en.levels m,
        back_eq,
        last_eq,
        en.this_at,
        en.next_at,
      ),
      set_level_status-tables a cd.next_level last ∙ set_level_status-tables t cd.this_level back,
    )

-- No two of the ranges under compaction overlap, at any level.
abbrev pub AllApart : CompactStatus → Type 0
AllApart cs = (m : ℕ) (s : LevelCompactStatus) → get_level_status cs m ≡ some s → Apart s.ranges

-- Where compareAndAdd answers yes for two different levels, the running ranges stay pairwise
-- without overlap at every level, if they were.
pub compare_and_add-AllApart :
    (cs : CompactStatus) (cd : CompactDef) (t : CompactStatus)
    → cd.this_level ≢ cd.next_level
    → AllApart cs
    → compare_and_add cs cd ≡ some (true, t)
    → AllApart t
compare_and_add-AllApart cs cd t ne apart e m s at =
    let en = compare_and_add-Entered cs cd t ne e in
    let this_ok =
      Apart-append en.this.ranges cd.this_range (apart cd.this_level en.this en.this_at)
        en.this_free in
    let next_ok =
      Apart-append en.next.ranges cd.next_range (apart cd.next_level en.next en.next_at)
        en.next_free in
    ground (arith, en.levels m, at, apart m s, this_ok, next_ok)

-- A compaction between two different levels that was let in, with ranges that are not empty and
-- are in order, and with distinct tables that no other compaction has: when it ends, delete finds
-- its ranges and its tables, and every level's status and the marked tables are as before it.
pub delete-compare_and_add :
    (cs : CompactStatus) (cd : CompactDef) (t : CompactStatus)
    → cd.this_level ≢ cd.next_level
    → IsRange cd.this_range
    → IsRange cd.next_range
    → Fresh (ids (cd.top ++ cd.bot)) cs.tables
    → compare_and_add cs cd ≡ some (true, t)
    → (u : CompactStatus) × (delete t cd ≡ some u)
      × ((m : ℕ) → get_level_status u m ≡ get_level_status cs m)
      × (u.tables ≡ cs.tables)
unfolding delete
delete-compare_and_add cs cd t ne vt vn fresh e =
    let en = compare_and_add-Entered cs cd t ne e in
    let (a, left, levels, tables) = leave-Entered cs cd t ne vt vn en in
    let back : unmark (ids (cd.top ++ cd.bot)) a.tables ≡ some cs.tables =
      ap (unmark (ids (cd.top ++ cd.bot))) (tables ∙ en.tables)
      ∙ unmark-added (ids (cd.top ++ cd.bot)) cs.tables fresh in
    (
      record a { tables = cs.tables },
      rw (left, delete, back) refl,
      λ m. get_level_status-tables a _ m ∙ levels m,
      refl,
    )
