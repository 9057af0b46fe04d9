-- ===== src/LevelHandler/Replace.antt =====
-- Taking tables out of a level and putting tables in: the tables that it then holds, their order,
-- and the total sizes.
use mathlib.Core.List.{Perm}
use pri_zzl_badger.Base.{
  ℕ, ◌≡◌, ◌≢◌, refl, ap, sym, ◌∙◌, Bool, true, false, ne→==-false, List, [], ◌∷◌, ◌++◌, arith, not,
  elem, keep_if, ◌==◌, if◌then◌else◌, Bool-cases, inl, inr,
}
use pri_zzl_badger.Base.Int.{ℤ, pos, pos_part, neg_part, ◌+ℤ◌, ◌-ℤ◌, int_laws}
use pri_zzl_badger.Base.Sort.{insert_by, sort_by, sort_by-perm, sort_by-InOrder, InOrder}
use pri_zzl_badger.Keys.Order.{compare_keys-flip, compare_keys_trans}
use pri_zzl_badger.Table.{Table, Files}
use pri_zzl_badger.Compaction.{ids}
use pri_zzl_badger.LevelHandler.{
  LevelHandler, add_size, subtract_size, add_sizes, id_less, key_less, init_tables, drop_tables,
  replaced, delete_tables, is_unordered,
}

-- A sum over the tables.
unfoldable pub sum_of : (Table → ℤ) → List Table → ℤ
sum_of f [] = pos 0
sum_of f (t ∷ ts) = f t +ℤ sum_of f ts

abbrev size : Table → ℤ
size t = t.size

abbrev stale_size : Table → ℤ
stale_size t = t.stale_data_size

-- The two totals are the sums over the tables.
pub record IsSized (s : LevelHandler) : Type 0 where
  pub sizes : s.total_size ≡ sum_of (λ t. t.size) s.tables
  pub stale_sizes : s.total_stale_size ≡ sum_of (λ t. t.stale_data_size) s.tables

sum_of-append : (f : Table → ℤ) (a b : List Table) → sum_of f (a ++ b) ≡ sum_of f a +ℤ sum_of f b
unfolding sum_of
sum_of-append f [] b = omega int_laws
sum_of-append f (t ∷ a) b = rw (sum_of-append f a b) (omega int_laws)

sum_of-insert_by :
    (f : Table → ℤ) (less : Table → Table → Bool) (t : Table) (ts : List Table)
    → sum_of f (insert_by less t ts) ≡ f t +ℤ sum_of f ts
unfolding sum_of insert_by
sum_of-insert_by f less t [] = refl
sum_of-insert_by f less t (u ∷ us) = elim (Bool-cases (less u t)) [
  | inl after ↦ rw (after, sum_of-insert_by f less t us) (omega int_laws)
  | inr before ↦ rw before refl
]

sum_of-sort_by :
    (f : Table → ℤ) (less : Table → Table → Bool) (ts : List Table)
    → sum_of f (sort_by less ts) ≡ sum_of f ts
unfolding sum_of sort_by
sum_of-sort_by f less [] = refl
sum_of-sort_by f less (t ∷ ts) =
    rw (sum_of-insert_by f less t (sort_by less ts), sum_of-sort_by f less ts) refl

sum_of-either :
    (f : Table → ℤ) (b : Bool) (ts : List Table)
    → sum_of f (if b then sort_by id_less ts else sort_by key_less ts) ≡ sum_of f ts
sum_of-either f true ts = sum_of-sort_by f id_less ts
sum_of-either f false ts = sum_of-sort_by f key_less ts

add_sizes-totals :
    (ts : List Table) (s : LevelHandler)
    → ((add_sizes ts s).total_size ≡ s.total_size +ℤ sum_of size ts)
      × ((add_sizes ts s).total_stale_size ≡ s.total_stale_size +ℤ sum_of stale_size ts)
unfolding add_sizes sum_of
add_sizes-totals [] s = (omega int_laws, omega int_laws)
add_sizes-totals (t ∷ ts) s =
    let (h, k) = add_sizes-totals ts (add_size t s) in
    (rw h (omega int_laws), rw k (omega int_laws))

pub drop_tables-kept :
    (gone : List ℕ) (ts : List Table) (s : LevelHandler)
    → (drop_tables gone ts s).0 ≡ keep_if (λ t. not (elem t.id gone)) ts
unfolding drop_tables
drop_tables-kept gone [] s = refl
drop_tables-kept gone (t ∷ ts) s =
    ground (arith, drop_tables-kept gone ts s, drop_tables-kept gone ts (subtract_size t s))

drop_tables-level :
    (gone : List ℕ) (ts : List Table) (s : LevelHandler) → (drop_tables gone ts s).1.level ≡ s.level
unfolding drop_tables
drop_tables-level gone [] s = refl
drop_tables-level gone (t ∷ ts) s =
    ground (arith, drop_tables-level gone ts s, drop_tables-level gone ts (subtract_size t s))

keep_shift : (n f k b s : ℤ) → n +ℤ k ≡ b +ℤ s → n +ℤ (f +ℤ k) ≡ b +ℤ (f +ℤ s)
keep_shift n f k b s h = omega (int_laws, ap pos_part h, ap neg_part h)

drop_shift : (n f k b s : ℤ) → n -ℤ f +ℤ k ≡ b +ℤ s → n +ℤ k ≡ b +ℤ (f +ℤ s)
drop_shift n f k b s h = omega (int_laws, ap pos_part h, ap neg_part h)

total_left : (n k b s : ℤ) → n ≡ s → n +ℤ k ≡ b +ℤ s → b ≡ k
total_left n k b s e h =
    omega (int_laws, ap pos_part h, ap neg_part h, ap pos_part e, ap neg_part e)

-- The total after the loop, with the sum over what it kept, for either of the sizes.
drop_tables-totals :
    (gone : List ℕ) (ts : List Table) (s : LevelHandler)
    → (s.total_size +ℤ sum_of size (keep_if (λ t. not (elem t.id gone)) ts)
        ≡ (drop_tables gone ts s).1.total_size +ℤ sum_of size ts)
      × (s.total_stale_size +ℤ sum_of stale_size (keep_if (λ t. not (elem t.id gone)) ts)
          ≡ (drop_tables gone ts s).1.total_stale_size +ℤ sum_of stale_size ts)
unfolding drop_tables sum_of
drop_tables-totals gone [] s = (refl, refl)
drop_tables-totals gone (t ∷ ts) s = elim (Bool-cases (elem t.id gone)) [
  | inl found ↦
      let (h, k) = drop_tables-totals gone ts (subtract_size t s) in
      rw found (drop_shift _ _ _ _ _ h, drop_shift _ _ _ _ _ k)
  | inr not_found ↦
      let (h, k) = drop_tables-totals gone ts s in
      rw not_found (keep_shift _ _ _ _ _ h, keep_shift _ _ _ _ _ k)
]

-- initTables, whatever the level held: its totals are the sums over the tables.
pub init_tables-IsSized : (ts : List Table) (s : LevelHandler) → IsSized (init_tables ts s)
unfolding init_tables
init_tables-IsSized ts s =
    let (h, k) =
      add_sizes-totals ts
        (record s { tables = ts; total_size = pos 0; total_stale_size = pos 0 }) in
    record {
      sizes = rw (h, sum_of-either size (is_unordered s.level) ts) (omega int_laws);
      stale_sizes = rw (k, sum_of-either stale_size (is_unordered s.level) ts) (omega int_laws);
    }

-- The loop leaves the totals of the tables that it keeps.
drop_tables-sums :
    (to_del : List Table) (s : LevelHandler)
    → IsSized s
    → let after = drop_tables (ids to_del) s.tables s in
      (after.1.total_size ≡ sum_of size after.0)
      × (after.1.total_stale_size ≡ sum_of stale_size after.0)
drop_tables-sums to_del s v =
    let gone = ids to_del in
    let (h, k) = drop_tables-totals gone s.tables s in
    rw (drop_tables-kept gone s.tables s)
      (total_left _ _ _ _ v.sizes h, total_left _ _ _ _ v.stale_sizes k)

-- The tables of `to_del` leave the level, all others stay in their order, and the totals stay the
-- sums over the tables: whether a file can be deleted or not.
pub delete_tables_lem :
    (fails : ℕ → Bool) (to_del : List Table) (s : LevelHandler) (fs : Files)
    → IsSized s
    → let s' = (delete_tables fails to_del s fs).0 in
      (s'.tables ≡ keep_if (λ t. not (elem t.id (ids to_del))) s.tables) × IsSized s'
unfolding delete_tables
delete_tables_lem fails to_del s fs v =
    let (h, k) = drop_tables-sums to_del s v in
    (drop_tables-kept (ids to_del) s.tables s, record { sizes = h; stale_sizes = k })

replaced-perm :
    (b : Bool) (ts : List Table) → Perm (if b then sort_by id_less ts else sort_by key_less ts) ts
replaced-perm true ts = sort_by-perm id_less ts
replaced-perm false ts = sort_by-perm key_less ts

-- The tables of `to_del` leave the level and those of `to_add` enter it, all others stay, and the
-- totals stay the sums over the tables.
pub replaced_lem :
    (to_del to_add : List Table) (s : LevelHandler)
    → IsSized s
    → Perm
        (replaced to_del to_add s).tables
        (keep_if (λ t. not (elem t.id (ids to_del))) s.tables ++ to_add)
      × IsSized (replaced to_del to_add s)
unfolding replaced
replaced_lem to_del to_add s v =
    let after = drop_tables (ids to_del) s.tables s in
    let (h, k) = drop_tables-sums to_del s v in
    let (h', k') = add_sizes-totals to_add after.1 in
    let level = s.level == 98 in
    let all = after.0 ++ to_add in
    (
      rw (← (drop_tables-kept (ids to_del) s.tables s)) (replaced-perm level all),
      record {
        sizes =
            h' ∙ (rw h (sym (sum_of-either size level all ∙ sum_of-append size after.0 to_add)));
        stale_sizes =
            k'
            ∙ (rw k (
                sym
                  (sum_of-either stale_size level all ∙ sum_of-append stale_size after.0 to_add)));
      },
    )

-- Every level but 98, level 0 among them, is sorted by the smallest key after replaceTables.
pub replaced-InOrder :
    (to_del to_add : List Table) (s : LevelHandler)
    → s.level ≢ 98
    → InOrder key_less (replaced to_del to_add s).tables
unfolding replaced
replaced-InOrder to_del to_add s ne = rw (ne→==-false s.level 98 ne) (
    sort_by-InOrder key_less
      (λ x y z h k. ground (
        arith,
        compare_keys-flip x.smallest y.smallest,
        compare_keys-flip y.smallest z.smallest,
        compare_keys-flip x.smallest z.smallest,
        compare_keys_trans x.smallest y.smallest z.smallest,
      ))
      (λ x y h. ground (arith, compare_keys-flip x.smallest y.smallest))
      ((drop_tables (ids to_del) s.tables s).0 ++ to_add))
