-- ===== src/Manifest/Consistent.antt =====
-- The manifest's two views of its tables agree, and its counters count them.
use pri_zzl_badger.Base.{
  inl, inr, ltb→lt, ◌≤◌, ℕ, zero, suc, ◌+◌, ◌-◌, ◌%◌, ◌^◌, ◌<◌, ◌≡◌, ◌≢◌, refl, Bool, true, false,
  ◌&&◌, ◌||◌, not, Option, none, some, List, [], ◌∷◌, ◌++◌, ◌==◌, length, get_or, replicate,
  keep_if, elem, NatMap, IsMap, lookup, insert, remove, ltb, arith, lookup-insert, lookup-remove,
  insert-IsMap, remove-IsMap, length-append, length-replicate, get_or-set, Bool-cases, Option-cases,
}
use pri_zzl_badger.Manifest.{
  table_of, TableManifest, ManifestChange, Manifest, is_hot, pad_levels, add_id, create_table,
  delete_table, apply_manifest_change, index_fault,
}

-- Whether the levels list the table at the level.
abbrev pub listed : Option TableManifest → ℕ → Bool
listed none l = false
listed (some t) l = t.level == l && not (is_hot l)

-- The widths of the fields.
pub record Fits (t : TableManifest) : Type 0 where
  pub level_fits : t.level < 256
  pub compression_fits : t.compression < 2 ^ 32

pub record IsChange (c : ManifestChange) : Type 0 where
  pub level_fits : c.level < 256
  pub compression_fits : c.compression < 2 ^ 32

pub record IsConsistent (m : Manifest) : Type 0 where
  pub is_map : IsMap m.tables
  pub fields : (id : ℕ) (t : TableManifest) → lookup id m.tables ≡ some t → Fits t
  pub in_levels : (id l : ℕ) → elem id (get_or m.levels l []) ≡ listed (lookup id m.tables) l
  pub counted : m.creations ≡ m.deletions + length m.tables

get_or-append_empty :
    (xs : List (List ℕ)) (n l : ℕ) → get_or (xs ++ replicate n []) l [] ≡ get_or xs l []
get_or-append_empty [] zero l = refl
get_or-append_empty [] (suc n) zero = refl
get_or-append_empty [] (suc n) (suc l) = get_or-append_empty [] n l
get_or-append_empty (x ∷ xs) n zero = refl
get_or-append_empty (x ∷ xs) n (suc l) = get_or-append_empty xs n l

get_or-pad_levels : (xs : List (List ℕ)) (n l : ℕ) → get_or (pad_levels xs n) l [] ≡ get_or xs l []
get_or-pad_levels xs n l = get_or-append_empty xs (suc n - length xs) l

length-pad_levels : (xs : List (List ℕ)) (n : ℕ) → n < length (pad_levels xs n)
length-pad_levels xs n =
    let empty : List ℕ = [] in
    omega (
      arith,
      length-append xs (replicate (suc n - length xs) empty),
      length-replicate (suc n - length xs) empty,
    )

elem-add_id : (i j : ℕ) (s : List ℕ) → elem i (add_id j s) ≡ (i == j || elem i s)
elem-add_id i j s = ground arith

elem-keep_if :
    (i j : ℕ) (s : List ℕ) → elem i (keep_if (λ x. not (x == j)) s) ≡ (not (i == j) && elem i s)
elem-keep_if i j [] = ground arith
elem-keep_if i j (x ∷ xs) = ground (arith, elem-keep_if i j xs)

length-insert_new :
    (k : ℕ) (v : TableManifest) (m : NatMap TableManifest)
    → lookup k m ≡ none
    → length (insert k v m) ≡ suc (length m)
unfolding lookup insert
length-insert_new k v [] h = refl
length-insert_new k v ((j, w) ∷ m) h = ground (arith, length-insert_new k v m)

remove_absent : (k : ℕ) (m : NatMap TableManifest) → lookup k m ≡ none → remove k m ≡ m
unfolding lookup remove
remove_absent k [] h = refl
remove_absent k ((j, w) ∷ m) h = ground (arith, remove_absent k m)

length-remove :
    (k : ℕ) (v : TableManifest) (m : NatMap TableManifest)
    → IsMap m
    → lookup k m ≡ some v
    → suc (length (remove k m)) ≡ length m
unfolding lookup remove
length-remove k v [] d h = cc
length-remove k v ((j, w) ∷ m) d h = ground (arith, length-remove k v m d.1, remove_absent k m, d.0)

pub create_table-IsConsistent :
    (m : Manifest) (c : ManifestChange)
    → IsChange c
    → lookup c.id m.tables ≡ none
    → IsConsistent m
    → IsConsistent (create_table m c)
unfolding create_table
create_table-IsConsistent m c byte absent v =
    let made : Fits (table_of c) = record {
      level_fits = omega (arith, byte.level_fits);
      compression_fits = byte.compression_fits;
    } in
    let level_kept : c.level % 2 ^ 8 ≡ c.level = omega (arith, byte.level_fits) in
    record {
      is_map = insert-IsMap c.id (table_of c) m.tables v.is_map;
      fields = λ id t h.
          ground (arith, lookup-insert c.id id (table_of c) m.tables, h, v.fields id t, made);
      in_levels = λ id l. ground (
        arith,
        lookup-insert c.id id (table_of c) m.tables,
        v.in_levels id l,
        absent,
        level_kept,
        get_or-set (pad_levels m.levels c.level) c.level l
            (add_id c.id (get_or (pad_levels m.levels c.level) c.level [])) []
            (length-pad_levels m.levels c.level),
        get_or-pad_levels m.levels c.level l,
        get_or-pad_levels m.levels c.level c.level,
        elem-add_id id c.id (get_or (pad_levels m.levels c.level) c.level []),
      );
      counted = omega (arith, v.counted, length-insert_new c.id (table_of c) m.tables absent);
    }

get_or-outside : (xs : List (List ℕ)) (l : ℕ) → length xs ≤ l → get_or xs l [] ≡ []
get_or-outside [] l h = refl
get_or-outside (x ∷ xs) zero h = absurd (omega arith)
get_or-outside (x ∷ xs) (suc l) h = get_or-outside xs l (omega arith)

-- A table has its level among the levels, or a hot one.
pub level_inside :
    (m : Manifest) (id : ℕ) (tm : TableManifest)
    → IsConsistent m
    → lookup id m.tables ≡ some tm
    → (is_hot tm.level || ltb tm.level (length m.levels)) ≡ true
level_inside m id tm v at = elim (Bool-cases (ltb tm.level (length m.levels))) [
  | inl inside ↦ ground arith
  | inr outside ↦
      ground (arith, v.in_levels id tm.level, at, get_or-outside m.levels tm.level (ground arith))
]

delete_table-IsConsistent :
    (m : Manifest) (id : ℕ) (tm : TableManifest)
    → lookup id m.tables ≡ some tm
    → IsConsistent m
    → IsConsistent (delete_table m id tm)
unfolding delete_table
delete_table-IsConsistent m id tm at v =
    let here = length-remove id tm m.tables v.is_map at in
    let row = get_or m.levels tm.level [] in
    record {
      is_map = remove-IsMap id m.tables v.is_map;
      fields = λ i t h. ground (arith, lookup-remove id i m.tables, h, v.fields i t);
      in_levels = λ i l. elim (Bool-cases (ltb tm.level (length m.levels))) [
        | inl inside ↦ ground (
          arith,
          lookup-remove id i m.tables,
          v.in_levels i l,
          at,
          get_or-set m.levels tm.level l (keep_if (λ x. not (x == id)) row) []
              (ltb→lt tm.level (length m.levels) inside),
          elem-keep_if i id row,
          v.in_levels i tm.level,
        )
        | inr outside ↦
            ground
              (arith, lookup-remove id i m.tables, v.in_levels i l, at, level_inside m id tm v at)
      ];
      counted = omega (arith, v.counted, here);
    }

-- A change with a level below 256, of a manifest whose two views of the tables agree: the views and
-- the counters still agree after it, and no index is out of range, whether or not it gives an error.
pub apply_manifest_change-IsConsistent :
    (m : Manifest) (c : ManifestChange)
    → IsChange c
    → IsConsistent m
    → IsConsistent (apply_manifest_change m c).0
      × ((apply_manifest_change m c).1 ≢ some index_fault)
unfolding apply_manifest_change
apply_manifest_change-IsConsistent m c byte v = elim (Option-cases (lookup c.id m.tables)) [
  | inl absent ↦
      let made = create_table-IsConsistent m c byte absent v in ground (arith, absent, made, v)
  | inr (tm, at) ↦
      let gone = delete_table-IsConsistent m c.id tm at v in
      ground (arith, at, gone, v, level_inside m c.id tm v at)
]
