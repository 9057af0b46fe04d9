-- ===== src/Manifest/Clone.antt =====
-- Manifests that list the same tables: changes treat them alike, and a clone is such a manifest.
use pri_zzl_badger.Base.{
  ℕ, ◌≡◌, refl, sym, ap, ◌∙◌, subst, true, Option, none, some, List, [], ◌∷◌, ◌==◌, if◌then◌else◌,
  get_or, elem, NatMap, IsMap, lookup, is_some, arith, lookup-insert, lookup-remove, All,
  Option-cases, inl, inr,
}
use pri_zzl_badger.Manifest.{
  TableManifest, ManifestChange, Manifest, ChangeError, create_table, create_manifest, table_of,
  delete_table, apply_manifest_change, apply_change_set, new_create_change, as_changes, clone,
}
use pri_zzl_badger.Manifest.Consistent.{
  Fits, IsChange, IsConsistent, listed, apply_manifest_change-IsConsistent, level_inside,
  create_table-IsConsistent,
}

-- Two manifests with the same tables, that is also with the same ids at every level.
pub record Alike (m n : Manifest) : Type 0 where
  pub left_ok : IsConsistent m
  pub right_ok : IsConsistent n
  pub same : (id : ℕ) → lookup id m.tables ≡ lookup id n.tables

-- The levels of alike manifests list the same ids.
pub Alike-levels :
    (m n : Manifest)
    → Alike m n
    → (id l : ℕ) → elem id (get_or m.levels l []) ≡ elem id (get_or n.levels l [])
Alike-levels m n a id l =
    a.left_ok.in_levels id l ∙ ap (λ t. listed t l) (a.same id) ∙ sym (a.right_ok.in_levels id l)

same-create :
    (m n : Manifest) (c : ManifestChange)
    → ((id : ℕ) → lookup id m.tables ≡ lookup id n.tables)
    → (id : ℕ) → lookup id (create_table m c).tables ≡ lookup id (create_table n c).tables
unfolding create_table
same-create m n c same id =
    lookup-insert c.id id (table_of c) m.tables
    ∙ ap (λ x. if id == c.id then some (table_of c) else x) (same id)
    ∙ sym (lookup-insert c.id id (table_of c) n.tables)

same-delete :
    (m n : Manifest) (i : ℕ) (t : TableManifest)
    → ((id : ℕ) → lookup id m.tables ≡ lookup id n.tables)
    → (id : ℕ) → lookup id (delete_table m i t).tables ≡ lookup id (delete_table n i t).tables
unfolding delete_table
same-delete m n i t same id =
    lookup-remove i id m.tables
    ∙ ap (λ x. if id == i then none else x) (same id)
    ∙ sym (lookup-remove i id n.tables)

same-change :
    (m n : Manifest) (c : ManifestChange)
    → Alike m n
    → ((id : ℕ)
        → lookup id (apply_manifest_change m c).0.tables
          ≡ lookup id (apply_manifest_change n c).0.tables)
      × ((apply_manifest_change m c).1 ≡ (apply_manifest_change n c).1)
unfolding apply_manifest_change
same-change m n c a = elim (Option-cases (lookup c.id m.tables)) [
  | inl absent ↦
      let absent_n = sym (a.same c.id) ∙ absent in
      let created = same-create m n c a.same in
      (
        λ id. ground (arith, absent, absent_n, created id, a.same id),
        ground (arith, absent, absent_n),
      )
  | inr (t, at) ↦
      let at_n = sym (a.same c.id) ∙ at in
      let deleted = same-delete m n c.id t a.same in
      let in_m = level_inside m c.id t a.left_ok at in
      let in_n = level_inside n c.id t a.right_ok at_n in
      (
        λ id. ground (arith, at, at_n, deleted id, a.same id, in_m, in_n),
        ground (arith, at, at_n, in_m, in_n),
      )
]

-- Alike manifests answer a change in the same way, and are alike after it.
apply_manifest_change-Alike :
    (m n : Manifest) (c : ManifestChange)
    → IsChange c
    → Alike m n
    → Alike (apply_manifest_change m c).0 (apply_manifest_change n c).0
      × ((apply_manifest_change m c).1 ≡ (apply_manifest_change n c).1)
apply_manifest_change-Alike m n c v a =
    let (left, _) = apply_manifest_change-IsConsistent m c v a.left_ok in
    let (right, _) = apply_manifest_change-IsConsistent n c v a.right_ok in
    let (same, err) = same-change m n c a in
    (record { left_ok = left; right_ok = right; same = same }, err)

change_set_ok :
    (m : Manifest) (c : ManifestChange) (cs : List ManifestChange)
    → (apply_manifest_change m c).1 ≡ none
    → apply_change_set m (c ∷ cs) ≡ apply_change_set (apply_manifest_change m c).0 cs
unfolding apply_change_set
change_set_ok m c cs e = rw (e, apply_change_set) refl

change_set_error :
    (m : Manifest) (c : ManifestChange) (cs : List ManifestChange) (err : ChangeError)
    → (apply_manifest_change m c).1 ≡ some err
    → apply_change_set m (c ∷ cs) ≡ ((apply_manifest_change m c).0, some err)
unfolding apply_change_set
change_set_error m c cs err e = rw (e, apply_change_set) refl

abbrev Answers : Manifest × Option ChangeError → Manifest × Option ChangeError → Type 0
Answers a b = Alike a.0 b.0 × (a.1 ≡ b.1)

-- Alike manifests with the same changes, each with a level below 256, give the same answer, and are
-- alike after them.
pub apply_change_set-Alike :
    (m n : Manifest) (cs : List ManifestChange)
    → All IsChange cs
    → Alike m n
    → Alike (apply_change_set m cs).0 (apply_change_set n cs).0
      × ((apply_change_set m cs).1 ≡ (apply_change_set n cs).1)
unfolding apply_change_set
apply_change_set-Alike m n [] v a = (a, refl)
apply_change_set-Alike m n (c ∷ cs) v a =
    let (next, same) = apply_manifest_change-Alike m n c v.0 a in
    let m1 = (apply_manifest_change m c).0 in
    let n1 = (apply_manifest_change n c).0 in
    let rest = apply_change_set-Alike m1 n1 cs v.1 next in
    elim (Option-cases (apply_manifest_change m c).1) [
      | inl fine ↦
          subst (λ x. Answers x (apply_change_set n (c ∷ cs))) (sym (change_set_ok m c cs fine))
            (subst (Answers (apply_change_set m1 cs)) (sym (change_set_ok n c cs (sym same ∙ fine)))
              rest)
      | inr (err, failed) ↦
          subst (λ x. Answers x (apply_change_set n (c ∷ cs)))
            (sym (change_set_error m c cs err failed))
            (subst (Answers (m1, some err)) (sym (change_set_error n c cs err (sym same ∙ failed)))
              (next, refl))
    ]

abbrev or_else : Option TableManifest → Option TableManifest → Option TableManifest
or_else none b = b
or_else (some t) b = some t

record Filled (ts : NatMap TableManifest) (b r : Manifest) : Type 0 where
  ok : IsConsistent r
  tables_are : (id : ℕ) → lookup id r.tables ≡ or_else (lookup id ts) (lookup id b.tables)
  deletions_kept : r.deletions ≡ b.deletions

-- Creating one table that the manifest does not have.
record Added (id : ℕ) (t : TableManifest) (b : Manifest) : Type 0 where
  next : Manifest
  step :
      apply_manifest_change b (new_create_change id t.level t.key_id t.compression) ≡ (next, none)
  next_ok : IsConsistent next
  tables_are : (i : ℕ) → lookup i next.tables ≡ (if i == id then some t else lookup i b.tables)
  deletions_kept : next.deletions ≡ b.deletions

add_one :
    (id : ℕ) (t : TableManifest) (b : Manifest)
    → Fits t
    → lookup id b.tables ≡ none
    → IsConsistent b
    → Added id t b
unfolding new_create_change create_table apply_manifest_change
add_one id t b f absent v =
    let c = new_create_change id t.level t.key_id t.compression in
    let change : IsChange c = record {
      level_fits = omega (arith, f.level_fits);
      compression_fits = omega arith;
    } in
    let made : table_of c ≡ t = ground (arith, f.level_fits, f.compression_fits) in
    record {
      next = create_table b c;
      step = rw (absent, apply_manifest_change) refl;
      next_ok = create_table-IsConsistent b c change absent v;
      tables_are = λ i.
          lookup-insert id i (table_of c) b.tables
          ∙ ap (λ x. if i == id then some x else lookup i b.tables) made;
      deletions_kept = refl;
    }

-- Creating tables that the manifest does not have gives no error.
fill :
    (ts : NatMap TableManifest) (b : Manifest)
    → IsMap ts
    → ((id : ℕ) (t : TableManifest) → lookup id ts ≡ some t → Fits t)
    → ((id : ℕ) → is_some (lookup id ts) ≡ true → lookup id b.tables ≡ none)
    → IsConsistent b
    → Filled ts b (apply_change_set b (as_changes ts)).0
      × ((apply_change_set b (as_changes ts)).1 ≡ none)
unfolding as_changes lookup
fill [] b map fits apart v =
    unfold apply_change_set in
    (record { ok = v; tables_are = λ id. refl; deletions_kept = refl }, refl)
fill ((id, t) ∷ ts) b map fits apart v =
    let a = add_one id t b (fits id t (ground arith)) (apart id (ground arith)) v in
    let c = new_create_change id t.level t.key_id t.compression in
    let next_eq : (apply_manifest_change b c).0 ≡ a.next = ap (λ x. x.0) a.step in
    let (rest, fine) =
      fill ts a.next map.1 (λ i u h. fits i u (ground (arith, map.0)))
        (λ i h. ground (arith, a.tables_are i, h, map.0, apart i)) a.next_ok in
    let whole : apply_change_set b (c ∷ as_changes ts) ≡ apply_change_set a.next (as_changes ts) =
      change_set_ok b c (as_changes ts) (ap (λ x. x.1) a.step)
      ∙ ap (λ x. apply_change_set x (as_changes ts)) next_eq in
    let filled : Filled ((id, t) ∷ ts) b (apply_change_set a.next (as_changes ts)).0 = record {
      ok = rest.ok;
      tables_are = λ i. ground (arith, rest.tables_are i, a.tables_are i, map.0);
      deletions_kept = rest.deletions_kept ∙ a.deletions_kept;
    } in
    subst (λ x. Filled ((id, t) ∷ ts) b x.0 × (x.1 ≡ none)) (sym whole) (filled, fine)

pub create_manifest-IsConsistent : IsConsistent create_manifest
unfolding lookup
create_manifest-IsConsistent = record {
  is_map = tt;
  fields = λ id t h. cc;
  in_levels = λ id l. refl;
  counted = omega arith;
}

-- The map of tables, in whatever order it is gone through.
pub record InOrder (ts : NatMap TableManifest) (m : Manifest) : Type 0 where
  pub is_map : IsMap ts
  pub entries : (id : ℕ) → lookup id ts ≡ lookup id m.tables

-- A manifest whose two views of its tables agree is cloned without an error, in whatever order the
-- map of its tables is gone through: the clone has the same tables, with the same ids at every
-- level, and counts no deletions.
pub clone-Alike :
    (m : Manifest) (ts : NatMap TableManifest)
    → IsConsistent m
    → InOrder ts m
    → Alike m (clone ts).0 × ((clone ts).1 ≡ none) × ((clone ts).0.deletions ≡ 0)
unfolding clone
clone-Alike m ts v o =
    let (filled, fine) =
      fill ts create_manifest o.is_map (λ id t h. v.fields id t (sym (o.entries id) ∙ h))
        (λ id h. unfold lookup in refl) create_manifest-IsConsistent in
    (
      record {
        left_ok = v;
        right_ok = filled.ok;
        same = λ id. unfold lookup in ground (arith, filled.tables_are id, o.entries id);
      },
      fine,
      filled.deletions_kept,
    )
