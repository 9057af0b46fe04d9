-- ===== src/Manifest/Examples.antt =====
-- A manifest with one table at level 1 and one in a hot tier.
use pri_zzl_badger.Base.{
  ℕ, zero, suc, ◌≡◌, ◌≢◌, refl, Bool, true, false, Option, some, none, List, [], ◌∷◌, arith, All,
  lookup, IsMap, elem, get_or,
}
use pri_zzl_badger.Manifest.{
  create, delete, ManifestChange, Manifest, create_manifest, apply_manifest_change,
  apply_change_set, index_fault, table_exists, clone, create_table, delete_table,
}
use pri_zzl_badger.Manifest.Consistent.{IsChange, IsConsistent, apply_manifest_change-IsConsistent}
use pri_zzl_badger.Manifest.Clone.{
  Alike, InOrder, apply_change_set-Alike, clone-Alike, create_manifest-IsConsistent,
}

abbrev added : ManifestChange
added = record { id = 4; op = create; level = 1; key_id = 0; compression = 1 }

abbrev hot : ManifestChange
hot = record { id = 5; op = create; level = 98; key_id = 0; compression = 1 }

abbrev removed : ManifestChange
removed = record { id = 4; op = delete; level = 0; key_id = 0; compression = 0 }

abbrev two_tables : Manifest
two_tables = record {
  levels = [] ∷ (4 ∷ []) ∷ [];
  tables =
      (4, record { level = 1; key_id = 0; compression = 1 })
      ∷ (5, record { level = 98; key_id = 0; compression = 1 })
      ∷ [];
  creations = 2;
  deletions = 0;
}

two_changes : apply_change_set create_manifest (added ∷ hot ∷ []) ≡ (two_tables, none)
unfolding apply_change_set apply_manifest_change lookup create_table pri_zzl_badger.Base.insert
two_changes = refl

removal : apply_manifest_change two_tables removed ≡ (
  record two_tables {
    levels = [] ∷ [] ∷ [];
    tables = (5, record { level = 98; key_id = 0; compression = 1 }) ∷ [];
    deletions = 1;
  },
  none,
)
unfolding apply_manifest_change lookup delete_table pri_zzl_badger.Base.remove
removal = refl

added_twice : (apply_manifest_change two_tables added).1 ≡ some table_exists
unfolding apply_manifest_change lookup
added_twice = refl

added-IsChange : IsChange added
added-IsChange = record { level_fits = omega arith; compression_fits = omega arith }

removed-IsChange : IsChange removed
removed-IsChange = record { level_fits = omega arith; compression_fits = omega arith }

hot-IsChange : IsChange hot
hot-IsChange = record { level_fits = omega arith; compression_fits = omega arith }

empty-Alike : Alike create_manifest create_manifest
empty-Alike = record {
  left_ok = create_manifest-IsConsistent;
  right_ok = create_manifest-IsConsistent;
  same = λ id. refl;
}

two_tables-Alike :
    Alike
      (apply_change_set create_manifest (added ∷ hot ∷ [])).0
      (apply_change_set create_manifest (added ∷ hot ∷ [])).0
    × ((apply_change_set create_manifest (added ∷ hot ∷ [])).1
        ≡ (apply_change_set create_manifest (added ∷ hot ∷ [])).1)
two_tables-Alike =
    apply_change_set-Alike create_manifest create_manifest (added ∷ hot ∷ [])
      (added-IsChange, (hot-IsChange, tt)) empty-Alike

pub two_tables-IsConsistent : IsConsistent two_tables
unfolding apply_change_set apply_manifest_change create_table lookup pri_zzl_badger.Base.insert
two_tables-IsConsistent = two_tables-Alike.0.left_ok

apply_manifest_change-IsConsistent_example :
    IsConsistent (apply_manifest_change two_tables removed).0
    × ((apply_manifest_change two_tables removed).1 ≢ some index_fault)
apply_manifest_change-IsConsistent_example =
    apply_manifest_change-IsConsistent two_tables removed removed-IsChange two_tables-IsConsistent

in_order : InOrder two_tables.tables two_tables
unfolding lookup
in_order = record { is_map = (refl, (refl, tt)); entries = λ id. refl }

clone-Alike_example :
    Alike two_tables (clone two_tables.tables).0
    × ((clone two_tables.tables).1 ≡ none)
    × ((clone two_tables.tables).0.deletions ≡ 0)
clone-Alike_example = clone-Alike two_tables two_tables.tables two_tables-IsConsistent in_order
