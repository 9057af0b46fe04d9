-- ===== src/Manifest.antt =====
-- manifest.go: the list of the database's tables and their levels, and how changes apply to it.
-- The protobuf messages are those of pb.ManifestChange.
pub mod Consistent
pub mod Clone
pub mod File
mod Examples
use pri_zzl_badger.Base.{
  ℕ, suc, ◌+◌, ◌-◌, ◌%◌, ◌^◌, Bool, true, false, ◌&&◌, ◌||◌, not, Option, none, some, List, [], ◌∷◌,
  ◌++◌, ◌==◌, if◌then◌else◌, length, get_or, set, replicate, keep_if, elem, NatMap, lookup, insert,
  remove, ltb,
}

pub record TableManifest : Type 0 where
  pub level : ℕ
  pub key_id : ℕ
  pub compression : ℕ

-- ManifestChange_Operation: a number in the message, of which two have a meaning.
pub data Operation : Type 0 where
  create : Operation
  delete : Operation
  unknown : ℕ → Operation

-- pb.ManifestChange, without the encryption algorithm that is never read.
pub record ManifestChange : Type 0 where
  pub id : ℕ
  pub op : Operation
  pub level : ℕ
  pub key_id : ℕ
  pub compression : ℕ

-- The tables of a level are the set of their ids.
pub record Manifest : Type 0 where
  pub levels : List (List ℕ)
  pub tables : NatMap TableManifest
  pub creations : ℕ
  pub deletions : ℕ

-- The error texts of applyManifestChange, and the fault of an index out of range.
pub data ChangeError : Type 0 where
  table_exists : ChangeError
  removes_non_existing : ChangeError
  invalid_op : ChangeError
  index_fault : ChangeError

-- createManifest
abbrev pub create_manifest : Manifest
create_manifest = record { levels = []; tables = []; creations = 0; deletions = 0 }

-- The two hot tiers have no entry in the levels.
abbrev pub is_hot : ℕ → Bool
is_hot level = level == 98 || level == 99

-- `for len(build.Levels) <= int(tc.Level)`
abbrev pub pad_levels : List (List ℕ) → ℕ → List (List ℕ)
pad_levels levels level = levels ++ replicate (suc level - length levels) []

abbrev pub add_id : ℕ → List ℕ → List ℕ
add_id id s = if elem id s then s else id ∷ s

abbrev pub table_of : ManifestChange → TableManifest
table_of tc = record { level = tc.level % 2 ^ 8; key_id = tc.key_id; compression = tc.compression }

-- The case ManifestChange_CREATE, after its check.
pub create_table : Manifest → ManifestChange → Manifest
create_table build tc =
    let levels = pad_levels build.levels tc.level in
    record build {
      tables = insert tc.id (table_of tc) build.tables;
      levels =
          if is_hot tc.level
          then build.levels
          else set levels tc.level (add_id tc.id (get_or levels tc.level []));
      creations = suc build.creations;
    }

-- The case ManifestChange_DELETE, after its checks.
pub delete_table : Manifest → ℕ → TableManifest → Manifest
delete_table build id tm = record build {
  tables = remove id build.tables;
  levels =
      if is_hot tm.level
      then build.levels
      else set build.levels tm.level
          (keep_if (λ x. not (x == id)) (get_or build.levels tm.level []));
  deletions = suc build.deletions;
}

-- applyManifestChange: the manifest after it, and the error.
pub apply_manifest_change : Manifest → ManifestChange → Manifest × Option ChangeError
apply_manifest_change build tc = elim tc.op [
  | create ↦ elim (lookup tc.id build.tables) [
    | some old ↦ (build, some table_exists)
    | none ↦ (create_table build tc, none)
  ]
  | delete ↦ elim (lookup tc.id build.tables) [
    | none ↦ (build, some removes_non_existing)
    | some tm ↦
        if is_hot tm.level || ltb tm.level (length build.levels)
        then (delete_table build tc.id tm, none)
        else (build, some index_fault)
  ]
  | unknown n ↦ (build, some invalid_op)
]

-- applyChangeSet: what was applied before an error stays.
pub apply_change_set : Manifest → List ManifestChange → Manifest × Option ChangeError
apply_change_set build [] = (build, none)
apply_change_set build (c ∷ cs) =
    let (next, err) = apply_manifest_change build c in
    let rest = apply_change_set next cs in elim err [ none ↦ rest | some e ↦ (next, some e) ]

-- newCreateChange
pub new_create_change : ℕ → ℕ → ℕ → ℕ → ManifestChange
new_create_change id level key_id c = record {
  id = id;
  op = create;
  level = level % 2 ^ 32;
  key_id = key_id;
  compression = c % 2 ^ 32;
}

-- newDeleteChange
pub new_delete_change : ℕ → ManifestChange
new_delete_change id = record { id = id; op = delete; level = 0; key_id = 0; compression = 0 }

-- asChanges, on the tables in the order in which the map yields them.
pub as_changes : NatMap TableManifest → List ManifestChange
as_changes [] = []
as_changes ((id, tm) ∷ ts) = new_create_change id tm.level tm.key_id tm.compression ∷ as_changes ts

-- clone: `ts` are the tables of the manifest in the order in which the map yields them.
pub clone : NatMap TableManifest → Manifest × Option ChangeError
clone ts = apply_change_set create_manifest (as_changes ts)
