-- ===== src/Manifest/File/Examples.antt =====
-- A MANIFEST file with one change set, under an encoding that writes a change as five numbers.
use pri_zzl_badger.Base.{
  ℕ, zero, suc, ◌+◌, ◌≡◌, ◌≢◌, refl, false, ◌&&◌, not, Option, some, none, List, [], ◌∷◌, ◌++◌,
  arith, All, lookup, take, length, ltb, ap, if◌then◌else◌, ◌∙◌,
}
use pri_zzl_badger.Bytes.{Bytes}
use pri_zzl_badger.Manifest.{
  Operation, create, delete, unknown, ManifestChange, Manifest, create_manifest,
  apply_manifest_change, apply_change_set,
}
use pri_zzl_badger.Manifest.Consistent.{IsChange}
use pri_zzl_badger.Manifest.Clone.{Alike, create_manifest-IsConsistent}
use pri_zzl_badger.Manifest.File.{
  Codec, ManifestFile, header, frame, add_changes, open_existing, opened, replay_manifest_file,
  failed, replayed, too_long,
}
use pri_zzl_badger.Manifest.File.Frames.{IsCodec}
use pri_zzl_badger.Manifest.File.Replay.{frames, after, replay-torn}
use pri_zzl_badger.Manifest.File.Recovery.{
  IsOrder, Recorded, add_changes-Recorded, open_existing-torn,
}
use pri_zzl_badger.Manifest.File.Total.{replay_manifest_file-total}

abbrev op_code : Operation → ℕ
op_code create = 0
op_code delete = 1
op_code (unknown n) = suc (suc n)

abbrev code_op : ℕ → Operation
code_op zero = create
code_op (suc zero) = delete
code_op (suc (suc n)) = unknown n

abbrev write_changes : List ManifestChange → Bytes
write_changes [] = []
write_changes (c ∷ cs) = c.id ∷ op_code c.op ∷ c.level ∷ c.key_id ∷ c.compression ∷ write_changes cs

abbrev prepend : ManifestChange → Option (List ManifestChange) → Option (List ManifestChange)
prepend c none = none
prepend c (some cs) = some (c ∷ cs)

abbrev read_changes : Bytes → Option (List ManifestChange)
read_changes [] = some []
read_changes (a ∷ []) = none
read_changes (a ∷ b ∷ []) = none
read_changes (a ∷ b ∷ c ∷ []) = none
read_changes (a ∷ b ∷ c ∷ d ∷ []) = none
read_changes (a ∷ b ∷ c ∷ d ∷ e ∷ rest) =
    prepend (record { id = a; op = code_op b; level = c; key_id = d; compression = e })
      (read_changes rest)

abbrev codec : Codec
codec = record {
  marshal = write_changes;
  unmarshal = read_changes;
  checksum = λ bs. 7;
  order = λ ts. ts;
}

code_op-op_code : (o : Operation) → code_op (op_code o) ≡ o
code_op-op_code create = refl
code_op-op_code delete = refl
code_op-op_code (unknown n) = refl

read_changes-write_changes : (cs : List ManifestChange) → read_changes (write_changes cs) ≡ some cs
read_changes-write_changes [] = refl
read_changes-write_changes (c ∷ cs) =
    ap
      (λ o.
        prepend
          (record {
            id = c.id;
            op = o;
            level = c.level;
            key_id = c.key_id;
            compression = c.compression;
          })
          (read_changes (write_changes cs)))
      (code_op-op_code c.op)
    ∙ ap (prepend c) (read_changes-write_changes cs)

codec-IsCodec : IsCodec codec
codec-IsCodec = record {
  unmarshal-marshal = read_changes-write_changes;
  checksum_fits = λ bs. omega arith;
}

codec-IsOrder : IsOrder codec
codec-IsOrder m map = record { is_map = map; entries = λ id. refl }

abbrev added : List ManifestChange
added = record { id = 4; op = create; level = 1; key_id = 0; compression = 1 } ∷ []

abbrev more : List ManifestChange
more = record { id = 5; op = create; level = 98; key_id = 0; compression = 1 } ∷ []

added-IsChange : All IsChange added
added-IsChange = (record { level_fits = omega arith; compression_fits = omega arith }, tt)

abbrev header_bytes : Bytes
header_bytes = 66 ∷ 100 ∷ 103 ∷ 114 ∷ 0 ∷ 3 ∷ 0 ∷ 8 ∷ []

abbrev added_bytes : Bytes
added_bytes = 0 ∷ 0 ∷ 0 ∷ 5 ∷ 0 ∷ 0 ∷ 0 ∷ 7 ∷ 4 ∷ 0 ∷ 1 ∷ 0 ∷ 1 ∷ []

header_is : header codec 3 ≡ header_bytes
unfolding header pri_zzl_badger.Bytes.be_bytes
header_is = refl

added_is : frame codec added ≡ added_bytes
unfolding frame pri_zzl_badger.Bytes.be_bytes
added_is = refl

abbrev empty_file : ManifestFile
empty_file = record {
  content = header_bytes;
  external_magic = 3;
  deletions_rewrite_threshold = 100;
  manifest = create_manifest;
  in_memory = false;
}

empty-Recorded : Recorded codec codec-IsCodec empty_file
unfolding header pri_zzl_badger.Bytes.be_bytes
empty-Recorded = record {
  history = [];
  content_is = refl;
  applies = tt;
  alike = record {
    left_ok = create_manifest-IsConsistent;
    right_ok = create_manifest-IsConsistent;
    same = λ id. refl;
  };
  on_disk = refl;
}

added_applies : (apply_change_set create_manifest added).1 ≡ none
unfolding apply_change_set apply_manifest_change lookup
added_applies = refl

add_changes-Recorded_example :
    Recorded codec codec-IsCodec (add_changes codec empty_file added).0
    × ((add_changes codec empty_file added).1 ≡ none)
add_changes-Recorded_example =
    add_changes-Recorded codec codec-IsCodec empty_file added codec-IsOrder empty-Recorded
      added-IsChange added_applies

added-length : length (frame codec added) ≡ 13
unfolding frame pri_zzl_badger.Bytes.be_bytes
added-length = refl

torn-length : length (header_bytes ++ take 10 (frame codec added)) ≡ 18
unfolding frame pri_zzl_badger.Bytes.be_bytes
torn-length = refl

open_existing-torn_example :
    (after_crash : ManifestFile) × (read : Manifest) × (open_existing codec false
        (header_bytes ++ take 10 (frame codec added))
        3
        100
      ≡ some (opened after_crash read))
    × (after_crash.content ≡ header_bytes)
    × Alike read create_manifest
    × Recorded codec codec-IsCodec after_crash
open_existing-torn_example =
    open_existing-torn codec codec-IsCodec empty_file added 10 100 codec-IsOrder empty-Recorded
      (omega arith) (omega (arith, added-length)) (omega arith) (omega (arith, torn-length))
      (ground (arith, torn-length))

more-length : length (frame codec more) ≡ 13
unfolding frame pri_zzl_badger.Bytes.be_bytes
more-length = refl

replay-torn-length :
    length (header codec 3 ++ (frames codec (added ∷ []) ++ take 4 (frame codec more))) ≡ 25
unfolding header frame pri_zzl_badger.Bytes.be_bytes
replay-torn-length = refl

replay-torn_example :
    replay_manifest_file codec
      (header codec 3 ++ (frames codec (added ∷ []) ++ take 4 (frame codec more)))
      3
    ≡ some (
        if not (ltb 4 8)
          && ltb
              (length (header codec 3 ++ (frames codec (added ∷ []) ++ take 4 (frame codec more))))
              5
        then failed (too_long 5)
        else replayed (after create_manifest (added ∷ [])) (8 + length (frames codec (added ∷ []))))
replay-torn_example =
    replay-torn codec codec-IsCodec 3 (added ∷ []) more 4 (omega arith)
      (ground (arith, more-length)) (omega arith) (omega (arith, replay-torn-length))
      (added_applies, tt)

replay_manifest_file-total_example :
    replay_manifest_file codec (header_bytes ++ added_bytes) 3 ≢ none
replay_manifest_file-total_example =
    replay_manifest_file-total codec (header_bytes ++ added_bytes) 3
