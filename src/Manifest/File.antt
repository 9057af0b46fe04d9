-- ===== src/Manifest/File.antt =====
-- manifest.go: the MANIFEST file. Its content is a sequence of bytes; the changes are appended to
-- it, and it is written anew when most of what it says is deletions. The protobuf encoding and the
-- checksum, which are packages outside the repository, and the order in which a Go map is gone
-- through, are parameters.
pub mod Frames
pub mod Replay
pub mod Recovery
pub mod Total
mod Examples
use pri_zzl_badger.Base.{
  ℕ, suc, ◌+◌, ◌-◌, ◌*◌, ◌%◌, ◌^◌, Bool, true, false, ◌&&◌, not, Option, none, some, List, [], ◌∷◌,
  ◌++◌, ◌==◌, if◌then◌else◌, length, take, drop, NatMap, lookup, ltb, zero,
}
use pri_zzl_badger.Bytes.{Bytes, be_bytes, be_value, equal_bytes}
use pri_zzl_badger.Manifest.{
  TableManifest, ManifestChange, Manifest, ChangeError, create_manifest, apply_change_set,
  as_changes, clone,
}

-- io.ReadFull of `n` bytes, where it fails with io.EOF or io.ErrUnexpectedEOF.
pub read_full : ℕ → Bytes → Option (Bytes × Bytes)
read_full n bs = if ltb (length bs) n then none else some (take n bs, drop n bs)

-- magicText
abbrev pub magic_text : Bytes
magic_text = 66 ∷ 100 ∷ 103 ∷ 114 ∷ []

abbrev pub badger_magic_version : ℕ
badger_magic_version = 8

abbrev pub manifest_deletions_ratio : ℕ
manifest_deletions_ratio = 10

abbrev pub manifest_deletions_rewrite_threshold : ℕ
manifest_deletions_rewrite_threshold = 10000

pub data ReplayError : Type 0 where
  bad_magic : ReplayError
  unsupported_version : ℕ → ReplayError
  wrong_external_magic : ℕ → ReplayError
  too_long : ℕ → ReplayError
  bad_checksum : ReplayError
  bad_message : ReplayError
  bad_change : ChangeError → ReplayError

-- The answer of ReplayManifestFile: an error, or the manifest and the offset of the first byte
-- after the last whole change set.
pub data Replayed : Type 0 where
  failed : ReplayError → Replayed
  replayed : Manifest → ℕ → Replayed

-- One turn of the loop of ReplayManifestFile: `break`, an error, or a change set that was applied,
-- with the count of the bytes read and the bytes that follow.
pub data Turn : Type 0 where
  stop : Turn
  fail : ReplayError → Turn
  next : Manifest → ℕ → Bytes → Turn

pub record ManifestFile : Type 0 where
  pub content : Bytes
  pub external_magic : ℕ
  pub deletions_rewrite_threshold : ℕ
  pub manifest : Manifest
  pub in_memory : Bool

-- The end of helpOpenOrCreateManifestFile: an error, the file cut off after the last whole change
-- set with the manifest as it was read, or the fault of y.Check in clone.
pub data Opened : Type 0 where
  refused : ReplayError → Opened
  opened : ManifestFile → Manifest → Opened
  clone_fault : ChangeError → Opened

-- proto.Marshal and proto.Unmarshal of a change set, crc32.Checksum with the Castagnoli table, and
-- the order of a map.
pub record Codec : Type 0 where
  pub marshal : List ManifestChange → Bytes
  pub unmarshal : Bytes → Option (List ManifestChange)
  pub checksum : Bytes → ℕ
  pub order : NatMap TableManifest → NatMap TableManifest

module _ (k : Codec) where
  -- A change set on disk: its length, its checksum and its message.
  pub frame : List ManifestChange → Bytes
  frame cs =
      let buf = k.marshal cs in
      be_bytes 4 (length buf % 2 ^ 32) ++ be_bytes 4 (k.checksum buf) ++ buf

  pub header : ℕ → Bytes
  header ext_magic = magic_text ++ be_bytes 2 ext_magic ++ be_bytes 2 badger_magic_version

  -- helpRewrite: the new content of the file. The counter that it returns is `len(m.Tables)`.
  pub help_rewrite : Manifest → ℕ → Bytes × ℕ
  help_rewrite m ext_magic =
      (header ext_magic ++ frame (as_changes (k.order m.tables)), length m.tables)

  -- rewrite
  pub rewrite : ManifestFile → ManifestFile
  rewrite mf =
      let (content, net_creations) = help_rewrite mf.manifest mf.external_magic in
      record mf {
        content = content;
        manifest = record mf.manifest { creations = net_creations; deletions = 0 };
      }

  -- The condition of the rewrite. Where there are fewer creations than deletions, the difference
  -- is negative in the source and 0 here, and the second test holds in both.
  pub wants_rewrite : ManifestFile → Bool
  wants_rewrite mf =
      let m = mf.manifest in
      ltb mf.deletions_rewrite_threshold m.deletions
      && ltb (manifest_deletions_ratio * (m.creations - m.deletions)) m.deletions

  -- addChanges, after applyChangeSet: on an error the file is not written, and the manifest in
  -- memory keeps the changes before the one that failed.
  pub write_changes :
      ManifestFile
      → List ManifestChange
      → Manifest × Option ChangeError
      → ManifestFile × Option ChangeError
  write_changes mf changes (m, some e) = (record mf { manifest = m }, some e)
  write_changes mf changes (m, none) =
      if wants_rewrite (record mf { manifest = m })
      then (rewrite (record mf { manifest = m }), none)
      else (record mf { manifest = m; content = mf.content ++ frame changes }, none)

  -- addChanges
  pub add_changes : ManifestFile → List ManifestChange → ManifestFile × Option ChangeError
  add_changes mf changes =
      if mf.in_memory
      then (mf, none)
      else write_changes mf changes (apply_change_set mf.manifest changes)

  -- The end of a turn: the changes of the set are applied.
  abbrev pub applied_turn : Manifest × Option ChangeError → ℕ → Bytes → Turn
  applied_turn (m, none) n rest = next m n rest
  applied_turn (m, some e) n rest = fail (bad_change e)

  -- The middle of a turn: `sum` is the checksum on disk, `buf` the message.
  pub read_message : Manifest → ℕ → Bytes → Bytes → Turn
  read_message build sum buf rest =
      if not (k.checksum buf == sum) then fail bad_checksum else elim (k.unmarshal buf) [
        | none ↦ fail bad_message
        | some cs ↦ applied_turn (apply_change_set build cs) (8 + length buf) rest
      ]

  -- The part of a turn after the eight bytes of the length `n` and the checksum `sum`.
  pub read_body : ℕ → Manifest → ℕ → ℕ → Bytes → Turn
  read_body size build n sum rest =
      if ltb (size % 2 ^ 32) n then fail (too_long n) else elim (read_full n rest) [
        | none ↦ stop
        | some (buf, tail) ↦ read_message build sum buf tail
      ]

  pub read_frame : ℕ → Manifest → Bytes → Turn
  read_frame size build bs = elim (read_full 8 bs) [
    | none ↦ stop
    | some (len_crc, rest) ↦
        read_body size build (be_value 0 (take 4 len_crc)) (be_value 0 (drop 4 len_crc)) rest
  ]

  -- The loop of ReplayManifestFile, on fuel: `none` is the end of the fuel.
  pub replay_loop : ℕ → ℕ → Manifest → ℕ → Bytes → Option Replayed
  replay_loop zero size build offset bs = none
  replay_loop (suc fuel) size build offset bs = elim (read_frame size build bs) [
    | stop ↦ some (replayed build offset)
    | fail e ↦ some (failed e)
    | next b n rest ↦ replay_loop fuel size b (offset + n) rest
  ]

  -- ReplayManifestFile, with more fuel than the file has bytes.
  pub replay_manifest_file : Bytes → ℕ → Option Replayed
  replay_manifest_file bs ext_magic = elim (read_full 8 bs) [
    | none ↦ some (failed bad_magic)
    | some (magic, rest) ↦
        let ext_version = be_value 0 (take 2 (drop 4 magic)) in
        let version = be_value 0 (drop 6 magic) in
        if not (equal_bytes (take 4 magic) magic_text)
        then some (failed bad_magic)
        else if not (version == badger_magic_version)
        then some (failed (unsupported_version version))
        else if not (ext_version == ext_magic)
        then some (failed (wrong_external_magic ext_version))
        else replay_loop (suc (length rest)) (length bs) create_manifest 8 rest
  ]

  -- helpOpenOrCreateManifestFile on a file that exists, after the replay: only a file that may be
  -- written is truncated.
  pub open_replayed : Bool → Bytes → ℕ → ℕ → Replayed → Opened
  open_replayed read_only bs ext_magic threshold (failed e) = refused e
  open_replayed read_only bs ext_magic threshold (replayed m offset) =
      let (copy, err) = clone (k.order m.tables) in
      elim err [
        | some e ↦ clone_fault e
        | none ↦
            opened
              (record {
                content = if read_only then bs else take offset bs;
                external_magic = ext_magic;
                deletions_rewrite_threshold = threshold;
                manifest = copy;
                in_memory = false;
              })
              m
      ]

  pub open_existing : Bool → Bytes → ℕ → ℕ → Option Opened
  open_existing read_only bs ext_magic threshold = elim (replay_manifest_file bs ext_magic) [
    | none ↦ none
    | some r ↦ some (open_replayed read_only bs ext_magic threshold r)
  ]
