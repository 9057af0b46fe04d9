-- ===== src/Manifest/File/Replay.antt =====
-- Replaying a MANIFEST file that consists of its header, whole change sets, and the beginning of
-- one more.
use pri_zzl_badger.Base.{
  ℕ, zero, suc, ◌+◌, ◌^◌, ◌<◌, ◌≤◌, ◌≡◌, refl, ap, ◌∙◌, ◌&&◌, not, Option, none, some, List, [],
  ◌∷◌, ◌++◌, if◌then◌else◌, length, take, drop, ltb, inl, inr, Bool-cases, arith, length-append,
}
use pri_zzl_badger.Bytes.{Bytes, be_bytes, be_value, equal_bytes}
use pri_zzl_badger.Bytes.Endian.{be_value-be_bytes}
use pri_zzl_badger.Manifest.{
  ManifestChange, Manifest, ChangeError, create_manifest, apply_change_set,
}
use pri_zzl_badger.Manifest.File.{
  Codec, frame, header, applied_turn, read_frame, next, too_long, replay_loop, replay_manifest_file,
  Replayed, failed, replayed, magic_text,
}
use pri_zzl_badger.Manifest.File.Frames.{
  IsCodec, read_full_exact, ++_assoc, length-frame, read_frame-frame, read_frame-torn,
}

-- The change sets, one after the other.
abbrev pub frames : Codec → List (List ManifestChange) → Bytes
frames k [] = []
frames k (cs ∷ css) = frame k cs ++ frames k css

-- Every change set applies without an error.
abbrev pub AllApply : Manifest → List (List ManifestChange) → Type 0
AllApply m [] = Unit
AllApply m (cs ∷ css) = ((apply_change_set m cs).1 ≡ none) × AllApply (apply_change_set m cs).0 css

abbrev pub after : Manifest → List (List ManifestChange) → Manifest
after m [] = m
after m (cs ∷ css) = after (apply_change_set m cs).0 css

module _ (k : Codec) (ok : IsCodec k) where
  length-frames : (css : List (List ManifestChange)) → length css ≤ length (frames k css)
  length-frames [] = omega arith
  length-frames (cs ∷ css) =
      omega
        (arith, length-append (frame k cs) (frames k css), length-frame k ok cs, length-frames css)

  applied_turn_ok :
      (p : Manifest × Option ChangeError) (n : ℕ) (rest : Bytes)
      → p.1 ≡ none
      → applied_turn k p n rest ≡ next p.0 n rest
  applied_turn_ok (m, none) n rest h = refl
  applied_turn_ok (m, some e) n rest h = absurd (cc h)

  pub replay_loop-next :
      (f size : ℕ) (b : Manifest) (o : ℕ) (bs : Bytes) (c : Manifest) (n : ℕ) (rest : Bytes)
      → read_frame k size b bs ≡ next c n rest
      → replay_loop k (suc f) size b o bs ≡ replay_loop k f size c (o + n) rest
  unfolding replay_loop
  replay_loop-next f size b o bs c n rest h = rw (h, replay_loop) refl

  -- The loop goes through whole change sets, and then does what it does on the rest.
  replay_loop-frames :
      (fuel size : ℕ) (build : Manifest) (offset : ℕ) (css : List (List ManifestChange))
      (tail : Bytes) (out : Manifest → ℕ → Replayed)
      → size < 2 ^ 32
      → length (frames k css) ≤ size
      → length css < fuel
      → AllApply build css
      → ((f : ℕ) (b : Manifest) (o : ℕ) → replay_loop k (suc f) size b o tail ≡ some (out b o))
      → replay_loop k fuel size build offset (frames k css ++ tail)
        ≡ some (out (after build css) (offset + length (frames k css)))
  unfolding replay_loop
  replay_loop-frames zero size build offset css tail out small fits enough fine ends =
      absurd (omega arith)
  replay_loop-frames (suc fuel) size build offset [] tail out small fits enough fine ends =
      ends fuel build offset ∙ ap (λ n. some (out build n)) (omega arith)
  replay_loop-frames (suc fuel) size build offset (cs ∷ css) tail out small fits enough fine ends =
      let len = length-append (frame k cs) (frames k css) in
      let len_frame = length-frame k ok cs in
      let m = (apply_change_set build cs).0 in
      let more = frames k css ++ tail in
      let turn =
        read_frame-frame k ok size build cs more (omega arith) small
        ∙ applied_turn_ok (apply_change_set build cs) (8 + length (k.marshal cs)) more fine.0 in
      let n = 8 + length (k.marshal cs) in
      let rest =
        replay_loop-frames fuel size m (offset + n) css tail out small (omega arith) (omega arith)
          fine.1 ends in
      let total : offset + n + length (frames k css) ≡ offset + length (frames k (cs ∷ css)) =
        omega arith in
      ap (replay_loop k (suc fuel) size build offset) (++_assoc (frame k cs) (frames k css) tail)
      ∙ replay_loop-next fuel size build offset (frame k cs ++ more) m n more turn
      ∙ rest
      ∙ ap (λ i. some (out (after m css) i)) total

  pub header_parts :
      (ext : ℕ)
      → (length (header k ext) ≡ 8)
        × (take 4 (header k ext) ≡ magic_text)
        × (take 2 (drop 4 (header k ext)) ≡ be_bytes 2 ext)
        × (drop 6 (header k ext) ≡ be_bytes 2 8)
  unfolding header be_bytes
  header_parts ext = (refl, refl, refl, refl)

  replay-header :
      (ext : ℕ) (rest : Bytes)
      → ext < 2 ^ 16
      → replay_manifest_file k (header k ext ++ rest) ext
        ≡ replay_loop k (suc (length rest)) (length (header k ext ++ rest)) create_manifest 8 rest
  unfolding replay_manifest_file equal_bytes
  replay-header ext rest h =
      let (len, magic, ext_at, version_at) = header_parts ext in
      let ext_is : be_value 0 (be_bytes 2 ext) ≡ ext = be_value-be_bytes 2 ext (omega arith) in
      let version_is : be_value 0 (be_bytes 2 8) ≡ 8 = be_value-be_bytes 2 8 (omega arith) in
      rw
        (
          read_full_exact 8 (header k ext) rest len,
          replay_manifest_file,
          magic,
          ext_at,
          version_at,
          ext_is,
          version_is,
          equal_bytes,
        )
        (ground (arith, ext_is))

  torn_turn :
      (size : ℕ) (cs : List ManifestChange) (n : ℕ)
      → n < length (frame k cs)
      → size < 2 ^ 32
      → length (k.marshal cs) < 2 ^ 32
      → (f : ℕ) (b : Manifest) (o : ℕ)
      → replay_loop k (suc f) size b o (take n (frame k cs))
        ≡ some (
            if not (ltb n 8) && ltb size (length (k.marshal cs))
            then failed (too_long (length (k.marshal cs)))
            else replayed b o)
  unfolding replay_loop
  torn_turn size cs n torn small fits f b o =
      let turn = read_frame-torn k ok size b cs n torn small fits in
      elim (Bool-cases (not (ltb n 8) && ltb size (length (k.marshal cs)))) [
        | inl long ↦ rw (turn, replay_loop, long) refl
        | inr short ↦ rw (turn, replay_loop, short) refl
      ]

  -- A file of fewer than 2^32 bytes with its header, whole change sets that apply without an error,
  -- and the first `n` bytes of one more frame, and not all of them: the replay gives the manifest
  -- after the whole sets and the offset where the torn one begins, unless the torn one has its
  -- header of eight bytes and its message is longer than the whole file; then it is an error.
  pub replay-torn :
      (ext : ℕ) (css : List (List ManifestChange)) (cs : List ManifestChange) (n : ℕ)
      → ext < 2 ^ 16
      → n < length (frame k cs)
      → length (k.marshal cs) < 2 ^ 32
      → length (header k ext ++ (frames k css ++ take n (frame k cs))) < 2 ^ 32
      → AllApply create_manifest css
      → replay_manifest_file k (header k ext ++ (frames k css ++ take n (frame k cs))) ext
        ≡ some (
            if not (ltb n 8)
              && ltb
                  (length (header k ext ++ (frames k css ++ take n (frame k cs))))
                  (length (k.marshal cs))
            then failed (too_long (length (k.marshal cs)))
            else replayed (after create_manifest css) (8 + length (frames k css)))
  replay-torn ext css cs n small_ext torn fits small fine =
      let rest = frames k css ++ take n (frame k cs) in
      let size = length (header k ext ++ rest) in
      let len_rest = length-append (frames k css) (take n (frame k cs)) in
      let len = length-append (header k ext) rest in
      replay-header ext rest small_ext
      ∙ replay_loop-frames (suc (length rest)) size create_manifest 8 css (take n (frame k cs))
          (λ b o.
            if not (ltb n 8) && ltb size (length (k.marshal cs))
            then failed (too_long (length (k.marshal cs)))
            else replayed b o)
          small (omega arith) (omega (arith, length-frames css)) fine
          (torn_turn size cs n torn small fits)
