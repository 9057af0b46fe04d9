-- ===== src/Manifest/File/Recovery.antt =====
-- The MANIFEST file and the manifest in memory say the same, through changes, rewrites and a crash
-- in the middle of a write.
use mathlib.Core.List.{append-nil}
use pri_zzl_badger.Base.{
  ℕ, ◌+◌, ◌^◌, ◌<◌, ◌≡◌, refl, sym, ap, ◌∙◌, subst, false, ◌&&◌, not, none, some, List, [], ◌∷◌,
  ◌++◌, if◌then◌else◌, length, take, take-length, ltb, inl, inr, Bool-cases, arith, length-append,
  All, IsMap,
}
use pri_zzl_badger.Bytes.{Bytes}
use pri_zzl_badger.Manifest.{
  ManifestChange, Manifest, create_manifest, apply_change_set, as_changes, clone,
}
use pri_zzl_badger.Manifest.Consistent.{IsChange, IsConsistent}
use pri_zzl_badger.Manifest.Clone.{Alike, InOrder, clone-Alike, apply_change_set-Alike}
use pri_zzl_badger.Manifest.File.{
  Codec, frame, header, too_long, replay_manifest_file, failed, replayed, ManifestFile, add_changes,
  write_changes, rewrite, help_rewrite, wants_rewrite, opened, open_replayed, open_existing,
}
use pri_zzl_badger.Manifest.File.Frames.{IsCodec, ++_assoc}
use pri_zzl_badger.Manifest.File.Replay.{frames, AllApply, after, replay-torn, header_parts}

-- A map is gone through from one end to the other, in some order.
abbrev pub IsOrder : Codec → Type 0
IsOrder k = (m : Manifest) → IsMap m.tables → InOrder (k.order m.tables) m

module _ (k : Codec) (ok : IsCodec k) where
  -- The content of the file is a header and change sets that make the manifest in memory.
  pub record Recorded (mf : ManifestFile) : Type 0 where
    pub history : List (List ManifestChange)
    pub content_is : mf.content ≡ header k mf.external_magic ++ frames k history
    pub applies : AllApply create_manifest history
    pub alike : Alike (after create_manifest history) mf.manifest
    pub on_disk : mf.in_memory ≡ false

  AllApply-append :
      (m : Manifest) (css : List (List ManifestChange)) (cs : List ManifestChange)
      → AllApply m css
      → (apply_change_set (after m css) cs).1 ≡ none
      → AllApply m (css ++ (cs ∷ []))
  AllApply-append m [] cs a h = (h, tt)
  AllApply-append m (d ∷ css) cs a h = (a.0, AllApply-append (apply_change_set m d).0 css cs a.1 h)

  after-append :
      (m : Manifest) (css : List (List ManifestChange)) (cs : List ManifestChange)
      → after m (css ++ (cs ∷ [])) ≡ (apply_change_set (after m css) cs).0
  after-append m [] cs = refl
  after-append m (d ∷ css) cs = after-append (apply_change_set m d).0 css cs

  frames-append :
      (css : List (List ManifestChange)) (cs : List ManifestChange)
      → frames k (css ++ (cs ∷ [])) ≡ frames k css ++ frame k cs
  frames-append [] cs = append-nil (frame k cs)
  frames-append (d ∷ css) cs =
      ap (λ x. frame k d ++ x) (frames-append css cs)
      ∙ sym (++_assoc (frame k d) (frames k css) (frame k cs))

  counted_anew :
      (m : Manifest)
      → IsConsistent m
      → IsConsistent (record m { creations = length m.tables; deletions = 0 })
  counted_anew m v = record {
    is_map = v.is_map;
    fields = v.fields;
    in_levels = v.in_levels;
    counted = omega arith;
  }

  rewrite-Recorded :
      (mf : ManifestFile)
      → IsOrder k
      → IsConsistent mf.manifest
      → mf.in_memory ≡ false
      → Recorded (rewrite k mf)
  unfolding rewrite help_rewrite clone
  rewrite-Recorded mf order v disk =
      let ts = k.order mf.manifest.tables in
      let (alike, fine, none_deleted) = clone-Alike mf.manifest ts v (order mf.manifest v.is_map) in
      record {
        history = as_changes ts ∷ [];
        content_is =
            ap (λ x. header k mf.external_magic ++ x) (sym (append-nil (frame k (as_changes ts))));
        applies = (fine, tt);
        alike = record {
          left_ok = alike.right_ok;
          right_ok = counted_anew mf.manifest v;
          same = λ id. sym (alike.same id);
        };
        on_disk = disk;
      }

  append-Recorded :
      (mf : ManifestFile) (changes : List ManifestChange) (m : Manifest)
      → Recorded mf
      → All IsChange changes
      → (apply_change_set mf.manifest changes) ≡ (m, none)
      → Recorded (record mf { manifest = m; content = mf.content ++ frame k changes })
  append-Recorded mf changes m r v fine =
      let start = after create_manifest r.history in
      let (next, same) = apply_change_set-Alike start mf.manifest changes v r.alike in
      let alike = subst (Alike (apply_change_set start changes).0) (ap (λ x. x.0) fine) next in
      record {
        history = r.history ++ (changes ∷ []);
        content_is =
            ap (λ x. x ++ frame k changes) r.content_is
            ∙ ++_assoc (header k mf.external_magic) (frames k r.history) (frame k changes)
            ∙ ap (λ x. header k mf.external_magic ++ x) (sym (frames-append r.history changes));
        applies =
            AllApply-append create_manifest r.history changes r.applies (same ∙ ap (λ x. x.1) fine);
        alike = subst (λ x. Alike x m) (sym (after-append create_manifest r.history changes)) alike;
        on_disk = r.on_disk;
      }

  add_changes_ok :
      (mf : ManifestFile) (changes : List ManifestChange) (m : Manifest)
      → mf.in_memory ≡ false
      → (apply_change_set mf.manifest changes) ≡ (m, none)
      → add_changes k mf changes ≡ (
          if wants_rewrite k (record mf { manifest = m })
          then (rewrite k (record mf { manifest = m }), none)
          else (record mf { manifest = m; content = mf.content ++ frame k changes }, none))
  unfolding add_changes write_changes
  add_changes_ok mf changes m disk fine =
      ap
        (λ b.
          if b
          then (mf, none)
          else write_changes k mf changes (apply_change_set mf.manifest changes))
        disk
      ∙ ap (write_changes k mf changes) fine

  -- Changes with levels below 256 that apply to the manifest of a file without an error, where the
  -- file and the manifest say the same: addChanges gives no error, and the file and the manifest
  -- say the same after it, whether it appends to the file or writes it anew.
  pub add_changes-Recorded :
      (mf : ManifestFile) (changes : List ManifestChange)
      → IsOrder k
      → Recorded mf
      → All IsChange changes
      → (apply_change_set mf.manifest changes).1 ≡ none
      → Recorded (add_changes k mf changes).0 × ((add_changes k mf changes).1 ≡ none)
  add_changes-Recorded mf changes order r v fine =
      let m = (apply_change_set mf.manifest changes).0 in
      let applied : apply_change_set mf.manifest changes ≡ (m, none) = λ i. (m, fine i) in
      let appended = append-Recorded mf changes m r v applied in
      let anew =
        rewrite-Recorded (record mf { manifest = m }) order appended.alike.right_ok r.on_disk in
      subst (λ x. Recorded x.0 × (x.1 ≡ none)) (sym (add_changes_ok mf changes m r.on_disk applied))
        (elim (Bool-cases (wants_rewrite k (record mf { manifest = m }))) [
          | inl yes_rewrite ↦ rw yes_rewrite (anew, refl)
          | inr no_rewrite ↦ rw no_rewrite (appended, refl)
        ])

  -- The replay of the torn file.
  replay-Recorded :
      (mf : ManifestFile) (cs : List ManifestChange) (n : ℕ) (r : Recorded mf)
      → mf.external_magic < 2 ^ 16
      → n < length (frame k cs)
      → length (k.marshal cs) < 2 ^ 32
      → length (mf.content ++ take n (frame k cs)) < 2 ^ 32
      → replay_manifest_file k (mf.content ++ take n (frame k cs)) mf.external_magic
        ≡ some (
            if not (ltb n 8)
              && ltb (length (mf.content ++ take n (frame k cs))) (length (k.marshal cs))
            then failed (too_long (length (k.marshal cs)))
            else replayed (after create_manifest r.history) (length mf.content))
  replay-Recorded mf cs n r ext torn fits small =
      let t = take n (frame k cs) in
      let h = header k mf.external_magic in
      let parts : mf.content ++ t ≡ h ++ (frames k r.history ++ t) =
        ap (λ c. c ++ t) r.content_is ∙ ++_assoc h (frames k r.history) t in
      let len : 8 + length (frames k r.history) ≡ length mf.content = omega (
        arith,
        ap length r.content_is,
        length-append h (frames k r.history),
        (header_parts k ok mf.external_magic).0,
      ) in
      let whole =
        replay-torn k ok mf.external_magic r.history cs n ext torn fits
          (subst (λ x. length x < 2 ^ 32) parts small) r.applies in
      ap (λ x. replay_manifest_file k x mf.external_magic) parts
      ∙ whole
      ∙ ap
          (λ x. some (
            if not (ltb n 8) && ltb (length x) (length (k.marshal cs))
            then failed (too_long (length (k.marshal cs)))
            else replayed (after create_manifest r.history) (8 + length (frames k r.history))))
          (sym parts)
      ∙ ap
          (λ i. some (
            if not (ltb n 8) && ltb (length (mf.content ++ t)) (length (k.marshal cs))
            then failed (too_long (length (k.marshal cs)))
            else replayed (after create_manifest r.history) i))
          len

  open_replayed_ok :
      (bs : Bytes) (ext threshold offset : ℕ) (m : Manifest)
      → (clone (k.order m.tables)).1 ≡ none
      → open_replayed k false bs ext threshold (replayed m offset)
        ≡ opened
            (record {
              content = take offset bs;
              external_magic = ext;
              deletions_rewrite_threshold = threshold;
              manifest = (clone (k.order m.tables)).0;
              in_memory = false;
            })
            m
  unfolding open_replayed
  open_replayed_ok bs ext threshold offset m fine = rw (fine, open_replayed) refl

  -- A file whose content and manifest say the same, with the first `n` bytes of the frame of one
  -- more change set after it, and not all of them, as a crash in the middle of a write leaves it, of
  -- fewer than 2^32 bytes in all. Where fewer than eight bytes were written, or the whole file is
  -- not shorter than the message, opening it for writing gives back the content from before the
  -- write and a manifest with the same tables, and the opened file says the same as its manifest.
  pub open_existing-torn :
      (mf : ManifestFile) (cs : List ManifestChange) (n threshold : ℕ)
      → IsOrder k
      → Recorded mf
      → mf.external_magic < 2 ^ 16
      → n < length (frame k cs)
      → length (k.marshal cs) < 2 ^ 32
      → length (mf.content ++ take n (frame k cs)) < 2 ^ 32
      → (not (ltb n 8) && ltb (length (mf.content ++ take n (frame k cs))) (length (k.marshal cs)))
        ≡ false
      → (after_crash : ManifestFile) × (read : Manifest) × (open_existing k false
            (mf.content ++ take n (frame k cs))
            mf.external_magic
            threshold
          ≡ some (opened after_crash read))
        × (after_crash.content ≡ mf.content)
        × Alike read mf.manifest
        × Recorded after_crash
  unfolding open_existing
  open_existing-torn mf cs n threshold order r ext torn fits small covered =
      let t = take n (frame k cs) in
      let start = after create_manifest r.history in
      let (copied, fine, _) =
        clone-Alike start (k.order start.tables) r.alike.left_ok
          (order start r.alike.left_ok.is_map) in
      let replay =
        replay-Recorded mf cs n r ext torn fits small
        ∙ ap
            (λ b. some (
              if b
              then failed (too_long (length (k.marshal cs)))
              else replayed start (length mf.content)))
            covered in
      let kept : take (length mf.content) (mf.content ++ t) ≡ mf.content =
        take-length mf.content t in
      let f : ManifestFile = record {
        content = take (length mf.content) (mf.content ++ t);
        external_magic = mf.external_magic;
        deletions_rewrite_threshold = threshold;
        manifest = (clone (k.order start.tables)).0;
        in_memory = false;
      } in
      (
        f,
        start,
        rw (replay, open_existing)
            (ap some (
              open_replayed_ok (mf.content ++ t) mf.external_magic threshold (length mf.content)
                start fine)),
        kept,
        r.alike,
        record {
          history = r.history;
          content_is = kept ∙ r.content_is;
          applies = r.applies;
          alike = copied;
          on_disk = refl;
        },
      )
