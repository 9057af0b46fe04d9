-- ===== src/Manifest/File/Total.antt =====
-- The replay of any file ends: the loop has fuel for every byte.
use pri_zzl_badger.Base.{
  ℕ, zero, suc, ◌+◌, ◌%◌, ◌^◌, ◌<◌, ◌≡◌, ◌≢◌, refl, Option, none, some, ◌==◌, length, take, drop,
  length-drop, ltb, inl, inr, Bool-cases, Option-cases, arith, not,
}
use pri_zzl_badger.Bytes.{Bytes}
use pri_zzl_badger.Manifest.{Manifest, ChangeError, apply_change_set, create_manifest}
use pri_zzl_badger.Manifest.File.{
  Codec, read_full, read_frame, read_body, read_message, Turn, stop, fail, next, applied_turn,
  replay_loop, replay_manifest_file,
}

-- The bytes that a turn leaves are fewer than `bound`.
abbrev LeavesLess : ℕ → Turn → Type 0
LeavesLess bound stop = Unit
LeavesLess bound (fail e) = Unit
LeavesLess bound (next m n rest) = length rest < bound

module _ (k : Codec) where
  applied_turn-LeavesLess :
      (bound : ℕ) (p : Manifest × Option ChangeError) (n : ℕ) (rest : Bytes)
      → length rest < bound
      → LeavesLess bound (applied_turn k p n rest)
  applied_turn-LeavesLess bound (m, none) n rest h = h
  applied_turn-LeavesLess bound (m, some e) n rest h = tt

  read_message-LeavesLess :
      (bound : ℕ) (build : Manifest) (sum : ℕ) (buf rest : Bytes)
      → length rest < bound
      → LeavesLess bound (read_message k build sum buf rest)
  unfolding read_message
  read_message-LeavesLess bound build sum buf rest h =
      elim (Bool-cases (not (k.checksum buf == sum))) [
        | inl bad ↦ rw (bad, read_message) tt
        | inr good ↦ elim (Option-cases (k.unmarshal buf)) [
          | inl bad ↦ rw (good, read_message, bad) tt
          | inr (cs, at) ↦
              rw (good, read_message, at)
                (applied_turn-LeavesLess bound (apply_change_set build cs) _ rest h)
        ]
      ]

  read_body-LeavesLess :
      (bound size : ℕ) (build : Manifest) (n sum : ℕ) (rest : Bytes)
      → length rest < bound
      → LeavesLess bound (read_body k size build n sum rest)
  unfolding read_body read_full
  read_body-LeavesLess bound size build n sum rest h =
      let less =
        read_message-LeavesLess bound build sum (take n rest) (drop n rest)
          (omega (arith, length-drop n rest)) in
      elim (Bool-cases (ltb (size % 2 ^ 32) n)) [
        | inl long ↦ rw (long, read_body) tt
        | inr fits ↦ elim (Bool-cases (ltb (length rest) n)) [
          | inl short ↦ rw (fits, read_body, short) tt
          | inr whole ↦ rw (fits, read_body, whole) less
        ]
      ]

  read_frame-LeavesLess :
      (size : ℕ) (build : Manifest) (bs : Bytes)
      → LeavesLess (length bs) (read_frame k size build bs)
  unfolding read_frame read_full
  read_frame-LeavesLess size build bs = elim (Bool-cases (ltb (length bs) 8)) [
    | inl short ↦ rw (short, read_frame) tt
    | inr enough ↦
        rw (enough, read_frame)
          (read_body-LeavesLess (length bs) size build _ _ (drop 8 bs)
            (ground (arith, length-drop 8 bs)))
  ]

  after_turn :
      (fuel size bound : ℕ) (build : Manifest) (offset : ℕ) (t : Turn)
      → LeavesLess bound t
      → ((b : Manifest) (o : ℕ) (rest : Bytes)
          → length rest < bound
          → replay_loop k fuel size b o rest ≢ none)
      → (bs : Bytes) → read_frame k size build bs ≡ t
      → replay_loop k (suc fuel) size build offset bs ≢ none
  unfolding replay_loop
  after_turn fuel size bound build offset stop less rec bs e = rw (e, replay_loop) (λ h. cc h)
  after_turn fuel size bound build offset (fail err) less rec bs e = rw (e, replay_loop) (λ h. cc h)
  after_turn fuel size bound build offset (next b n rest) less rec bs e =
      rw (e, replay_loop) (rec b (offset + n) rest less)

  replay_loop-total :
      (fuel size : ℕ) (build : Manifest) (offset : ℕ) (bs : Bytes)
      → length bs < fuel
      → replay_loop k fuel size build offset bs ≢ none
  unfolding replay_loop
  replay_loop-total zero size build offset bs h = absurd (omega arith)
  replay_loop-total (suc fuel) size build offset bs h =
      after_turn fuel size (length bs) build offset (read_frame k size build bs)
        (read_frame-LeavesLess size build bs)
        (λ b o rest less. replay_loop-total fuel size b o rest (omega arith)) bs refl

  -- The replay of every file ends, with a manifest or an error: the fuel never runs out.
  pub replay_manifest_file-total : (bs : Bytes) (ext : ℕ) → replay_manifest_file k bs ext ≢ none
  unfolding replay_manifest_file read_full
  replay_manifest_file-total bs ext = ground (
    arith,
    replay_loop-total (suc (length (drop 8 bs))) (length bs) create_manifest 8 (drop 8 bs)
        (omega arith),
  )
