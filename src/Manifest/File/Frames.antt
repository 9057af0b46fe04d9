-- ===== src/Manifest/File/Frames.antt =====
-- Reading back one change set of the MANIFEST file.
use pri_zzl_badger.Base.{
  ℕ, zero, suc, ◌+◌, ◌-◌, ◌%◌, ◌^◌, ◌<◌, ◌≤◌, ◌≡◌, refl, ap, ◌∙◌, subst, false, ◌&&◌, not, none,
  some, List, [], ◌∷◌, ◌++◌, if◌then◌else◌, length, take, drop, ltb, inl, inr, Bool-cases, arith,
  length-append, take-length, drop-length, ==_refl,
}
use pri_zzl_badger.Bytes.{Bytes, be_bytes, be_value}
use pri_zzl_badger.Bytes.Endian.{length-be_bytes, be_value-be_bytes}
use pri_zzl_badger.Manifest.{ManifestChange, Manifest, apply_change_set}
use pri_zzl_badger.Manifest.File.{
  Codec, read_full, frame, read_message, applied_turn, read_frame, read_body, stop, fail, too_long,
}

-- What the packages promise: a message that was encoded is decoded to the changes it was made of,
-- and a checksum is a 32-bit number.
pub record IsCodec (k : Codec) : Type 0 where
  pub unmarshal-marshal : (cs : List ManifestChange) → k.unmarshal (k.marshal cs) ≡ some cs
  pub checksum_fits : (bs : Bytes) → k.checksum bs < 2 ^ 32

pub read_full_exact :
    (n : ℕ) (xs ys : Bytes) → length xs ≡ n → read_full n (xs ++ ys) ≡ some (xs, ys)
unfolding read_full
read_full_exact n xs ys h =
    subst (λ i. read_full i (xs ++ ys) ≡ some (xs, ys)) h
      (ground (arith, length-append xs ys, take-length xs ys, drop-length xs ys))

read_full_short : (n : ℕ) (xs : Bytes) → length xs < n → read_full n xs ≡ none
unfolding read_full
read_full_short n xs h = ground arith

pub ++_assoc : (xs ys zs : Bytes) → (xs ++ ys) ++ zs ≡ xs ++ (ys ++ zs)
++_assoc [] ys zs = refl
++_assoc (x ∷ xs) ys zs = ap (λ t. x ∷ t) (++_assoc xs ys zs)

pub take_exact : (n : ℕ) (xs ys : Bytes) → length xs ≡ n → take n (xs ++ ys) ≡ xs
take_exact n xs ys h = subst (λ i. take i (xs ++ ys) ≡ xs) h (take-length xs ys)

drop_exact : (n : ℕ) (xs ys : Bytes) → length xs ≡ n → drop n (xs ++ ys) ≡ ys
drop_exact n xs ys h = subst (λ i. drop i (xs ++ ys) ≡ ys) h (drop-length xs ys)

eight_bytes : (n sum : ℕ) → length (be_bytes 4 n ++ be_bytes 4 sum) ≡ 8
eight_bytes n sum =
    length-append (be_bytes 4 n) (be_bytes 4 sum)
    ∙ omega (arith, length-be_bytes 4 n, length-be_bytes 4 sum)

read_number : (n : ℕ) → n < 2 ^ 32 → be_value 0 (be_bytes 4 n) ≡ n
read_number n h = be_value-be_bytes 4 n (omega arith)

pub length-take : (n : ℕ) (xs : Bytes) → n ≤ length xs → length (take n xs) ≡ n
length-take zero xs h = refl
length-take (suc n) [] h = absurd (omega arith)
length-take (suc n) (x ∷ xs) h = omega (arith, length-take n xs (omega arith))

take-append_far :
    (n : ℕ) (xs ys : Bytes) → length xs ≤ n → take n (xs ++ ys) ≡ xs ++ take (n - length xs) ys
take-append_far n [] ys h = ap (λ i. take i ys) (omega arith)
take-append_far zero (x ∷ xs) ys h = absurd (omega arith)
take-append_far (suc n) (x ∷ xs) ys h =
    let same : n - length xs ≡ suc n - suc (length xs) = omega arith in
    ap (λ t. x ∷ t) (take-append_far n xs ys (omega arith) ∙ ap (λ i. xs ++ take i ys) same)

module _ (k : Codec) (ok : IsCodec k) where
  pub length-frame : (cs : List ManifestChange) → length (frame k cs) ≡ 8 + length (k.marshal cs)
  unfolding frame
  length-frame cs =
      let buf = k.marshal cs in
      let n = length buf % 2 ^ 32 in
      let sum = k.checksum buf in
      omega (arith, length-append (be_bytes 4 n ++ be_bytes 4 sum) buf, eight_bytes n sum)

  -- The header of a frame gives the length and the checksum.
  read_frame_head :
      (size : ℕ) (build : Manifest) (n sum : ℕ) (rest : Bytes)
      → n < 2 ^ 32
      → sum < 2 ^ 32
      → read_frame k size build ((be_bytes 4 n ++ be_bytes 4 sum) ++ rest)
        ≡ read_body k size build n sum rest
  unfolding read_frame
  read_frame_head size build n sum rest hn hs =
      let head = be_bytes 4 n ++ be_bytes 4 sum in
      let n_at : be_value 0 (take 4 head) ≡ n =
        ap (be_value 0) (take_exact 4 (be_bytes 4 n) (be_bytes 4 sum) (length-be_bytes 4 n))
        ∙ read_number n hn in
      let sum_at : be_value 0 (drop 4 head) ≡ sum =
        ap (be_value 0) (drop_exact 4 (be_bytes 4 n) (be_bytes 4 sum) (length-be_bytes 4 n))
        ∙ read_number sum hs in
      rw (read_full_exact 8 head rest (eight_bytes n sum), read_frame, n_at, sum_at) refl

  -- A frame is a head and a message.
  frame_parts :
      (cs : List ManifestChange)
      → length (k.marshal cs) < 2 ^ 32
      → frame k cs
        ≡ (be_bytes 4 (length (k.marshal cs)) ++ be_bytes 4 (k.checksum (k.marshal cs)))
          ++ k.marshal cs
  unfolding frame
  frame_parts cs h =
      let buf = k.marshal cs in
      let small : length buf % 2 ^ 32 ≡ length buf = omega arith in
      ap (λ n. (be_bytes 4 n ++ be_bytes 4 (k.checksum buf)) ++ buf) small

  read_body_whole :
      (size : ℕ) (build : Manifest) (cs : List ManifestChange) (rest : Bytes)
      → length (k.marshal cs) ≤ size % 2 ^ 32
      → read_body k size build
          (length (k.marshal cs))
          (k.checksum (k.marshal cs))
          (k.marshal cs ++ rest)
        ≡ applied_turn k (apply_change_set build cs) (8 + length (k.marshal cs)) rest
  unfolding read_body read_message
  read_body_whole size build cs rest h =
      let buf = k.marshal cs in
      let short : ltb (size % 2 ^ 32) (length buf) ≡ false = ground arith in
      rw
        (
          short,
          read_body,
          read_full_exact (length buf) buf rest refl,
          read_message,
          ==_refl (k.checksum buf),
          ok.unmarshal-marshal cs,
        )
        refl

  -- A frame that the file has in full is read, and its changes are applied.
  pub read_frame-frame :
      (size : ℕ) (build : Manifest) (cs : List ManifestChange) (rest : Bytes)
      → length (k.marshal cs) ≤ size
      → size < 2 ^ 32
      → read_frame k size build (frame k cs ++ rest)
        ≡ applied_turn k (apply_change_set build cs) (8 + length (k.marshal cs)) rest
  read_frame-frame size build cs rest h small =
      let buf = k.marshal cs in
      let head = be_bytes 4 (length buf) ++ be_bytes 4 (k.checksum buf) in
      ap (λ x. read_frame k size build (x ++ rest)) (frame_parts cs (omega arith))
      ∙ ap (read_frame k size build) (++_assoc head buf rest)
      ∙ read_frame_head size build (length buf) (k.checksum buf) (buf ++ rest) (omega arith)
          (ok.checksum_fits buf)
      ∙ read_body_whole size build cs rest (omega arith)

  -- The first `n` bytes of a frame, and not all of them: the loop stops, or finds the length of
  -- the message greater than the file.
  pub read_frame-torn :
      (size : ℕ) (build : Manifest) (cs : List ManifestChange) (n : ℕ)
      → n < length (frame k cs)
      → size < 2 ^ 32
      → length (k.marshal cs) < 2 ^ 32
      → read_frame k size build (take n (frame k cs)) ≡ (
          if not (ltb n 8) && ltb size (length (k.marshal cs))
          then fail (too_long (length (k.marshal cs)))
          else stop)
  unfolding read_frame read_body
  read_frame-torn size build cs n torn small fits =
      let buf = k.marshal cs in
      let head = be_bytes 4 (length buf) ++ be_bytes 4 (k.checksum buf) in
      let len = length-frame cs in
      elim (Bool-cases (ltb n 8)) [
        | inl short ↦
            let n_is = length-take n (frame k cs) (omega arith) in
            rw (read_full_short 8 (take n (frame k cs)) (ground (arith, n_is)), read_frame, short)
              refl
        | inr long ↦
            let eight = eight_bytes (length buf) (k.checksum buf) in
            let m = n - 8 in
            let at : n - length head ≡ m = ap (λ i. n - i) eight in
            let split : take n (frame k cs) ≡ head ++ take m buf =
              ap (take n) (frame_parts cs fits)
              ∙ take-append_far n head buf (ground (arith, eight))
              ∙ ap (λ i. head ++ take i buf) at in
            let m_is = length-take m buf (ground arith) in
            let short = read_full_short (length buf) (take m buf) (ground (arith, m_is)) in
            ap (read_frame k size build) split
            ∙ read_frame_head size build (length buf) (k.checksum buf) (take m buf) fits
                (ok.checksum_fits buf)
            ∙ rw (short, read_body, long) (ground arith)
      ]
