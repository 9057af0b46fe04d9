-- ===== src/Encoding/RoundTrip.antt =====
-- Decoding gives back what was encoded, with the count of the bytes it took.
use pri_zzl_badger.Base.{
  ℕ, suc, ◌+◌, ◌*◌, ◌/◌, ◌%◌, ◌^◌, ◌<◌, ◌≤◌, ◌≡◌, refl, ap, ◌∙◌, sym, some, [], ◌∷◌, ◌++◌, length,
  arith, length-append, drop-length,
}
use pri_zzl_badger.Base.Int.{ℤ, pos, ◌+ℤ◌}
use pri_zzl_badger.Bytes.{Bytes}
use pri_zzl_badger.Entry.{ValueStruct}
use pri_zzl_badger.Encoding.{
  put_uvarint, uvarint, slice_from, Header, header_encode, read_at, header_decode, encoded_size,
  value_encode, value_decode, ValuePointer, le_bytes, pointer_encode, pointer_decode,
}
use pri_zzl_badger.Encoding.Varint.{length-put_uvarint, put_uvarint_bound, uvarint-put_uvarint}

slice_from-append : (xs ys : Bytes) → slice_from (xs ++ ys) (pos (length xs)) ≡ some ys
unfolding slice_from
slice_from-append xs ys = ground (arith, length-append xs ys, drop-length xs ys)

++_assoc : (xs ys zs : Bytes) → (xs ++ ys) ++ zs ≡ xs ++ (ys ++ zs)
++_assoc [] ys zs = refl
++_assoc (x ∷ xs) ys zs = ap (λ t. x ∷ t) (++_assoc xs ys zs)

add_count : (m n : ℕ) → pos m +ℤ pos n ≡ pos (m + n)
unfolding ◌+ℤ◌
add_count m n = ground arith

-- A number after `front`, and the index after it.
read_at-put_uvarint :
    (front : Bytes) (v : ℕ) (rest : Bytes)
    → v < 2 ^ 64
    → read_at (front ++ (put_uvarint 9 v ++ rest)) (pos (length front))
      ≡ some (v, pos (length (front ++ put_uvarint 9 v)))
unfolding read_at
read_at-put_uvarint front v rest h =
    let at = slice_from-append front (put_uvarint 9 v ++ rest) in
    let read = uvarint-put_uvarint v rest h in
    let len : pos (length front) +ℤ pos (length (put_uvarint 9 v))
        ≡ pos (length (front ++ put_uvarint 9 v)) =
      add_count (length front) (length (put_uvarint 9 v))
      ∙ ap pos (sym (length-append front (put_uvarint 9 v))) in
    rw (at, read_at, read, len) refl

header_decode_reads :
    (m u : ℕ) (rest : Bytes) (klen vlen expires : ℕ) (i j k : ℤ)
    → read_at (m ∷ u ∷ rest) (pos 2) ≡ some (klen, i)
    → read_at (m ∷ u ∷ rest) i ≡ some (vlen, j)
    → read_at (m ∷ u ∷ rest) j ≡ some (expires, k)
    → klen < 2 ^ 32
    → vlen < 2 ^ 32
    → header_decode (m ∷ u ∷ rest)
      ≡ some (record { klen = klen; vlen = vlen; expires_at = expires; meta = m; user_meta = u }, k)
unfolding header_decode
header_decode_reads m u rest klen vlen expires i j k h1 h2 h3 hk hv =
    let small_k : klen % 2 ^ 32 ≡ klen = omega arith in
    let small_v : vlen % 2 ^ 32 ≡ vlen = omega arith in
    rw (h1, header_decode, h2, h3, small_k, small_v) refl

-- The header of an entry in the value log, of fields in their widths: it is decoded from the bytes
-- that Encode wrote, whatever follows them, and the count is that of those bytes.
pub header_decode-header_encode :
    (h : Header) (rest : Bytes)
    → h.klen < 2 ^ 32
    → h.vlen < 2 ^ 32
    → h.expires_at < 2 ^ 64
    → header_decode (header_encode h ++ rest) ≡ some (h, pos (length (header_encode h)))
unfolding header_encode
header_decode-header_encode h rest hk hv he =
    let k = put_uvarint 9 h.klen in
    let v = put_uvarint 9 h.vlen in
    let e = put_uvarint 9 h.expires_at in
    let front : Bytes = h.meta ∷ h.user_meta ∷ [] in
    let first = read_at-put_uvarint front h.klen (v ++ (e ++ rest)) (omega arith) in
    let second = read_at-put_uvarint (front ++ k) h.vlen (e ++ rest) (omega arith) in
    let third = read_at-put_uvarint ((front ++ k) ++ v) h.expires_at rest he in
    let one : (k ++ (v ++ e)) ++ rest ≡ k ++ (v ++ (e ++ rest)) =
      ++_assoc k (v ++ e) rest ∙ ap (λ t. k ++ t) (++_assoc v e rest) in
    let two : k ++ (v ++ (e ++ rest)) ≡ (k ++ v) ++ (e ++ rest) = sym (++_assoc k v (e ++ rest)) in
    let body = (k ++ (v ++ e)) ++ rest in
    let first_at = ap (λ t. read_at (h.meta ∷ h.user_meta ∷ t) (pos 2)) one ∙ first in
    let second_at =
      ap (λ t. read_at (h.meta ∷ h.user_meta ∷ t) (pos (length (front ++ k)))) one ∙ second in
    let third_at =
      ap (λ t. read_at (h.meta ∷ h.user_meta ∷ t) (pos (length ((front ++ k) ++ v)))) (one ∙ two)
      ∙ third in
    header_decode_reads h.meta h.user_meta body h.klen h.vlen h.expires_at _ _ _ first_at second_at
      third_at hk hv
    ∙ ap (λ t. some (h, pos (suc (suc (length t))))) (++_assoc k v e)

-- Encode writes at most maxHeaderSize bytes for fields in their widths.
pub header_encode_bound :
    (h : Header)
    → h.klen < 2 ^ 32
    → h.vlen < 2 ^ 32
    → h.expires_at < 2 ^ 64
    → length (header_encode h) ≤ 22
unfolding header_encode
header_encode_bound h hk hv he =
    let k = put_uvarint 9 h.klen in
    let v = put_uvarint 9 h.vlen in
    let e = put_uvarint 9 h.expires_at in
    omega (
      arith,
      length-append k (v ++ e),
      length-append v e,
      put_uvarint_bound 9 4 h.klen (omega arith),
      put_uvarint_bound 9 4 h.vlen (omega arith),
      put_uvarint_bound 9 9 h.expires_at (omega arith),
    )

value_decode_reads :
    (m u : ℕ) (rest : Bytes) (w : ValueStruct) (expires n : ℕ) (value : Bytes)
    → (uvarint rest).value ≡ expires
    → (uvarint rest).count ≡ pos n
    → slice_from (m ∷ u ∷ rest) (pos (suc (suc n))) ≡ some value
    → value_decode (m ∷ u ∷ rest) w
      ≡ some (record {
        meta = m;
        user_meta = u;
        expires_at = expires;
        value = value;
        version = w.version;
      })
unfolding value_decode
value_decode_reads m u rest w expires n value hv hc at =
    let index : pos 2 +ℤ (uvarint rest).count ≡ pos (suc (suc n)) =
      ap (λ c. pos 2 +ℤ c) hc ∙ add_count 2 n ∙ ap pos (omega arith) in
    rw (index, value_decode, at, hv) refl

-- A stored value is decoded to itself, with the version that the target had; and EncodedSize is
-- the count of the bytes that Encode writes, where that count fits a uint32.
pub value_decode-value_encode :
    (v w : ValueStruct)
    → v.expires_at < 2 ^ 64
    → (value_decode (value_encode v) w ≡ some (record v { version = w.version }))
      × (length (value_encode v) < 2 ^ 32 → encoded_size v ≡ length (value_encode v))
unfolding value_encode encoded_size
value_decode-value_encode v w h =
    let e = put_uvarint 9 v.expires_at in
    let read = uvarint-put_uvarint v.expires_at v.value h in
    let front : Bytes = v.meta ∷ v.user_meta ∷ e in
    let at = slice_from-append front v.value in
    (
      value_decode_reads v.meta v.user_meta (e ++ v.value) w v.expires_at (length e) v.value
          (ap (λ u. u.value) read) (ap (λ u. u.count) read) at,
      λ fits. omega (arith, length-append e v.value, length-put_uvarint 9 v.expires_at),
    )

-- A value pointer of fields in their widths is decoded from its memory, whatever follows.
pub pointer_decode-pointer_encode :
    (p : ValuePointer) (rest : Bytes)
    → p.fid < 2 ^ 32
    → p.len < 2 ^ 32
    → p.offset < 2 ^ 32
    → pointer_decode (pointer_encode p ++ rest) ≡ some p
unfolding pointer_decode pointer_encode le_bytes
pointer_decode-pointer_encode p rest hf hl ho =
    let f : p.fid % 256
          + p.fid / 256 % 256 * 256
          + p.fid / 65536 % 256 * 65536
          + p.fid / 16777216 % 256 * 16777216
        ≡ p.fid =
      omega arith in
    let l : p.len % 256
          + p.len / 256 % 256 * 256
          + p.len / 65536 % 256 * 65536
          + p.len / 16777216 % 256 * 16777216
        ≡ p.len =
      omega arith in
    let o : p.offset % 256
          + p.offset / 256 % 256 * 256
          + p.offset / 65536 % 256 * 65536
          + p.offset / 16777216 % 256 * 16777216
        ≡ p.offset =
      omega arith in
    λ i. some (record { fid = f i; len = l i; offset = o i })
