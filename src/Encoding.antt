-- ===== src/Encoding.antt =====
-- structs.go, y/iterator.go: the encodings of value pointers, of the header of an entry in the
-- value log and of stored values, over the varints of encoding/binary.
pub mod Varint
pub mod RoundTrip
mod Examples
use pri_zzl_badger.Base.{
  ℕ, zero, suc, ◌+◌, ◌*◌, ◌/◌, ◌%◌, ◌^◌, Bool, true, false, ◌&&◌, ◌||◌, not, Option, none, some,
  List, [], ◌∷◌, ◌++◌, ◌==◌, if◌then◌else◌, ltb, length, take, drop,
}
use pri_zzl_badger.Base.Int.{ℤ, pos, negsuc, ◌+ℤ◌}
use pri_zzl_badger.Bytes.{Bytes}
use pri_zzl_badger.Entry.{ValueStruct}

-- binary.PutUvarint: `rounds` is 9 at a call, and at most 9 groups of seven bits are full.
pub put_uvarint : ℕ → ℕ → Bytes
put_uvarint zero x = x ∷ []
put_uvarint (suc rounds) x =
    let rest = put_uvarint rounds (x / 128) in if ltb x 128 then x ∷ [] else (x % 128 + 128) ∷ rest

-- binary.Uvarint: a value with the count of its bytes, no whole value, or too many bits, for which
-- the count is negative.
pub record Uvarint : Type 0 where
  pub value : ℕ
  pub count : ℤ

-- The loop at byte `i`; `scale` is `1 << s`.
pub uvarint_loop : ℕ → ℕ → ℕ → Bytes → Uvarint
uvarint_loop i x scale [] = record { value = 0; count = pos 0 }
uvarint_loop i x scale (b ∷ bs) =
    let rest = uvarint_loop (suc i) (x + b % 128 * scale) (scale * 128) bs in
    if i == 10
    then record { value = 0; count = negsuc i }
    else if not (ltb b 128)
    then rest
    else if i == 9 && ltb 1 b
    then record { value = 0; count = negsuc i }
    else record { value = x + b * scale; count = pos (suc i) }

pub uvarint : Bytes → Uvarint
uvarint bs = uvarint_loop 0 0 1 bs

-- `buf[index:]`: `none` is the fault of a bound out of range.
pub slice_from : Bytes → ℤ → Option Bytes
slice_from bs (pos n) = if ltb (length bs) n then none else some (drop n bs)
slice_from bs (negsuc n) = none

pub record Header : Type 0 where
  pub klen : ℕ
  pub vlen : ℕ
  pub expires_at : ℕ
  pub meta : ℕ
  pub user_meta : ℕ

-- header.Encode, with its length as the count.
pub header_encode : Header → Bytes
header_encode h =
    h.meta
    ∷ h.user_meta
    ∷ (put_uvarint 9 h.klen ++ (put_uvarint 9 h.vlen ++ put_uvarint 9 h.expires_at))

-- One number at the index, and the index after it.
pub read_at : Bytes → ℤ → Option (ℕ × ℤ)
read_at buf index = elim (slice_from buf index) [
  | none ↦ none
  | some rest ↦ some ((uvarint rest).value, index +ℤ (uvarint rest).count)
]

-- header.Decode: `none` is a fault of a slice bound or of an index.
pub header_decode : Bytes → Option (Header × ℤ)
header_decode [] = none
header_decode (m ∷ []) = none
header_decode (m ∷ u ∷ rest) =
    let buf = m ∷ u ∷ rest in
    elim (read_at buf (pos 2)) [
      | none ↦ none
      | some (klen, i) ↦ elim (read_at buf i) [
        | none ↦ none
        | some (vlen, j) ↦ elim (read_at buf j) [
          | none ↦ none
          | some (expires, k) ↦ some (
            record {
              klen = klen % 2 ^ 32;
              vlen = vlen % 2 ^ 32;
              expires_at = expires;
              meta = m;
              user_meta = u;
            },
            k,
          )
        ]
      ]
    ]

-- sizeVarint, by the rounds left: `n++; x >>= 7; if x == 0 { break }`.
pub size_varint : ℕ → ℕ → ℕ
size_varint zero x = 1
size_varint (suc rounds) x =
    let rest = size_varint rounds (x / 128) in if x / 128 == 0 then 1 else suc rest

-- ValueStruct.EncodedSize
pub encoded_size : ValueStruct → ℕ
encoded_size v = (length v.value + 2 + size_varint 9 v.expires_at) % 2 ^ 32

-- ValueStruct.Encode and EncodeTo, on a slice that is long enough.
pub value_encode : ValueStruct → Bytes
value_encode v = v.meta ∷ v.user_meta ∷ (put_uvarint 9 v.expires_at ++ v.value)

-- ValueStruct.Decode: the version is not stored and stays.
pub value_decode : Bytes → ValueStruct → Option ValueStruct
value_decode [] v = none
value_decode (m ∷ []) v = none
value_decode (m ∷ u ∷ rest) v = elim (slice_from (m ∷ u ∷ rest) (pos 2 +ℤ (uvarint rest).count)) [
  | none ↦ none
  | some value ↦ some (record {
    meta = m;
    user_meta = u;
    expires_at = (uvarint rest).value;
    value = value;
    version = v.version;
  })
]

pub record ValuePointer : Type 0 where
  pub fid : ℕ
  pub len : ℕ
  pub offset : ℕ

-- valuePointer.Less
pub pointer_less : ValuePointer → ValuePointer → Bool
pointer_less p o =
    if not (p.fid == o.fid)
    then ltb p.fid o.fid
    else if not (p.offset == o.offset)
    then ltb p.offset o.offset
    else ltb p.len o.len

-- valuePointer.IsZero
pub pointer_is_zero : ValuePointer → Bool
pointer_is_zero p = p.fid == 0 && p.offset == 0 && p.len == 0

-- Four bytes of a uint32 in memory, lowest first, and back.
pub le_bytes : ℕ → Bytes
le_bytes x = x % 256 ∷ x / 256 % 256 ∷ x / 65536 % 256 ∷ x / 16777216 % 256 ∷ []

-- valuePointer.Encode: the memory of the struct, on a little-endian machine.
pub pointer_encode : ValuePointer → Bytes
pointer_encode p = le_bytes p.fid ++ (le_bytes p.len ++ le_bytes p.offset)

abbrev le_value : ℕ → ℕ → ℕ → ℕ → ℕ
le_value a b c d = a + b * 256 + c * 65536 + d * 16777216

-- valuePointer.Decode: `none` is the fault of `b[:vptrSize]`.
pub pointer_decode : Bytes → Option ValuePointer
pointer_decode (a ∷ b ∷ c ∷ d ∷ e ∷ f ∷ g ∷ h ∷ i ∷ j ∷ k ∷ l ∷ rest) =
    some (record { fid = le_value a b c d; len = le_value e f g h; offset = le_value i j k l })
pointer_decode bs = none
