-- ===== src/Encoding/Examples.antt =====
-- The encodings of small records.
use pri_zzl_badger.Base.{◌≡◌, ◌≤◌, ◌<◌, ◌^◌, refl, some, [], ◌∷◌, ◌++◌, arith, length}
use pri_zzl_badger.Base.Int.{pos}
use pri_zzl_badger.Entry.{ValueStruct}
use pri_zzl_badger.Encoding.{
  Header, header_encode, header_decode, value_encode, value_decode, encoded_size, ValuePointer,
  put_uvarint,
}
use pri_zzl_badger.Encoding.RoundTrip.{
  header_decode-header_encode, header_encode_bound, value_decode-value_encode,
}

abbrev header : Header
header = record { klen = 300; vlen = 5; expires_at = 1000000; meta = 64; user_meta = 1 }

header_bytes : header_encode header ≡ 64 ∷ 1 ∷ 172 ∷ 2 ∷ 5 ∷ 192 ∷ 132 ∷ 61 ∷ []
unfolding header_encode put_uvarint
header_bytes = refl

header_decode-header_encode_example :
    header_decode (header_encode header ++ (7 ∷ []))
    ≡ some (header, pos (length (header_encode header)))
header_decode-header_encode_example =
    header_decode-header_encode header (7 ∷ []) (omega arith) (omega arith) (omega arith)

header_encode_bound_example : length (header_encode header) ≤ 22
header_encode_bound_example = header_encode_bound header (omega arith) (omega arith) (omega arith)

abbrev stored : ValueStruct
stored = record { meta = 0; user_meta = 2; expires_at = 200; value = 9 ∷ 8 ∷ []; version = 4 }

abbrev target : ValueStruct
target = record stored { value = []; version = 11 }

value_decode-value_encode_example :
    (value_decode (value_encode stored) target ≡ some (record stored { version = 11 }))
    × (length (value_encode stored) < 2 ^ 32 → encoded_size stored ≡ length (value_encode stored))
value_decode-value_encode_example = value_decode-value_encode stored target (omega arith)

abbrev pointer : ValuePointer
pointer = record { fid = 3; len = 70000; offset = 4294967295 }
