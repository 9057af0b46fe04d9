-- ===== src/Bytes.antt =====
-- Byte slices: what the source takes from the packages bytes and encoding/binary.
pub mod Order
pub mod Endian
pub mod Dict
use Prim.Native.Nat.{Ordering, compare}
use pri_zzl_badger.Base.{
  ℕ, zero, suc, ◌+◌, ◌*◌, ◌/◌, ◌%◌, ◌<◌, Bool, true, false, ◌&&◌, List, [], ◌∷◌, ◌++◌, ◌==◌,
  if◌then◌else◌,
}

abbrev pub Bytes : Type 0
Bytes = List ℕ

abbrev pub IsByte : ℕ → Type 0
IsByte b = b < 256

-- The first comparison, and the second where the first finds no difference.
abbrev pub then_by : Ordering → Ordering → Ordering
then_by Ordering.lt c = Ordering.lt
then_by Ordering.eq c = c
then_by Ordering.gt c = Ordering.gt

-- bytes.Compare
unfoldable pub compare_bytes : Bytes → Bytes → Ordering
compare_bytes [] [] = Ordering.eq
compare_bytes [] (b ∷ bs) = Ordering.lt
compare_bytes (a ∷ xs) [] = Ordering.gt
compare_bytes (a ∷ xs) (b ∷ bs) = then_by (compare a b) (compare_bytes xs bs)

-- bytes.Equal
unfoldable pub equal_bytes : Bytes → Bytes → Bool
equal_bytes [] [] = true
equal_bytes [] (b ∷ bs) = false
equal_bytes (a ∷ xs) [] = false
equal_bytes (a ∷ xs) (b ∷ bs) = a == b && equal_bytes xs bs

-- bytes.HasPrefix
unfoldable pub has_prefix : Bytes → Bytes → Bool
has_prefix bs [] = true
has_prefix [] (p ∷ ps) = false
has_prefix (b ∷ bs) (p ∷ ps) = b == p && has_prefix bs ps

-- binary.BigEndian.PutUint64 and its like: the lowest `n` bytes of `x`, highest first.
unfoldable pub be_bytes : ℕ → ℕ → Bytes
be_bytes zero x = []
be_bytes (suc n) x = be_bytes n (x / 256) ++ (x % 256 ∷ [])

-- binary.BigEndian.Uint64 and its like, on all bytes of the slice.
unfoldable pub be_value : ℕ → Bytes → ℕ
be_value acc [] = acc
be_value acc (b ∷ bs) = be_value (acc * 256 + b) bs
