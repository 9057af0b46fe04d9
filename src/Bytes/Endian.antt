-- ===== src/Bytes/Endian.antt =====
-- Big-endian numbers: reading gives back what was written, and the byte order is the numbers'.
use Prim.Native.Nat.{compare}
use pri_zzl_badger.Base.{
  ℕ, zero, suc, ◌+◌, ◌*◌, ◌/◌, ◌%◌, ◌^◌, ◌<◌, ◌≡◌, ◌∙◌, refl, [], ◌∷◌, ◌++◌, arith, length,
  length-append, All, All-append,
}
use pri_zzl_badger.Bytes.{Bytes, IsByte, then_by, compare_bytes, be_bytes, be_value}

pub length-be_bytes : (n x : ℕ) → length (be_bytes n x) ≡ n
unfolding be_bytes
length-be_bytes zero x = refl
length-be_bytes (suc n) x =
    omega (arith, length-append (be_bytes n (x / 256)) (x % 256 ∷ []), length-be_bytes n (x / 256))

pub be_bytes-IsByte : (n x : ℕ) → All IsByte (be_bytes n x)
unfolding be_bytes
be_bytes-IsByte zero x = tt
be_bytes-IsByte (suc n) x =
    All-append IsByte (be_bytes n (x / 256)) (x % 256 ∷ []) (be_bytes-IsByte n (x / 256))
      (omega arith, tt)

be_value-append :
    (acc b : ℕ) (ys : Bytes) → be_value acc (ys ++ (b ∷ [])) ≡ be_value acc ys * 256 + b
unfolding be_value
be_value-append acc b [] = refl
be_value-append acc b (x ∷ ys) = be_value-append (acc * 256 + x) b ys

pub be_value-be_bytes : (n x : ℕ) → x < 256 ^ n → be_value 0 (be_bytes n x) ≡ x
unfolding be_bytes
be_value-be_bytes zero x h = unfold be_value in omega arith
be_value-be_bytes (suc n) x h = omega (
  arith,
  be_value-append 0 (x % 256) (be_bytes n (x / 256)),
  be_value-be_bytes n (x / 256) (omega arith),
)

-- Slices of one length compare by their heads first and their last bytes at the end.
compare_bytes-append :
    (xs ys : Bytes) (cs ds : Bytes)
    → length xs ≡ length ys
    → compare_bytes (xs ++ cs) (ys ++ ds) ≡ then_by (compare_bytes xs ys) (compare_bytes cs ds)
unfolding compare_bytes
compare_bytes-append [] [] cs ds h = refl
compare_bytes-append [] (b ∷ ys) cs ds h = absurd (omega arith)
compare_bytes-append (a ∷ xs) [] cs ds h = absurd (omega arith)
compare_bytes-append (a ∷ xs) (b ∷ ys) cs ds h =
    ground (arith, compare_bytes-append xs ys cs ds (omega arith))

compare_one : (x y : ℕ) → compare_bytes (x ∷ []) (y ∷ []) ≡ compare x y
unfolding compare_bytes
compare_one x y = ground arith

-- Digits compare as the numbers do.
then_by-digits :
    (x y : ℕ) → then_by (compare (x / 256) (y / 256)) (compare (x % 256) (y % 256)) ≡ compare x y
then_by-digits x y = ground arith

pub compare_bytes-be_bytes :
    (n x y : ℕ)
    → x < 256 ^ n
    → y < 256 ^ n
    → compare_bytes (be_bytes n x) (be_bytes n y) ≡ compare x y
unfolding be_bytes
compare_bytes-be_bytes zero x y h k = unfold compare_bytes in ground arith
compare_bytes-be_bytes (suc n) x y h k =
    compare_bytes-append _ _ (x % 256 ∷ []) (y % 256 ∷ [])
      (omega (arith, length-be_bytes n (x / 256), length-be_bytes n (y / 256)))
    ∙ rw (compare_bytes-be_bytes n (x / 256) (y / 256) (omega arith) (omega arith), compare_one)
        (then_by-digits x y)
