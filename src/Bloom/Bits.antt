-- ===== src/Bloom/Bits.antt =====
-- Setting and testing one bit of a byte, as tables over all bytes and positions.
use Prim.Native.Nat.{bit_and, bit_or}
use pri_zzl_badger.Base.{
  ℕ, zero, suc, ◌^◌, ◌<◌, ◌≡◌, refl, Bool, true, ◌&&◌, ◌||◌, not, arith, ltb, ◌==◌, ltb→lt,
}

-- A test that every number below a bound passes.
passes : (ℕ → Bool) → ℕ → Bool
passes p zero = true
passes p (suc top) = passes p top && p top

passes-at : (p : ℕ → Bool) (top x : ℕ) → passes p top ≡ true → x < top → p x ≡ true
unfolding passes
passes-at p zero x e h = absurd (omega arith)
passes-at p (suc top) x e h = ground (arith, passes-at p top x)

-- `b & (1 << i)` is not 0.
abbrev pub test : ℕ → ℕ → Bool
test b i = not (bit_and b (2 ^ i) == 0)

set_table : passes (λ b. passes (λ i. test (bit_or b (2 ^ i)) i) 8) 256 ≡ true
unfolding passes
set_table = refl

keep_table :
    passes (λ b. passes (λ i. passes (λ j. not (test b j) || test (bit_or b (2 ^ i)) j) 8) 8) 256
    ≡ true
unfolding passes
keep_table = refl

byte_table : passes (λ b. passes (λ i. ltb (bit_or b (2 ^ i)) 256) 8) 256 ≡ true
unfolding passes
byte_table = refl

pub test-set : (b i : ℕ) → b < 256 → i < 8 → test (bit_or b (2 ^ i)) i ≡ true
test-set b i hb hi = passes-at _ 8 i (passes-at _ 256 b set_table hb) hi

pub test-keep :
    (b i j : ℕ) → b < 256 → i < 8 → j < 8 → test b j ≡ true → test (bit_or b (2 ^ i)) j ≡ true
test-keep b i j hb hi hj e =
    let t = passes-at _ 8 j (passes-at _ 8 i (passes-at _ 256 b keep_table hb) hi) hj in
    ground (arith, t)

pub bit_or-byte : (b i : ℕ) → b < 256 → i < 8 → bit_or b (2 ^ i) < 256
bit_or-byte b i hb hi = ltb→lt _ _ (passes-at _ 8 i (passes-at _ 256 b byte_table hb) hi)
