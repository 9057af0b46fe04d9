-- ===== src/Bloom.antt =====
-- y/bloom.go: the Bloom filter of a table. A filter is a list of bytes, the last one the number
-- of probes; hashes are uint32.
mod Bits
pub mod Members
pub mod Build
mod Examples
use Prim.Native.Nat.{bit_and, bit_or, bit_xor}
use pri_zzl_badger.Base.{
  ℕ, zero, suc, ◌+◌, ◌-◌, ◌*◌, ◌/◌, ◌%◌, ◌^◌, Bool, true, false, Option, none, some, List, [], ◌∷◌,
  ◌++◌, ltb, ◌==◌, if◌then◌else◌, length, get_or, set, replicate, not,
}
use pri_zzl_badger.Base.Int.{ℤ, pos, negsuc}
use pri_zzl_badger.Bytes.{Bytes}

abbrev pub Filter : Type 0
Filter = Bytes

-- `h>>17 | h<<15`
pub delta_of : ℕ → ℕ
delta_of h = bit_or (h / 2 ^ 17) (h * 2 ^ 15 % 2 ^ 32)

-- `f[bitPos/8]&(1<<(bitPos%8))` is not 0.
pub has_bit : Filter → ℕ → Bool
has_bit f bit_pos = not (bit_and (get_or f (bit_pos / 8) 0) (2 ^ (bit_pos % 8)) == 0)

-- `filter[bitPos/8] |= 1 << (bitPos % 8)`
pub set_bit : ℕ → Filter → Filter
set_bit bit_pos f = set f (bit_pos / 8) (bit_or (get_or f (bit_pos / 8) 0) (2 ^ (bit_pos % 8)))

-- The loop of MayContain, by the rounds left.
pub probe : ℕ → Filter → ℕ → ℕ → ℕ → Bool
probe zero f n_bits delta h = true
probe (suc rounds) f n_bits delta h =
    let rest = probe rounds f n_bits delta ((h + delta) % 2 ^ 32) in
    if has_bit f (h % n_bits) then rest else false

-- MayContain: `none` is the fault of `h % 0`, for a filter whose bits overflow a uint32 to 0.
pub may_contain : Filter → ℕ → Option Bool
may_contain f h =
    let k = get_or f (length f - 1) 0 in
    let n_bits = 8 * (length f - 1) % 2 ^ 32 in
    if ltb (length f) 2
    then some false
    else if ltb 30 k
    then some true
    else if k == 0
    then some true
    else if n_bits == 0
    then none
    else some (probe k f n_bits (delta_of h) h)

-- The inner loop of appendFilter, by the rounds left.
pub add_probes : ℕ → ℕ → ℕ → ℕ → Filter → Filter
add_probes zero n_bits delta h f = f
add_probes (suc rounds) n_bits delta h f =
    add_probes rounds n_bits delta ((h + delta) % 2 ^ 32) (set_bit (h % n_bits) f)

pub add_keys : ℕ → ℕ → List ℕ → Filter → Filter
add_keys k n_bits [] f = f
add_keys k n_bits (h ∷ hs) f = add_keys k n_bits hs (add_probes k n_bits (delta_of h) h f)

-- `extend`: the slice with `n` zero bytes behind it.
pub extend : Bytes → ℕ → Bytes
extend b n = b ++ replicate n 0

-- A negative `bitsPerKey` counts as 0.
abbrev pub bits_of : ℤ → ℕ
bits_of (pos n) = n
bits_of (negsuc n) = 0

-- The number of probes: `scaled` is `uint32(float64(bitsPerKey) * 0.69)`.
pub probes : ℕ → ℕ
probes scaled = let k : ℕ = if ltb scaled 1 then 1 else scaled in if ltb 30 k then 30 else k

pub num_bytes : ℕ → ℕ → ℕ
num_bytes num_keys bits =
    let n_bits : ℕ = if ltb (num_keys * bits) 64 then 64 else num_keys * bits in (n_bits + 7) / 8

-- appendFilter. `scale` is the floating-point product, rounded down, which is not modelled. The
-- trailer of `extend` is filled in place: what stands before it is left alone.
pub append_filter : (ℕ → ℕ) → Bytes → List ℕ → ℤ → Bytes
append_filter scale buf keys bits_per_key =
    let bits = bits_of bits_per_key in
    let k = probes (scale bits) in
    let n_bytes = num_bytes (length keys) bits in
    let filter = extend [] (n_bytes + 1) in
    buf ++ set (add_keys k (n_bytes * 8 % 2 ^ 32) keys filter) n_bytes (k % 256)

-- NewFilter
pub new_filter : (ℕ → ℕ) → List ℕ → ℤ → Filter
new_filter scale keys bits_per_key = append_filter scale [] keys bits_per_key

-- The rounds of Hash over whole words of four bytes, and over what is left.
hash_word : ℕ → ℕ → ℕ
hash_word h w = let h' = (h + w) % 2 ^ 32 * 0xc6a4a793 % 2 ^ 32 in bit_xor h' (h' / 2 ^ 16)

hash_last : ℕ → ℕ
hash_last h = let h' = h * 0xc6a4a793 % 2 ^ 32 in bit_xor h' (h' / 2 ^ 24)

hash_loop : ℕ → Bytes → ℕ
unfolding hash_word hash_last
hash_loop h (a ∷ b ∷ c ∷ d ∷ rest) =
    hash_loop (hash_word h (bit_or (bit_or (bit_or a (b * 2 ^ 8)) (c * 2 ^ 16)) (d * 2 ^ 24))) rest
hash_loop h (a ∷ b ∷ c ∷ []) =
    hash_last ((((h + c * 2 ^ 16) % 2 ^ 32 + b * 2 ^ 8) % 2 ^ 32 + a) % 2 ^ 32)
hash_loop h (a ∷ b ∷ []) = hash_last (((h + b * 2 ^ 8) % 2 ^ 32 + a) % 2 ^ 32)
hash_loop h (a ∷ []) = hash_last ((h + a) % 2 ^ 32)
hash_loop h [] = h

-- Hash
pub hash : Bytes → ℕ
unfolding hash_loop
hash b = hash_loop (bit_xor 0xbc9f1d34 (length b * 0xc6a4a793 % 2 ^ 32)) b

-- MayContainKey
pub may_contain_key : Filter → Bytes → Option Bool
may_contain_key f k = may_contain f (hash k)
