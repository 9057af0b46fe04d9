-- ===== src/Bloom/Build.antt =====
-- The filter that NewFilter returns answers yes for every key that it was built from.
use pri_zzl_badger.Base.{
  ℕ, ◌+◌, ◌*◌, ◌/◌, ◌%◌, ◌^◌, ◌≤◌, ◌<◌, ◌≡◌, ◌∙◌, true, some, List, [], arith, length, get_or, set,
  elem, length-set, length-replicate, get_or-set,
}
use pri_zzl_badger.Base.Int.{ℤ}
use pri_zzl_badger.Bloom.{
  Filter, delta_of, has_bit, may_contain, add_keys, extend, bits_of, probes, num_bytes,
  append_filter, new_filter,
}
use pri_zzl_badger.Bloom.Members.{Fits, All-zeroes, probe-keeps, add_keys-probe, length-add_keys}

get_or_last : (f : Filter) (i v : ℕ) → i < length f → get_or (set f i v) i 0 ≡ v
get_or_last f i v h = ground (arith, get_or-set f i i v 0 h)

has_bit-set_last :
    (f : Filter) (n v p : ℕ) → n < length f → p < n * 8 → has_bit (set f n v) p ≡ has_bit f p
unfolding has_bit
has_bit-set_last f n v p h lt = ground (arith, get_or-set f n (p / 8) v 0 h)

probes_bounds : (s : ℕ) → (1 ≤ probes s) × (probes s ≤ 30)
unfolding probes
probes_bounds s = ground arith

num_bytes_bound : (n bits : ℕ) → 8 ≤ num_bytes n bits
unfolding num_bytes
num_bytes_bound n bits = ground arith

-- The filter that append_filter writes into a fresh slice.
filled : ℕ → ℕ → List ℕ → Filter
filled k n hs = set (add_keys k (n * 8) hs (extend [] (n + 1))) n k

filled-may_contain :
    (k n h : ℕ) (hs : List ℕ)
    → 1 ≤ k
    → k ≤ 30
    → 8 ≤ n
    → n * 8 < 2 ^ 32
    → elem h hs ≡ true
    → may_contain (filled k n hs) h ≡ some true
unfolding filled may_contain
filled-may_contain k n h hs lo hi pos fits e =
    let z = extend [] (n + 1) in
    let g = add_keys k (n * 8) hs z in
    let len : length z ≡ n + 1 = unfold extend in length-replicate (n + 1) 0 in
    let t : Fits (n * 8) z = record {
      bytes = unfold extend in All-zeroes (n + 1);
      room = omega (arith, len);
      some_bits = omega arith;
    } in
    let len_g : length g ≡ n + 1 = length-add_keys k (n * 8) hs z ∙ len in
    let len_f : length (set g n k) ≡ n + 1 = length-set g n k ∙ len_g in
    let bits =
      probe-keeps k (n * 8) (delta_of h) h g (set g n k) (omega arith)
        (λ p lt has. has_bit-set_last g n k p (omega (arith, len_g)) lt ∙ has)
        (add_keys-probe k (n * 8) h hs z t e) in
    ground (arith, len_f, bits, get_or_last g n k (omega (arith, len_g)))

-- A filter never denies a key that it was built from, as long as its bits fit a uint32: with any
-- number of bits a key, and whatever the floating-point product for the number of probes.
pub new_filter-may_contain :
    (scale : ℕ → ℕ) (keys : List ℕ) (bits_per_key : ℤ) (h : ℕ)
    → elem h keys ≡ true
    → num_bytes (length keys) (bits_of bits_per_key) * 8 < 2 ^ 32
    → may_contain (new_filter scale keys bits_per_key) h ≡ some true
unfolding new_filter append_filter
new_filter-may_contain scale keys bits_per_key h e fits =
    let bits = bits_of bits_per_key in
    let k = probes (scale bits) in
    let n = num_bytes (length keys) bits in
    let b = probes_bounds (scale bits) in
    let same_k : k % 256 ≡ k = omega (arith, b.0, b.1) in
    let same_n : n * 8 % 2 ^ 32 ≡ n * 8 = omega (arith, fits) in
    rw (same_k, same_n)
      (unfold filled in
        filled-may_contain k n h keys b.0 b.1 (num_bytes_bound (length keys) bits) fits e)
