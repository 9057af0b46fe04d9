-- ===== src/Bloom/Members.antt =====
-- A filter answers yes for every key that it was built from.
use Prim.Native.Nat.{bit_or}
use pri_zzl_badger.Base.{
  ℕ, zero, suc, ◌+◌, ◌*◌, ◌/◌, ◌%◌, ◌^◌, ◌≤◌, ◌<◌, ◌≡◌, ◌∙◌, refl, true, List, [], ◌∷◌, inl, inr,
  arith, length, get_or, set, replicate, All, elem, length-set, get_or-set, Bool-cases, ◌==◌,
}
use pri_zzl_badger.Bytes.{IsByte}
use pri_zzl_badger.Bloom.{Filter, delta_of, has_bit, set_bit, probe, add_probes, add_keys}
use pri_zzl_badger.Bloom.Bits.{test-set, test-keep, bit_or-byte}

-- The filter is made of bytes and has room for all bits.
pub record Fits (n_bits : ℕ) (f : Filter) : Type 0 where
  pub bytes : All IsByte f
  pub room : n_bits ≤ 8 * length f
  pub some_bits : 0 < n_bits

byte_at : (f : Filter) (i : ℕ) → All IsByte f → get_or f i 0 < 256
byte_at [] i b = omega arith
byte_at (x ∷ f) zero b = b.0
byte_at (x ∷ f) (suc i) b = byte_at f i b.1

All-set : (f : Filter) (i v : ℕ) → All IsByte f → v < 256 → All IsByte (set f i v)
All-set [] i v b h = tt
All-set (x ∷ f) zero v b h = (h, b.1)
All-set (x ∷ f) (suc i) v b h = (b.0, All-set f i v b.1 h)

pub All-zeroes : (n : ℕ) → All IsByte (replicate n 0)
All-zeroes zero = tt
All-zeroes (suc n) = (omega arith, All-zeroes n)

pub Fits-set_bit : (n_bits q : ℕ) (f : Filter) → Fits n_bits f → Fits n_bits (set_bit q f)
unfolding set_bit
Fits-set_bit n_bits q f t = record {
  bytes =
      All-set f (q / 8) _ t.bytes
        (bit_or-byte (get_or f (q / 8) 0) (q % 8) (byte_at f (q / 8) t.bytes) (omega arith));
  room = rw length-set t.room;
  some_bits = t.some_bits;
}

in_room : (n_bits h : ℕ) (f : Filter) → Fits n_bits f → h % n_bits / 8 < length f
in_room n_bits h f t = grind (arith, t.room, t.some_bits)

set_bit-has :
    (q : ℕ) (f : Filter) → All IsByte f → q / 8 < length f → has_bit (set_bit q f) q ≡ true
unfolding set_bit has_bit
set_bit-has q f b h = ground (
  arith,
  get_or-set f (q / 8) (q / 8) (bit_or (get_or f (q / 8) 0) (2 ^ (q % 8))) 0 h,
  test-set (get_or f (q / 8) 0) (q % 8) (byte_at f (q / 8) b) (omega arith),
)

set_bit-keeps :
    (q p : ℕ) (f : Filter)
    → All IsByte f
    → q / 8 < length f
    → has_bit f p ≡ true
    → has_bit (set_bit q f) p ≡ true
unfolding set_bit has_bit
set_bit-keeps q p f b h e = elim (Bool-cases (q / 8 == p / 8)) [
  | inl same ↦ ground (
    arith,
    get_or-set f (q / 8) (p / 8) (bit_or (get_or f (q / 8) 0) (2 ^ (q % 8))) 0 h,
    test-keep (get_or f (q / 8) 0) (q % 8) (p % 8) (byte_at f (q / 8) b) (omega arith)
        (omega arith),
  )
  | inr other ↦
      ground (arith, get_or-set f (q / 8) (p / 8) (bit_or (get_or f (q / 8) 0) (2 ^ (q % 8))) 0 h)
]

pub probe-keeps :
    (rounds n_bits delta h : ℕ) (f g : Filter)
    → 0 < n_bits
    → ((p : ℕ) → p < n_bits → has_bit f p ≡ true → has_bit g p ≡ true)
    → probe rounds f n_bits delta h ≡ true
    → probe rounds g n_bits delta h ≡ true
unfolding probe
probe-keeps zero n_bits delta h f g pos keep e = refl
probe-keeps (suc rounds) n_bits delta h f g pos keep e = ground (
  arith,
  keep (h % n_bits) (grind arith),
  probe-keeps rounds n_bits delta ((h + delta) % 2 ^ 32) f g pos keep,
)

pub Fits-add_probes :
    (rounds n_bits delta h : ℕ) (f : Filter)
    → Fits n_bits f
    → Fits n_bits (add_probes rounds n_bits delta h f)
unfolding add_probes
Fits-add_probes zero n_bits delta h f t = t
Fits-add_probes (suc rounds) n_bits delta h f t =
    Fits-add_probes rounds n_bits delta ((h + delta) % 2 ^ 32) (set_bit (h % n_bits) f)
      (Fits-set_bit n_bits (h % n_bits) f t)

add_probes-keeps :
    (rounds n_bits delta h p : ℕ) (f : Filter)
    → Fits n_bits f
    → has_bit f p ≡ true
    → has_bit (add_probes rounds n_bits delta h f) p ≡ true
unfolding add_probes
add_probes-keeps zero n_bits delta h p f t e = e
add_probes-keeps (suc rounds) n_bits delta h p f t e =
    add_probes-keeps rounds n_bits delta ((h + delta) % 2 ^ 32) p (set_bit (h % n_bits) f)
      (Fits-set_bit n_bits (h % n_bits) f t)
      (set_bit-keeps (h % n_bits) p f t.bytes (in_room n_bits h f t) e)

add_probes-probe :
    (rounds n_bits delta h : ℕ) (f : Filter)
    → Fits n_bits f
    → probe rounds (add_probes rounds n_bits delta h f) n_bits delta h ≡ true
unfolding add_probes probe
add_probes-probe zero n_bits delta h f t = refl
add_probes-probe (suc rounds) n_bits delta h f t =
    let g = set_bit (h % n_bits) f in
    let h' = (h + delta) % 2 ^ 32 in
    let u = Fits-set_bit n_bits (h % n_bits) f t in
    ground (
      arith,
      add_probes-keeps rounds n_bits delta h' (h % n_bits) g u
          (set_bit-has (h % n_bits) f t.bytes (in_room n_bits h f t)),
      add_probes-probe rounds n_bits delta h' g u,
    )

pub Fits-add_keys :
    (k n_bits : ℕ) (hs : List ℕ) (f : Filter) → Fits n_bits f → Fits n_bits (add_keys k n_bits hs f)
unfolding add_keys
Fits-add_keys k n_bits [] f t = t
Fits-add_keys k n_bits (x ∷ hs) f t =
    Fits-add_keys k n_bits hs (add_probes k n_bits (delta_of x) x f)
      (Fits-add_probes k n_bits (delta_of x) x f t)

length-add_probes :
    (rounds n_bits delta h : ℕ) (f : Filter)
    → length (add_probes rounds n_bits delta h f) ≡ length f
unfolding add_probes set_bit
length-add_probes zero n_bits delta h f = refl
length-add_probes (suc rounds) n_bits delta h f =
    length-add_probes rounds n_bits delta ((h + delta) % 2 ^ 32) (set_bit (h % n_bits) f)
    ∙ length-set f (h % n_bits / 8) _

pub length-add_keys :
    (k n_bits : ℕ) (hs : List ℕ) (f : Filter) → length (add_keys k n_bits hs f) ≡ length f
unfolding add_keys
length-add_keys k n_bits [] f = refl
length-add_keys k n_bits (x ∷ hs) f =
    length-add_keys k n_bits hs (add_probes k n_bits (delta_of x) x f)
    ∙ length-add_probes k n_bits (delta_of x) x f

add_keys-keeps :
    (k n_bits p : ℕ) (hs : List ℕ) (f : Filter)
    → Fits n_bits f
    → has_bit f p ≡ true
    → has_bit (add_keys k n_bits hs f) p ≡ true
unfolding add_keys
add_keys-keeps k n_bits p [] f t e = e
add_keys-keeps k n_bits p (x ∷ hs) f t e =
    add_keys-keeps k n_bits p hs (add_probes k n_bits (delta_of x) x f)
      (Fits-add_probes k n_bits (delta_of x) x f t)
      (add_probes-keeps k n_bits (delta_of x) x p f t e)

-- Every probe of a key that was added finds its bit.
pub add_keys-probe :
    (k n_bits h : ℕ) (hs : List ℕ) (f : Filter)
    → Fits n_bits f
    → elem h hs ≡ true
    → probe k (add_keys k n_bits hs f) n_bits (delta_of h) h ≡ true
unfolding add_keys
add_keys-probe k n_bits h [] f t e = cc
add_keys-probe k n_bits h (x ∷ hs) f t e =
    let g = add_probes k n_bits (delta_of x) x f in
    let u = Fits-add_probes k n_bits (delta_of x) x f t in
    elim (Bool-cases (h == x)) [
      | inl same ↦
          let q : h ≡ x = ground arith in
          rw q (
            probe-keeps k n_bits (delta_of x) x g _ t.some_bits
              (λ p lt has. add_keys-keeps k n_bits p hs g u has)
              (add_probes-probe k n_bits (delta_of x) x f t))
      | inr other ↦ add_keys-probe k n_bits h hs g u (rw other at e)
    ]
