-- ===== src/Encoding/Varint.antt =====
-- Varints: reading gives back what was written, and the size is the count of its bytes.
use pri_zzl_badger.Base.{
  ℕ, zero, suc, ◌+◌, ◌*◌, ◌/◌, ◌%◌, ◌^◌, ◌<◌, ◌≤◌, ◌≡◌, refl, ap, ◌∙◌, ◌++◌, ltb, length, arith,
  inl, inr, Bool-cases,
}
use pri_zzl_badger.Base.Int.{pos}
use pri_zzl_badger.Bytes.{Bytes}
use pri_zzl_badger.Encoding.{put_uvarint, uvarint_loop, uvarint, size_varint}

digits_at : (q r s : ℕ) → r * s + q * (s * 128) ≡ (q * 128 + r) * s
digits_at q r s = grind arith

digits_of : (v s : ℕ) → v % 128 * s + v / 128 * (s * 128) ≡ v * s
digits_of v s = digits_at (v / 128) (v % 128) s ∙ ap (λ x. x * s) (omega arith)

pub length-put_uvarint : (r v : ℕ) → length (put_uvarint r v) ≡ size_varint r v
unfolding put_uvarint size_varint
length-put_uvarint zero v = refl
length-put_uvarint (suc r) v = ground (arith, length-put_uvarint r (v / 128))

-- A number of n + 1 groups of seven bits takes at most as many bytes.
pub put_uvarint_bound : (r n v : ℕ) → v < 128 ^ suc n → length (put_uvarint r v) ≤ suc n
unfolding put_uvarint
put_uvarint_bound zero n v h = omega arith
put_uvarint_bound (suc r) zero v h = ground arith
put_uvarint_bound (suc r) (suc n) v h =
    let rest = put_uvarint_bound r n (v / 128) (omega arith) in ground (arith, rest)

uvarint_loop-put_uvarint :
    (r i x scale v : ℕ) (rest : Bytes)
    → i + r ≡ 9
    → v < 128 ^ r * 2
    → uvarint_loop i x scale (put_uvarint r v ++ rest)
      ≡ record { value = x + v * scale; count = pos (i + length (put_uvarint r v)) }
unfolding put_uvarint uvarint_loop
uvarint_loop-put_uvarint zero i x scale v rest h lt = ground arith
uvarint_loop-put_uvarint (suc r) i x scale v rest h lt = elim (Bool-cases (ltb v 128)) [
  | inl one ↦ ground arith
  | inr more ↦
      let next =
        uvarint_loop-put_uvarint r (suc i) (x + (v % 128 + 128) % 128 * scale) (scale * 128)
          (v / 128) rest (omega arith) (omega arith) in
      ground (arith, next, digits_of v scale)
]

pub uvarint-put_uvarint :
    (v : ℕ) (rest : Bytes)
    → v < 2 ^ 64
    → uvarint (put_uvarint 9 v ++ rest)
      ≡ record { value = v; count = pos (length (put_uvarint 9 v)) }
unfolding uvarint
uvarint-put_uvarint v rest h =
    let value : 0 + v * 1 ≡ v = omega arith in
    let count : 0 + length (put_uvarint 9 v) ≡ length (put_uvarint 9 v) = omega arith in
    uvarint_loop-put_uvarint 9 0 0 1 v rest refl (omega arith)
    ∙ (λ i. record { value = value i; count = pos (count i) })
