-- ===== src/Bytes/Order.antt =====
-- bytes.Compare is a total order, and bytes.Equal is its equality.
use Prim.Native.Nat.{Ordering, compare}
use pri_zzl_badger.Base.{ℕ, ◌≡◌, ◌≢◌, ◌⊎◌, inl, inr, refl, true, [], ◌∷◌, arith}
use pri_zzl_badger.Bytes.{Bytes, then_by, compare_bytes, equal_bytes}

abbrev pub flip : Ordering → Ordering
flip Ordering.lt = Ordering.gt
flip Ordering.eq = Ordering.eq
flip Ordering.gt = Ordering.lt

pub compare-flip : (a b : ℕ) → compare b a ≡ flip (compare a b)
compare-flip a b = ground arith

pub flip-then_by : (c d : Ordering) → flip (then_by c d) ≡ then_by (flip c) (flip d)
flip-then_by c d = ground arith

pub compare_bytes_refl : (a : Bytes) → compare_bytes a a ≡ Ordering.eq
unfolding compare_bytes
compare_bytes_refl [] = refl
compare_bytes_refl (x ∷ a) = ground (arith, compare_bytes_refl a)

pub compare_bytes-flip : (a b : Bytes) → compare_bytes b a ≡ flip (compare_bytes a b)
unfolding compare_bytes
compare_bytes-flip [] [] = refl
compare_bytes-flip [] (y ∷ b) = refl
compare_bytes-flip (x ∷ a) [] = refl
compare_bytes-flip (x ∷ a) (y ∷ b) = ground (arith, compare_bytes-flip a b, compare-flip x y)

pub eq_of_compare_bytes : (a b : Bytes) → compare_bytes a b ≡ Ordering.eq → a ≡ b
unfolding compare_bytes
eq_of_compare_bytes [] [] e = refl
eq_of_compare_bytes [] (y ∷ b) e = absurd (cc)
eq_of_compare_bytes (x ∷ a) [] e = absurd (cc)
eq_of_compare_bytes (x ∷ a) (y ∷ b) e = ground (arith, eq_of_compare_bytes a b)

-- `a ≤ b` in the order: the comparison is not `gt`.
abbrev pub NotAfter : Bytes → Bytes → Type 0
NotAfter a b = compare_bytes a b ≢ Ordering.gt

pub compare_bytes_trans :
    (a b c : Bytes)
    → compare_bytes a b ≢ Ordering.gt
    → compare_bytes b c ≢ Ordering.gt
    → compare_bytes a c ≢ Ordering.gt
unfolding compare_bytes
compare_bytes_trans [] b [] h k = λ e. cc
compare_bytes_trans [] b (z ∷ c) h k = λ e. cc
compare_bytes_trans (x ∷ a) [] c h k = absurd (h refl)
compare_bytes_trans (x ∷ a) (y ∷ b) [] h k = absurd (k refl)
compare_bytes_trans (x ∷ a) (y ∷ b) (z ∷ c) h k = ground (arith, compare_bytes_trans a b c)

pub equal_bytes_iff :
    (a b : Bytes) → (equal_bytes a b ≡ true → a ≡ b) × (a ≡ b → equal_bytes a b ≡ true)
unfolding equal_bytes
equal_bytes_iff [] [] = (λ e. refl, λ e. refl)
equal_bytes_iff [] (y ∷ b) = (λ e. absurd (cc), λ e. absurd (cc))
equal_bytes_iff (x ∷ a) [] = (λ e. absurd (cc), λ e. absurd (cc))
equal_bytes_iff (x ∷ a) (y ∷ b) =
    let (f, g) = equal_bytes_iff a b in (λ e. ground (arith, f), λ e. ground (arith, g))

pub Ordering-cases : (c : Ordering) → (c ≡ Ordering.lt) ⊎ ((c ≡ Ordering.eq) ⊎ (c ≡ Ordering.gt))
Ordering-cases Ordering.lt = inl refl
Ordering-cases Ordering.eq = inr (inl refl)
Ordering-cases Ordering.gt = inr (inr refl)
