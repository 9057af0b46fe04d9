-- ===== src/Watermark/Heap.antt =====
-- The heap and the counts of `process`: how one mark moves them.
use pri_zzl_badger.Base.{
  ℕ, ◌≤◌, ◌≡◌, refl, true, ◌||◌, List, [], ◌∷◌, inl, inr, arith, ◌==◌, NatMap, lookup, remove,
  is_some, lookup-remove, elem, Bool-cases,
}
use pri_zzl_badger.Base.Int.{ℤ, is_positive}
use pri_zzl_badger.Watermark.{heap_push, or_zero, Advance, advance}

-- Ascending, and nowhere below `lo`.
abbrev pub Above : ℕ → List ℕ → Type 0
Above lo [] = Unit
Above lo (x ∷ xs) = (lo ≤ x) × Above x xs

-- Every key of the counts is in the heap.
abbrev pub Tracked : NatMap ℤ → List ℕ → Type 0
Tracked pending heap = (j : ℕ) → is_some (lookup j pending) ≡ true → elem j heap ≡ true

pub Above-weaken : (lo hi : ℕ) (xs : List ℕ) → lo ≤ hi → Above hi xs → Above lo xs
Above-weaken lo hi [] h a = tt
Above-weaken lo hi (x ∷ xs) h a = (omega arith, a.1)

pub le_of_elem : (lo j : ℕ) (xs : List ℕ) → Above lo xs → elem j xs ≡ true → lo ≤ j
le_of_elem lo j [] a e = cc
le_of_elem lo j (x ∷ xs) a e = ground (arith, le_of_elem x j xs)

pub Above-heap_push : (lo x : ℕ) (xs : List ℕ) → lo ≤ x → Above lo xs → Above lo (heap_push x xs)
unfolding heap_push
Above-heap_push lo x [] h a = (h, tt)
Above-heap_push lo x (y ∷ ys) h a = ground (arith, Above-heap_push y x ys)

pub elem-heap_push : (j x : ℕ) (xs : List ℕ) → elem j (heap_push x xs) ≡ (j == x || elem j xs)
unfolding heap_push
elem-heap_push j x [] = refl
elem-heap_push j x (y ∷ ys) = ground (arith, elem-heap_push j x ys)

pub Tracked-pop :
    (min : ℕ) (pending : NatMap ℤ) (rest : List ℕ)
    → Tracked pending (min ∷ rest)
    → Tracked (remove min pending) rest
Tracked-pop min pending rest t j = ground (arith, t j, lookup-remove min j pending)

-- What the loop over the heap leaves.
pub record Advanced (until : ℕ) (a : Advance) : Type 0 where
  pub grows : until ≤ a.until
  pub above : Above a.until a.heap
  pub tracked : Tracked a.pending a.heap

pub advance-Advanced :
    (until : ℕ) (pending : NatMap ℤ) (heap : List ℕ)
    → Above until heap
    → Tracked pending heap
    → Advanced until (advance until pending heap)
unfolding advance
advance-Advanced until pending [] a t = record { grows = omega arith; above = tt; tracked = t }
advance-Advanced until pending (min ∷ rest) a t =
    let ih = advance-Advanced min (remove min pending) rest a.1 (Tracked-pop min pending rest t) in
    elim (Bool-cases (is_positive (or_zero (lookup min pending)))) [
      | inl busy ↦ rw busy (record { grows = omega arith; above = a; tracked = t })
      | inr free ↦
          rw free (record {
            grows = omega (arith, ih.grows, a.0);
            above = ih.above;
            tracked = ih.tracked;
          })
    ]

-- The loop stops only at an index that is still open.
pub advance_head :
    (until : ℕ) (pending : NatMap ℤ) (heap : List ℕ) (m : ℕ) (r : List ℕ)
    → (advance until pending heap).heap ≡ m ∷ r
    → is_positive (or_zero (lookup m (advance until pending heap).pending)) ≡ true
unfolding advance
advance_head until pending [] m r e = cc
advance_head until pending (min ∷ rest) m r e =
    ground (arith, advance_head min (remove min pending) rest m r)

pub advance-grows :
    (until : ℕ) (pending : NatMap ℤ) (heap : List ℕ)
    → Above until heap
    → until ≤ (advance until pending heap).until
unfolding advance
advance-grows until pending [] a = omega arith
advance-grows until pending (min ∷ rest) a =
    ground (arith, advance-grows min (remove min pending) rest)
