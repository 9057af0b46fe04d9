-- ===== src/Base/Search.antt =====
-- sort.Search: the binary search for the first index at which a test holds.
use Prim.Native.Nat.{ℕ, zero, suc, ◌+◌, ◌/◌, ◌≤◌, ◌<◌}
use mathlib.Core.Path.{◌≡◌}
use mathlib.Core.Logic.{inl, inr}
use mathlib.Core.Bool.{Bool, true, false}
use native.Mathlib.Omega.{arith}
use package.pri_zzl_badger.Base.Tests.{ltb, if◌then◌else◌, Bool-cases}

-- The loop on the indices from `lo` to `hi`, by the rounds left.
unfoldable pub search_loop : ℕ → (ℕ → Bool) → ℕ → ℕ → ℕ
search_loop zero f lo hi = lo
search_loop (suc rounds) f lo hi =
    let mid = (lo + hi) / 2 in
    let upper = search_loop rounds f (suc mid) hi in
    let lower = search_loop rounds f lo mid in
    if ltb lo hi then (if f mid then lower else upper) else lo

unfoldable pub search : ℕ → (ℕ → Bool) → ℕ
search n f = search_loop n f 0 n

-- The test fails below the index, and holds from it on.
pub record Splits (n : ℕ) (f : ℕ → Bool) (r : ℕ) : Type 0 where
  pub below : (k : ℕ) → k < r → f k ≡ false
  pub from : (k : ℕ) → r ≤ k → k < n → f k ≡ true
  pub bound : r ≤ n

abbrev pub Rises : ℕ → (ℕ → Bool) → Type 0
Rises n f = (i k : ℕ) → i ≤ k → k < n → f i ≡ true → f k ≡ true

search_loop-Splits :
    (rounds : ℕ) (f : ℕ → Bool) (n lo hi : ℕ)
    → Rises n f
    → lo ≤ hi
    → hi ≤ n
    → hi ≤ lo + rounds
    → ((k : ℕ) → k < lo → f k ≡ false)
    → ((k : ℕ) → hi ≤ k → k < n → f k ≡ true)
    → Splits n f (search_loop rounds f lo hi)
unfolding search_loop
search_loop-Splits zero f n lo hi rises le top enough below from = record {
  below = below;
  from = λ k h. from k (omega arith);
  bound = omega arith;
}
search_loop-Splits (suc rounds) f n lo hi rises le top enough below from =
    let mid = (lo + hi) / 2 in
    elim (Bool-cases (ltb lo hi)) [
      | inr stop ↦
          rw stop
            (record { below = below; from = λ k h. from k (ground arith); bound = omega arith })
      | inl more ↦ elim (Bool-cases (f mid)) [
        | inl yes_mid ↦
            rw (more, yes_mid)
              (search_loop-Splits rounds f n lo mid rises (ground arith) (ground arith)
                (ground arith) below (λ k h lt. rises mid k h lt yes_mid))
        | inr no_mid ↦
            rw (more, no_mid)
              (search_loop-Splits rounds f n (suc mid) hi rises (ground arith) top (ground arith)
                (λ k h. elim (Bool-cases (f k)) [
                  | inl e ↦ absurd (ground (arith, rises k mid (omega arith) (ground arith) e))
                  | inr e ↦ e
                ])
                from)
      ]
    ]

pub search-Splits : (n : ℕ) (f : ℕ → Bool) → Rises n f → Splits n f (search n f)
unfolding search
search-Splits n f rises =
    search_loop-Splits n f n 0 n rises (omega arith) (omega arith) (omega arith)
      (λ k h. absurd (omega arith)) (λ k h lt. absurd (omega arith))
