-- ===== src/Watermark/Counts.antt =====
-- The counts of the watermark against the marks that were worked off: how many Begins and how many
-- Dones there were of an index.
use pri_zzl_badger.Base.{
  ℕ, suc, ◌+◌, ◌≤◌, ◌<◌, ◌≡◌, sym, subst, Bool, true, false, ◌⊎◌, List, [], ◌∷◌, inl, inr, arith,
  ◌==◌, if◌then◌else◌, NatMap, lookup, remove, lookup-remove, lookup-insert, elem, Bool-cases,
}
use pri_zzl_badger.Base.Int.{ℤ, pos, negsuc, suc_ℤ, pred_ℤ, is_positive}
use pri_zzl_badger.Watermark.{WaterMark, or_zero, advance, count, settle}
use pri_zzl_badger.Watermark.Heap.{Above, elem-heap_push, advance_head, advance-grows}
use pri_zzl_badger.Watermark.Progress.{IsValid}

-- The indices worked off, the last one first; `true` is a Done, and `false` a Begin.
abbrev pub Log : Type 0
Log = List (ℕ × Bool)

unfoldable pub begins : ℕ → Log → ℕ
begins j [] = 0
begins j ((i, done) ∷ log) =
    let rest = begins j log in if j == i then (if done then rest else suc rest) else rest

unfoldable pub dones : ℕ → Log → ℕ
dones j [] = 0
dones j ((i, done) ∷ log) =
    let rest = dones j log in if j == i then (if done then suc rest else rest) else rest

-- No Done was worked off before its Begin.
abbrev pub IsBracketed : Log → Type 0
IsBracketed [] = Unit {0}
IsBracketed ((i, done) ∷ log) =
    (if done then (dones i log < begins i log) else Unit {0}) × IsBracketed log

-- At least, and at most, so many more Begins than Dones.
abbrev pub AtLeast : ℤ → ℕ → ℕ → Type 0
AtLeast (pos n) b d = b ≤ n + d
AtLeast (negsuc n) b d = b + suc n ≤ d

abbrev pub AtMost : ℤ → ℕ → ℕ → Type 0
AtMost (pos n) b d = n + d ≤ b
AtMost (negsuc n) b d = d ≤ b + suc n

AtLeast-suc_ℤ : (z : ℤ) (b d : ℕ) → AtLeast z b d → AtLeast (suc_ℤ z) (suc b) d
AtLeast-suc_ℤ (pos n) b d h = omega arith
AtLeast-suc_ℤ (negsuc ℕ.zero) b d h = omega arith
AtLeast-suc_ℤ (negsuc (ℕ.suc n)) b d h = omega arith

AtLeast-pred_ℤ : (z : ℤ) (b d : ℕ) → AtLeast z b d → AtLeast (pred_ℤ z) b (suc d)
AtLeast-pred_ℤ (pos ℕ.zero) b d h = omega arith
AtLeast-pred_ℤ (pos (ℕ.suc n)) b d h = omega arith
AtLeast-pred_ℤ (negsuc n) b d h = omega arith

AtMost-suc_ℤ : (z : ℤ) (b d : ℕ) → AtMost z b d → AtMost (suc_ℤ z) (suc b) d
AtMost-suc_ℤ (pos n) b d h = omega arith
AtMost-suc_ℤ (negsuc ℕ.zero) b d h = omega arith
AtMost-suc_ℤ (negsuc (ℕ.suc n)) b d h = omega arith

AtMost-pred_ℤ : (z : ℤ) (b d : ℕ) → AtMost z b d → AtMost (pred_ℤ z) b (suc d)
AtMost-pred_ℤ (pos ℕ.zero) b d h = omega arith
AtMost-pred_ℤ (pos (ℕ.suc n)) b d h = omega arith
AtMost-pred_ℤ (negsuc n) b d h = omega arith

AtLeast-finished : (z : ℤ) (b d : ℕ) → is_positive z ≡ false → AtLeast z b d → b ≤ d
AtLeast-finished (pos ℕ.zero) b d e h = omega arith
AtLeast-finished (pos (ℕ.suc n)) b d e h = absurd (cc)
AtLeast-finished (negsuc n) b d e h = omega arith

pub is_positive-AtLeast : (z : ℤ) (b d : ℕ) → AtLeast z b d → d < b → is_positive z ≡ true
is_positive-AtLeast z b d h lt = elim (Bool-cases (is_positive z)) [
  | inl t ↦ t
  | inr f ↦ absurd (omega (arith, AtLeast-finished z b d f h))
]

pub AtMost-positive : (z : ℤ) (b d : ℕ) → AtMost z b d → is_positive z ≡ true → d < b
AtMost-positive (pos ℕ.zero) b d h e = absurd (cc)
AtMost-positive (pos (ℕ.suc n)) b d h e = omega arith
AtMost-positive (negsuc n) b d h e = absurd (cc)

-- What holds of all counts, and of 0 where it held of a count that is not positive, holds of all
-- counts after the loop over the heap.
advance-keeps :
    (Q : ℕ → ℤ → Type 0)
    → ((j : ℕ) (z : ℤ) → is_positive z ≡ false → Q j z → Q j (pos 0))
    → (until : ℕ) (pending : NatMap ℤ) (heap : List ℕ)
    → ((j : ℕ) → Q j (or_zero (lookup j pending)))
    → (j : ℕ) → Q j (or_zero (lookup j (advance until pending heap).pending))
unfolding advance
advance-keeps Q zero_ until pending [] all j = all j
advance-keeps Q zero_ until pending (min ∷ rest) all j =
    elim (Bool-cases (is_positive (or_zero (lookup min pending)))) [
      | inl busy ↦ rw busy (all j)
      | inr free ↦ rw free (
          advance-keeps Q zero_ min (remove min pending) rest
            (λ k. elim (Bool-cases (k == min)) [
              | inl same ↦
                  let here : k ≡ min = ground (arith, same) in
                  rw (lookup-remove min k pending, same)
                    (zero_ k (or_zero (lookup k pending))
                      (subst (λ q. is_positive (or_zero (lookup q pending)) ≡ false) (sym here)
                        free)
                      (all k))
              | inr other ↦ rw (lookup-remove min k pending, other) (all k)
            ])
            j)
    ]

-- No index is lost: what leaves the heap is at or below the mark.
advance-elem :
    (until j : ℕ) (pending : NatMap ℤ) (heap : List ℕ)
    → Above until heap
    → elem j heap ≡ true
    → (j ≤ (advance until pending heap).until) ⊎ (elem j (advance until pending heap).heap ≡ true)
unfolding advance
advance-elem until j pending [] a e = absurd (cc)
advance-elem until j pending (min ∷ rest) a e =
    elim (Bool-cases (is_positive (or_zero (lookup min pending)))) [
      | inl busy ↦ rw busy (inr e)
      | inr free ↦ rw free (elim (Bool-cases (j == min)) [
        | inl same ↦ inl (ground (arith, same, advance-grows min (remove min pending) rest a.1))
        | inr other ↦ advance-elem min j (remove min pending) rest a.1 (rw other at e)
      ])
    ]

pub IsBracketed-le : (log : Log) → IsBracketed log → (j : ℕ) → dones j log ≤ begins j log
unfolding begins dones
IsBracketed-le [] h j = omega arith
IsBracketed-le ((i, true) ∷ log) h j = ground (arith, IsBracketed-le log h.1 j, h.0)
IsBracketed-le ((i, false) ∷ log) h j = ground (arith, IsBracketed-le log h.1 j)

-- The counts and the heap, after the log.
pub record IsCounted (log : Log) (w : WaterMark) : Type 0 where
  pub at_least : (j : ℕ) → AtLeast (or_zero (lookup j w.pending)) (begins j log) (dones j log)
  pub at_most :
      IsBracketed log → (j : ℕ) → AtMost (or_zero (lookup j w.pending)) (begins j log) (dones j log)
  pub met : (j : ℕ) → 0 < begins j log → (j ≤ w.done_until) ⊎ (elem j w.heap ≡ true)
  pub head_open :
      (m : ℕ) (r : List ℕ) → w.heap ≡ m ∷ r → is_positive (or_zero (lookup m w.pending)) ≡ true

-- What a suc_ℤ and a pred_ℤ keep, of one more Begin and of one more Done, holds of all counts after
-- the new mark of an index.
count-keeps :
    (Q : ℤ → ℕ → ℕ → Type 0)
    → ((z : ℤ) (b d : ℕ) → Q z b d → Q (suc_ℤ z) (suc b) d)
    → ((z : ℤ) (b d : ℕ) → Q z b d → Q (pred_ℤ z) b (suc d))
    → (i : ℕ) (done : Bool) (log : Log) (w : WaterMark)
    → ((j : ℕ) → Q (or_zero (lookup j w.pending)) (begins j log) (dones j log))
    → (j : ℕ)
    → Q
        (or_zero (lookup j (count i done w).pending))
        (begins j ((i, done) ∷ log))
        (dones j ((i, done) ∷ log))
unfolding count begins dones
count-keeps Q up down i true log w all j = elim (Bool-cases (j == i)) [
  | inl same ↦
      let here : j ≡ i = ground (arith, same) in
      rw (lookup-insert i j (pred_ℤ (or_zero (lookup i w.pending))) w.pending, same)
        (down (or_zero (lookup i w.pending)) (begins j log) (dones j log)
          (subst (λ q. Q (or_zero (lookup q w.pending)) (begins j log) (dones j log)) here (all j)))
  | inr other ↦
      rw (lookup-insert i j (pred_ℤ (or_zero (lookup i w.pending))) w.pending, other) (all j)
]
count-keeps Q up down i false log w all j = elim (Bool-cases (j == i)) [
  | inl same ↦
      let here : j ≡ i = ground (arith, same) in
      rw (lookup-insert i j (suc_ℤ (or_zero (lookup i w.pending))) w.pending, same)
        (up (or_zero (lookup i w.pending)) (begins j log) (dones j log)
          (subst (λ q. Q (or_zero (lookup q w.pending)) (begins j log) (dones j log)) here (all j)))
  | inr other ↦
      rw (lookup-insert i j (suc_ℤ (or_zero (lookup i w.pending))) w.pending, other) (all j)
]

-- Every index begun is in the heap or passed, with the new one.
met-count :
    (i : ℕ) (done : Bool) (log : Log) (w : WaterMark)
    → IsValid w
    → IsCounted log w
    → (j : ℕ) → 0 < begins j ((i, done) ∷ log)
    → (j ≤ w.done_until) ⊎ (elem j (count i done w).heap ≡ true)
unfolding count begins
met-count i done log w v c j h = elim (Bool-cases (j == i)) [
  | inl same ↦ inr (ground (arith, same, elem-heap_push j i w.heap, v.tracked j))
  | inr other ↦ elim (c.met j (ground (arith, other, h))) [
    | inl low ↦ inl low
    | inr inside ↦ inr (ground (arith, inside, elem-heap_push j i w.heap))
  ]
]

-- A mark that is worked off joins the log.
pub settle-IsCounted :
    (i : ℕ) (done : Bool) (log : Log) (w : WaterMark)
    → IsValid w
    → IsValid (count i done w)
    → IsCounted log w
    → IsCounted ((i, done) ∷ log) (settle (count i done w))
unfolding settle count
settle-IsCounted i done log w v v' c =
    let u = count i done w in
    let log' : Log = (i, done) ∷ log in
    record {
      at_least =
          advance-keeps (λ j z. AtLeast z (begins j log') (dones j log'))
            (λ j z e h. omega (arith, AtLeast-finished z (begins j log') (dones j log') e h))
            u.done_until u.pending u.heap
            (count-keeps AtLeast AtLeast-suc_ℤ AtLeast-pred_ℤ i done log w c.at_least);
      at_most = λ b.
          advance-keeps (λ j z. AtMost z (begins j log') (dones j log'))
            (λ j z e h. omega (arith, IsBracketed-le log' b j)) u.done_until u.pending u.heap
            (count-keeps AtMost AtMost-suc_ℤ AtMost-pred_ℤ i done log w (c.at_most b.1));
      met = λ j h. elim (met-count i done log w v c j h) [
        | inl low ↦ inl (omega (arith, low, advance-grows u.done_until u.pending u.heap v'.above))
        | inr inside ↦ advance-elem u.done_until j u.pending u.heap v'.above inside
      ];
      head_open = λ m r e. advance_head u.done_until u.pending u.heap m r e;
    }
