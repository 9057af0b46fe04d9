-- ===== src/Discard/Slots.antt =====
-- Slots in the order of their file ids, as a map from file ids to counts.
use pri_zzl_badger.Base.{
  ℕ, zero, suc, ◌<◌, ◌≤◌, ◌≡◌, ◌≢◌, refl, Bool, ◌&&◌, none, some, List, [], ◌∷◌, ◌==◌,
  if◌then◌else◌, ltb, leb, length, set, lookup, All, All-mono, arith, inl, inr, Bool-cases,
}
use pri_zzl_badger.Base.Search.{search, Splits, search-Splits}
use pri_zzl_badger.Discard.{fid_at, count_at, insert_slot, slot_of}

-- Strictly ascending file ids.
abbrev pub Ascending : List (ℕ × ℕ) → Type 0
Ascending [] = Unit
Ascending (s ∷ ss) = All (λ t. s.0 < t.0) ss × Ascending ss

All-at :
    (a : ℕ) (ss : List (ℕ × ℕ)) (i : ℕ) → All (λ t. a < t.0) ss → i < length ss → a < fid_at ss i
All-at a [] i h lt = absurd (omega arith)
All-at a (s ∷ ss) zero h lt = h.0
All-at a (s ∷ ss) (suc i) h lt = All-at a ss i h.1 (omega arith)

fid_at-Ascending :
    (ss : List (ℕ × ℕ)) (i j : ℕ) → Ascending ss → i ≤ j → j < length ss → fid_at ss i ≤ fid_at ss j
fid_at-Ascending [] i j h le lt = absurd (omega arith)
fid_at-Ascending (s ∷ ss) zero zero h le lt = omega arith
fid_at-Ascending (s ∷ ss) zero (suc j) h le lt = omega (arith, All-at s.0 ss j h.0 (omega arith))
fid_at-Ascending (s ∷ ss) (suc i) zero h le lt = absurd (omega arith)
fid_at-Ascending (s ∷ ss) (suc i) (suc j) h le lt =
    fid_at-Ascending ss i j h.1 (omega arith) (omega arith)

pub lookup-above : (a : ℕ) (ss : List (ℕ × ℕ)) → All (λ t. a < t.0) ss → lookup a ss ≡ none
unfolding lookup
lookup-above a [] h = refl
lookup-above a (s ∷ ss) h = ground (arith, lookup-above a ss h.1, h.0)

pub lookup-fid_at :
    (ss : List (ℕ × ℕ)) (i : ℕ)
    → Ascending ss
    → i < length ss
    → lookup (fid_at ss i) ss ≡ some (count_at ss i)
unfolding lookup
lookup-fid_at [] i h lt = absurd (omega arith)
lookup-fid_at (s ∷ ss) zero h lt = ground arith
lookup-fid_at (s ∷ ss) (suc i) h lt =
    ground (arith, lookup-fid_at ss i h.1 (omega arith), All-at s.0 ss i h.0 (omega arith))

lookup-missing :
    (a : ℕ) (ss : List (ℕ × ℕ)) → ((i : ℕ) → i < length ss → fid_at ss i ≢ a) → lookup a ss ≡ none
unfolding lookup
lookup-missing a [] h = refl
lookup-missing a (s ∷ ss) h =
    ground (arith, lookup-missing a ss (λ i lt. h (suc i) (omega arith)), h zero (omega arith))

-- The binary search finds the slot of a file id, if there is one.
pub lookup-slot_of :
    (ss : List (ℕ × ℕ)) (a : ℕ)
    → Ascending ss
    → lookup a ss ≡ (
        if ltb (slot_of ss a) (length ss) && fid_at ss (slot_of ss a) == a
        then some (count_at ss (slot_of ss a))
        else none)
unfolding slot_of
lookup-slot_of ss a h =
    let f : ℕ → Bool = λ i. leb a (fid_at ss i) in
    let r = search (length ss) f in
    let s : Splits (length ss) f r =
      search-Splits (length ss) f
        (λ i k le lt e. ground (arith, fid_at-Ascending ss i k h le lt)) in
    elim (Bool-cases (ltb r (length ss) && fid_at ss r == a)) [
      | inl found ↦ ground (arith, lookup-fid_at ss r h (ground arith))
      | inr missing ↦ rw missing (
          lookup-missing a ss (λ i lt.
            ground (arith, s.below i, s.from r (omega arith), s.bound, fid_at-Ascending ss r i h)))
    ]

pub lookup-set_at :
    (ss : List (ℕ × ℕ)) (i v j : ℕ)
    → Ascending ss
    → i < length ss
    → lookup j (set ss i (fid_at ss i, v)) ≡ (if j == fid_at ss i then some v else lookup j ss)
unfolding lookup
lookup-set_at [] i v j h lt = absurd (omega arith)
lookup-set_at (s ∷ ss) zero v j h lt = ground arith
lookup-set_at (s ∷ ss) (suc i) v j h lt =
    ground (arith, lookup-set_at ss i v j h.1 (omega arith), All-at s.0 ss i h.0 (omega arith))

set-above :
    (a : ℕ) (ss : List (ℕ × ℕ)) (i v : ℕ)
    → All (λ t. a < t.0) ss
    → All (λ t. a < t.0) (set ss i (fid_at ss i, v))
set-above a [] i v h = tt
set-above a (s ∷ ss) zero v h = (h.0, h.1)
set-above a (s ∷ ss) (suc i) v h = (h.0, set-above a ss i v h.1)

pub set-Ascending :
    (ss : List (ℕ × ℕ)) (i v : ℕ) → Ascending ss → Ascending (set ss i (fid_at ss i, v))
set-Ascending [] i v h = tt
set-Ascending (s ∷ ss) zero v h = (h.0, h.1)
set-Ascending (s ∷ ss) (suc i) v h = (set-above s.0 ss i v h.0, set-Ascending ss i v h.1)

-- A new file id, wherever sorting puts it.
insert_slot-above :
    (a : ℕ) (s : ℕ × ℕ) (ss : List (ℕ × ℕ))
    → a < s.0
    → All (λ t. a < t.0) ss
    → All (λ t. a < t.0) (insert_slot s ss)
unfolding insert_slot
insert_slot-above a s [] lt h = (lt, tt)
insert_slot-above a s (t ∷ ts) lt h = ground (arith, insert_slot-above a s ts lt h.1)

pub insert_slot-Ascending :
    (s : ℕ × ℕ) (ss : List (ℕ × ℕ))
    → Ascending ss
    → lookup s.0 ss ≡ none
    → Ascending (insert_slot s ss)
unfolding insert_slot lookup
insert_slot-Ascending s [] h new = (tt, tt)
insert_slot-Ascending s (t ∷ ts) h new = elim (Bool-cases (ltb t.0 s.0)) [
  | inl after ↦
      rw after (
        insert_slot-above t.0 s ts (ground arith) h.0,
        insert_slot-Ascending s ts h.1 (ground arith),
      )
  | inr before ↦
      let first : s.0 < t.0 = ground arith in
      rw before ((first, All-mono _ _ (λ u k. omega arith) ts h.0), h)
]

pub lookup-insert_slot :
    (s : ℕ × ℕ) (ss : List (ℕ × ℕ)) (j : ℕ)
    → lookup s.0 ss ≡ none
    → lookup j (insert_slot s ss) ≡ (if j == s.0 then some s.1 else lookup j ss)
unfolding insert_slot lookup
lookup-insert_slot s [] j new = ground arith
lookup-insert_slot s (t ∷ ts) j new = ground (arith, lookup-insert_slot s ts j)
