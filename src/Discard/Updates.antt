-- ===== src/Discard/Updates.antt =====
-- What the operations do to the map from file ids to counts.
use pri_zzl_badger.Base.{
  subst, ℕ, zero, suc, ◌+◌, ◌%◌, ◌^◌, ◌<◌, ◌≤◌, ◌≡◌, refl, ap, sym, ◌∙◌, ◌&&◌, Option, none, some,
  List, [], ◌∷◌, ◌++◌, ◌==◌, if◌then◌else◌, ltb, length, lookup, IsMap, All, arith, inl, inr, ◌⊎◌,
  Bool-cases,
}
use pri_zzl_badger.Base.Int.{ℤ, pos, negsuc, pos_part}
use pri_zzl_badger.Discard.{
  fid_at, count_at, to_int64, sort_slots, slot_of, update_slot, add_slot, update, max_loop,
  max_discard,
}
use pri_zzl_badger.Discard.Slots.{
  Ascending, lookup-above, lookup-slot_of, lookup-set_at, set-Ascending, insert_slot-Ascending,
  lookup-insert_slot,
}

Ascending-IsMap : (ss : List (ℕ × ℕ)) → Ascending ss → IsMap ss
Ascending-IsMap [] h = tt
Ascending-IsMap ((k, v) ∷ ss) h = (lookup-above k ss h.0, Ascending-IsMap ss h.1)

lookup-append_one :
    (ss : List (ℕ × ℕ)) (k v j : ℕ)
    → lookup k ss ≡ none
    → lookup j (ss ++ ((k, v) ∷ [])) ≡ (if j == k then some v else lookup j ss)
unfolding lookup
lookup-append_one [] k v j new = refl
lookup-append_one (s ∷ ss) k v j new = ground (arith, lookup-append_one ss k v j)

append_one-IsMap :
    (ss : List (ℕ × ℕ)) (k v : ℕ) → IsMap ss → lookup k ss ≡ none → IsMap (ss ++ ((k, v) ∷ []))
unfolding lookup
append_one-IsMap [] k v h new = (refl, tt)
append_one-IsMap (s ∷ ss) k v h new =
    (ground (arith, lookup-append_one ss k v s.0, h.0), append_one-IsMap ss k v h.1 (ground arith))

-- Sorting slots of different files.
sort_slots-lookup :
    (ss : List (ℕ × ℕ))
    → IsMap ss
    → Ascending (sort_slots ss) × ((j : ℕ) → lookup j (sort_slots ss) ≡ lookup j ss)
unfolding sort_slots lookup
sort_slots-lookup [] h = (tt, λ j. refl)
sort_slots-lookup (s ∷ ss) h =
    let (sorted, same) = sort_slots-lookup ss h.1 in
    let new : lookup s.0 (sort_slots ss) ≡ none = same s.0 ∙ h.0 in
    (
      insert_slot-Ascending s (sort_slots ss) sorted new,
      λ j. ground (arith, lookup-insert_slot s (sort_slots ss) j new, same j),
    )

-- What Update means for the count of its file, where there may be none yet.
abbrev pub adjusted : Option ℕ → ℤ → Option ℕ
adjusted none (pos zero) = none
adjusted none (pos (suc n)) = some (suc n)
adjusted none (negsuc n) = none
adjusted (some c) (pos zero) = some c
adjusted (some c) (pos (suc n)) = some ((c + suc n) % 2 ^ 64)
adjusted (some c) (negsuc n) = some 0

abbrev pub or_0 : Option ℕ → ℕ
or_0 none = 0
or_0 (some c) = c

-- The result of one update, by what the map said of the file.
record Updated (slots : List (ℕ × ℕ)) (fid : ℕ) (discard : ℤ) (r : List (ℕ × ℕ) × ℤ) : Type 0 where
  sorted : Ascending r.0
  counts :
      (j : ℕ)
      → lookup j r.0 ≡ (if j == fid then adjusted (lookup fid slots) discard else lookup j slots)
  answer : r.1 ≡ to_int64 (or_0 (adjusted (lookup fid slots) discard))

update_slot-Updated :
    (slots : List (ℕ × ℕ)) (idx : ℕ) (discard : ℤ)
    → Ascending slots
    → idx < length slots
    → lookup (fid_at slots idx) slots ≡ some (count_at slots idx)
    → Updated slots (fid_at slots idx) discard (update_slot slots idx discard)
unfolding update_slot
update_slot-Updated slots idx (pos zero) h lt at = record {
  sorted = h;
  counts = λ j. ground (arith, at);
  answer = ground (arith, at);
}
update_slot-Updated slots idx (pos (suc n)) h lt at = record {
  sorted = set-Ascending slots idx _ h;
  counts = λ j. lookup-set_at slots idx _ j h lt ∙ ground (arith, at);
  answer = ap (λ o. to_int64 (or_0 (adjusted o (pos (suc n))))) (sym at);
}
update_slot-Updated slots idx (negsuc n) h lt at = record {
  sorted = set-Ascending slots idx 0 h;
  counts = λ j. lookup-set_at slots idx 0 j h lt ∙ ground (arith, at);
  answer = ap (λ o. to_int64 (or_0 (adjusted o (negsuc n)))) (sym at);
}

add_slot-Updated :
    (slots : List (ℕ × ℕ)) (fid : ℕ) (discard : ℤ)
    → Ascending slots
    → lookup fid slots ≡ none
    → pos_part discard < 2 ^ 63
    → Updated slots fid discard (add_slot slots fid discard)
unfolding add_slot
add_slot-Updated slots fid (pos zero) h new small = record {
  sorted = h;
  counts = λ j. ground (arith, new);
  answer = ground (arith, new);
}
add_slot-Updated slots fid (negsuc n) h new small = record {
  sorted = h;
  counts = λ j. ground (arith, new);
  answer = ground (arith, new);
}
add_slot-Updated slots fid (pos (suc n)) h new small =
    let (sorted, same) =
      sort_slots-lookup (slots ++ ((fid, suc n) ∷ []))
        (append_one-IsMap slots fid (suc n) (Ascending-IsMap slots h) new) in
    record {
      sorted = sorted;
      counts = λ j. ground (arith, same j, lookup-append_one slots fid (suc n) j new, new);
      answer = ground (arith, new);
    }

update-Updated :
    (slots : List (ℕ × ℕ)) (fid : ℕ) (discard : ℤ)
    → Ascending slots
    → pos_part discard < 2 ^ 63
    → Updated slots fid discard (update slots fid discard)
unfolding update
update-Updated slots fid discard h small =
    let idx = slot_of slots fid in
    let found = lookup-slot_of slots fid h in
    elim (Bool-cases (ltb idx (length slots) && fid_at slots idx == fid)) [
      | inl hit ↦
          let same : fid_at slots idx ≡ fid = ground arith in
          let at : lookup (fid_at slots idx) slots ≡ some (count_at slots idx) =
            ap (λ a. lookup a slots) same ∙ rw hit at found in
          rw hit (
            subst (λ a. Updated slots a discard (update_slot slots idx discard)) same
              (update_slot-Updated slots idx discard h (ground arith) at))
      | inr miss ↦ rw miss (add_slot-Updated slots fid discard h (rw miss at found) small)
    ]

-- Update of slots in the order of their file ids, by an int64: they stay in that order, and as a
-- map from file ids to counts they change at the given file alone. There a positive number is added
-- to the count, or begins one, a negative one sets the count to zero, and zero changes nothing; the
-- answer is the count after it.
pub update-lookup :
    (slots : List (ℕ × ℕ)) (fid : ℕ) (discard : ℤ)
    → Ascending slots
    → pos_part discard < 2 ^ 63
    → Ascending (update slots fid discard).0
      × ((j : ℕ)
          → lookup j (update slots fid discard).0
            ≡ (if j == fid then adjusted (lookup fid slots) discard else lookup j slots))
      × ((update slots fid discard).1 ≡ to_int64 (or_0 (adjusted (lookup fid slots) discard)))
update-lookup slots fid discard h small =
    let u = update-Updated slots fid discard h small in (u.sorted, u.counts, u.answer)

-- The best of some slots: it is a first best or one of them, and none has a greater count.
record Best (first : ℕ × ℕ) (ss : List (ℕ × ℕ)) (r : ℕ × ℕ) : Type 0 where
  above_first : first.1 ≤ r.1
  above_all : (j c : ℕ) → lookup j ss ≡ some c → c ≤ r.1
  from : (r ≡ first) ⊎ (lookup r.0 ss ≡ some r.1)
  fits : All (λ s. (s.0 < 2 ^ 32) × (s.1 < 2 ^ 63)) (first ∷ ss) → (r.0 < 2 ^ 32) × (r.1 < 2 ^ 63)

from_step :
    (first s r : ℕ × ℕ) (ss : List (ℕ × ℕ))
    → lookup s.0 ss ≡ none
    → (r ≡ (if ltb first.1 s.1 then s else first)) ⊎ (lookup r.0 ss ≡ some r.1)
    → (r ≡ first) ⊎ (lookup r.0 (s ∷ ss) ≡ some r.1)
unfolding lookup
from_step first s r ss new (inr at) = inr (ground (arith, at, new))
from_step first s r ss new (inl e) = elim (Bool-cases (ltb first.1 s.1)) [
  | inl greater ↦
      let same : r ≡ s = rw greater at e in
      inr (subst (λ x. lookup x.0 (s ∷ ss) ≡ some x.1) (sym same) (ground arith))
  | inr kept ↦ inl (rw kept at e)
]

max_loop-Best : (first : ℕ × ℕ) (ss : List (ℕ × ℕ)) → IsMap ss → Best first ss (max_loop first ss)
unfolding max_loop lookup
max_loop-Best first [] h = record {
  above_first = omega arith;
  above_all = λ j c e. cc;
  from = inl refl;
  fits = λ a. a.0;
}
max_loop-Best first (s ∷ ss) h =
    let b = max_loop-Best (if ltb first.1 s.1 then s else first) ss h.1 in
    record {
      above_first = ground (arith, b.above_first);
      above_all = λ j c e. ground (arith, b.above_first, b.above_all j c, e);
      from = from_step first s (max_loop (if ltb first.1 s.1 then s else first) ss) ss h.0 b.from;
      fits = λ a. b.fits (ground arith, a.1.1);
    }

-- MaxDiscard on slots in the order of their file ids, of uint32 ids and int64 counts: no file has a
-- greater count than the one that it answers, and where that is not zero, it is the count of the
-- file that it answers.
pub max_discard_lem :
    (slots : List (ℕ × ℕ))
    → Ascending slots
    → All (λ s. (s.0 < 2 ^ 32) × (s.1 < 2 ^ 63)) slots
    → (n : ℕ) × ((max_discard slots).1 ≡ pos n)
      × ((j c : ℕ) → lookup j slots ≡ some c → c ≤ n)
      × (0 < n → lookup (max_discard slots).0 slots ≡ some n)
unfolding max_discard
max_discard_lem slots h fits =
    let first : ℕ × ℕ = (0, 0) in
    let r = max_loop first slots in
    let b = max_loop-Best first slots (Ascending-IsMap slots h) in
    let small = b.fits ((omega arith, omega arith), fits) in
    let same : r.0 % 2 ^ 32 ≡ r.0 = omega (arith, small.0) in
    (
      r.1,
      ground (arith, small.1),
      b.above_all,
      λ some_count. elim b.from [
        | inl none_found ↦ absurd (omega (arith, ap (λ x. x.1) none_found))
        | inr at ↦ ap (λ x. lookup x slots) same ∙ at
      ],
    )
