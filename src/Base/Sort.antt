-- ===== src/Base/Sort.antt =====
-- sort.Slice: an insertion sort by a test. The package's sort leaves the order of elements that
-- neither precede the other open; this one keeps it.
use mathlib.Core.Bool.{Bool, true, false}
use mathlib.Core.Path.{◌≡◌}
use mathlib.Core.Logic.{inl, inr}
use mathlib.Core.List.{List, [], ◌∷◌, Perm}
use mathlib.Core.List.Perm
use package.pri_zzl_badger.Base.Tests.{if◌then◌else◌, Bool-cases}
use package.pri_zzl_badger.Base.Lists.{All, All-mono}

module _ {ℓ} {A : Type ℓ} (less : A → A → Bool) where
  unfoldable pub insert_by : A → List A → List A
  insert_by x [] = x ∷ []
  insert_by x (y ∷ ys) = let rest = insert_by x ys in if less y x then y ∷ rest else x ∷ y ∷ ys

  unfoldable pub sort_by : List A → List A
  sort_by [] = []
  sort_by (x ∷ xs) = insert_by x (sort_by xs)

  -- No later element precedes an earlier one.
  abbrev pub InOrder : List A → Type 0
  InOrder [] = Unit {0}
  InOrder (x ∷ xs) = All (λ y. less y x ≡ false) xs × InOrder xs

  pub All-insert_by {κ} :
      (P : A → Type κ) (x : A) (ys : List A) → P x → All P ys → All P (insert_by x ys)
  unfolding insert_by
  All-insert_by P x [] h a = (h, tt)
  All-insert_by P x (y ∷ ys) h a = elim (Bool-cases (less y x)) [
    | inl after ↦ rw after (a.0, All-insert_by P x ys h a.1)
    | inr before ↦ rw before (h, a)
  ]

  pub All-sort_by {κ} : (P : A → Type κ) (xs : List A) → All P xs → All P (sort_by xs)
  unfolding sort_by
  All-sort_by P [] a = tt
  All-sort_by P (x ∷ xs) a = All-insert_by P x (sort_by xs) a.0 (All-sort_by P xs a.1)

  insert_by-InOrder :
      ((x y z : A) → less y x ≡ false → less z y ≡ false → less z x ≡ false)
      → ((x y : A) → less y x ≡ true → less x y ≡ false)
      → (x : A) (ys : List A) → InOrder ys
      → InOrder (insert_by x ys)
  unfolding insert_by
  insert_by-InOrder trans asym x [] h = (tt, tt)
  insert_by-InOrder trans asym x (y ∷ ys) h = elim (Bool-cases (less y x)) [
    | inl after ↦ rw after (
      All-insert_by (λ z. less z y ≡ false) x ys (asym x y after) h.0,
      insert_by-InOrder trans asym x ys h.1,
    )
    | inr before ↦
        rw before ((before, All-mono _ _ (λ z later. trans x y z before later) ys h.0), h)
  ]

  pub sort_by-InOrder :
      ((x y z : A) → less y x ≡ false → less z y ≡ false → less z x ≡ false)
      → ((x y : A) → less y x ≡ true → less x y ≡ false)
      → (xs : List A) → InOrder (sort_by xs)
  unfolding sort_by
  sort_by-InOrder trans asym [] = tt
  sort_by-InOrder trans asym (x ∷ xs) =
      insert_by-InOrder trans asym x (sort_by xs) (sort_by-InOrder trans asym xs)

  insert_by-perm : (x : A) (ys : List A) → Perm (insert_by x ys) (x ∷ ys)
  unfolding insert_by
  insert_by-perm x [] = Perm.rfl
  insert_by-perm x (y ∷ ys) = elim (Bool-cases (less y x)) [
    | inl after ↦ rw after (Perm.trans (Perm.cons y (insert_by-perm x ys)) (Perm.swap x y ys))
    | inr before ↦ rw before Perm.rfl
  ]

  pub sort_by-perm : (xs : List A) → Perm (sort_by xs) xs
  unfolding sort_by
  sort_by-perm [] = Perm.rfl
  sort_by-perm (x ∷ xs) = Perm.trans (insert_by-perm x (sort_by xs)) (Perm.cons x (sort_by-perm xs))
