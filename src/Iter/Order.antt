-- ===== src/Iter/Order.antt =====
-- Pairs in the order of their keys, and what a reader sees of them.
use Prim.Native.Nat.{Ordering}
use pri_zzl_badger.Base.{
  ℕ, ◌≡◌, ◌≢◌, refl, ap, Option, none, some, List, [], ◌∷◌, ◌++◌, arith, All, Bool-cases, inl, inr,
}
use pri_zzl_badger.Bytes.{Bytes, compare_bytes}
use pri_zzl_badger.Bytes.Order.{compare_bytes-flip, eq_of_compare_bytes, equal_bytes_iff}
use pri_zzl_badger.Keys.{compare_keys, parse_key}
use pri_zzl_badger.Compaction.{is_lt}
use pri_zzl_badger.Iter.{KeyValue, seen, seek}

-- Every key comes before all later ones.
abbrev pub InKeyOrder : List KeyValue → Type 0
InKeyOrder [] = Unit {0}
InKeyOrder (x ∷ xs) = All (λ y. compare_keys x.key y.key ≡ Ordering.lt) xs × InKeyOrder xs

-- The first of two answers that is one.
abbrev pub first_of : Option KeyValue → Option KeyValue → Option KeyValue
first_of none b = b
first_of (some a) b = some a

pub first_of-none : (o : Option KeyValue) → first_of o none ≡ o
first_of-none none = refl
first_of-none (some x) = refl

pub seen-append :
    (k : Bytes) (ts : ℕ) (xs ys : List KeyValue)
    → seen k ts (xs ++ ys) ≡ first_of (seen k ts xs) (seen k ts ys)
unfolding seen
seen-append k ts [] ys = refl
seen-append k ts (x ∷ xs) ys = ground (arith, seen-append k ts xs ys)

-- A key whose user key differs from that of `s`, which it follows, is followed by no version of
-- the user key of `s`.
pub group_ends :
    (s y z : Bytes)
    → compare_keys s y ≡ Ordering.lt
    → parse_key y ≢ parse_key s
    → compare_keys y z ≡ Ordering.lt
    → parse_key z ≢ parse_key s
unfolding compare_keys
group_ends s y z sy ne yz e = ground (
  arith,
  ne,
  eq_of_compare_bytes (parse_key s) (parse_key y),
  compare_bytes-flip (parse_key s) (parse_key y),
  ap (compare_bytes (parse_key y)) e,
)

-- Nothing is seen where no key has the user key.
pub seen-absent :
    (k : Bytes) (ts : ℕ) (xs : List KeyValue)
    → All (λ x. parse_key x.key ≢ k) xs
    → seen k ts xs ≡ none
unfolding seen
seen-absent k ts [] a = refl
seen-absent k ts (x ∷ xs) a =
    ground (arith, a.0, equal_bytes_iff (parse_key x.key) k, seen-absent k ts xs a.1)

pub seek-InKeyOrder : (k : Bytes) (xs : List KeyValue) → InKeyOrder xs → InKeyOrder (seek k xs)
unfolding seek
seek-InKeyOrder k [] h = tt
seek-InKeyOrder k (x ∷ xs) h = elim (Bool-cases (is_lt (compare_keys x.key k))) [
  | inl t ↦ rw t (seek-InKeyOrder k xs h.1)
  | inr f ↦ rw f h
]
