-- ===== src/Merge/Fix.antt =====
-- What fix does to the two nodes of a merge iterator that goes forward.
use pri_zzl_badger.Base.{
  ◌≡◌, refl, sym, ap, subst, Bool, true, false, List, [], ◌∷◌, arith, Bool-cases, inl, inr,
}
use Prim.Native.Nat.{Ordering}
use pri_zzl_badger.Keys.{compare_keys}
use pri_zzl_badger.Keys.Order.{compare_keys-flip}
use pri_zzl_badger.Iter.{KeyValue}
use pri_zzl_badger.Merge.{Node, MergeIterator, fix, next_node, rest_of, set_key}

-- The node has these pairs before it, and knows the first one.
abbrev pub Holds : Node → List KeyValue → Type 0
Holds n [] = (n.iter ≡ []) × (n.valid ≡ false)
Holds n (x ∷ xs) = (n.iter ≡ x ∷ xs) × (n.valid ≡ true) × (n.key ≡ x.key)

abbrev pub Running : MergeIterator → List KeyValue → List KeyValue → Type 0
Running mi l r = (mi.reverse ≡ false) × Holds mi.left l × Holds mi.right r

pub set_key-Holds : (n : Node) (xs : List KeyValue) → Holds (set_key (record n { iter = xs })) xs
unfolding set_key
set_key-Holds n [] = (refl, refl)
set_key-Holds n (x ∷ xs) = (refl, refl, refl)

pub next_node-Holds :
    (n : Node) (x : KeyValue) (xs : List KeyValue) → Holds n (x ∷ xs) → Holds (next_node n) xs
unfolding next_node
next_node-Holds n x xs h =
    subst (λ q. Holds (set_key (record n { iter = rest_of q })) xs) (sym h.0) (set_key-Holds n xs)

abbrev pub to_left : MergeIterator → MergeIterator
to_left mi = record mi { small_is_left = true }

abbrev pub to_right : MergeIterator → MergeIterator
to_right mi = record mi { small_is_left = false }

already :
    (mi : MergeIterator) (b : Bool) → mi.small_is_left ≡ b → record mi { small_is_left = b } ≡ mi
already mi b e = ap (λ c. record mi { small_is_left = c }) (sym e)

-- What fix does, of two nodes that go forward.
module _ (mi : MergeIterator) (rev : mi.reverse ≡ false) where
  pub no_bigger_right : mi.right.valid ≡ false → mi.left.valid ≡ true → fix mi ≡ to_left mi
  unfolding fix
  no_bigger_right r l = elim (Bool-cases mi.small_is_left) [
    | inl t ↦ ground (arith, t, r, already mi true t)
    | inr f ↦ ground (arith, f, l, r)
  ]

  pub no_bigger_left : mi.left.valid ≡ false → mi.right.valid ≡ true → fix mi ≡ to_right mi
  unfolding fix
  no_bigger_left l r = elim (Bool-cases mi.small_is_left) [
    | inl t ↦ ground (arith, t, l, r)
    | inr f ↦ ground (arith, f, l, already mi false f)
  ]

  pub none_left : mi.left.valid ≡ false → mi.right.valid ≡ false → fix mi ≡ mi
  unfolding fix
  none_left l r = elim (Bool-cases mi.small_is_left) [
    | inl t ↦ ground (arith, t, r)
    | inr f ↦ ground (arith, f, l)
  ]

  module _ (l : mi.left.valid ≡ true) (r : mi.right.valid ≡ true) where
    pub fix_left : compare_keys mi.left.key mi.right.key ≡ Ordering.lt → fix mi ≡ to_left mi
    unfolding fix
    fix_left lt =
        let gt = compare_keys-flip mi.left.key mi.right.key in
        elim (Bool-cases mi.small_is_left) [
          | inl t ↦ ground (arith, t, rev, l, r, lt, already mi true t)
          | inr f ↦ ground (arith, f, rev, l, r, lt, gt)
        ]

    pub fix_right : compare_keys mi.left.key mi.right.key ≡ Ordering.gt → fix mi ≡ to_right mi
    unfolding fix
    fix_right gt =
        let lt = compare_keys-flip mi.left.key mi.right.key in
        elim (Bool-cases mi.small_is_left) [
          | inl t ↦ ground (arith, t, rev, l, r, gt, lt)
          | inr f ↦ ground (arith, f, rev, l, r, gt, lt, already mi false f)
        ]

    pub fix_equal :
        compare_keys mi.left.key mi.right.key ≡ Ordering.eq
        → fix mi ≡ to_left (record mi { right = next_node mi.right })
    unfolding fix
    fix_equal eq =
        let flip = compare_keys-flip mi.left.key mi.right.key in
        elim (Bool-cases mi.small_is_left) [
          | inl t ↦
              ground
                (arith, t, rev, l, r, eq, already (record mi { right = next_node mi.right }) true t)
          | inr f ↦ ground (arith, f, rev, l, r, eq, flip)
        ]
