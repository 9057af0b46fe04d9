-- ===== src/Watermark/Wake.antt =====
-- Waking the waiters below the mark: the two loops of `process` wake the same channels.
use pri_zzl_badger.Base.{
  ℕ, zero, suc, ◌+◌, ◌-◌, ◌≤◌, ◌<◌, ◌≡◌, refl, Bool, true, false, ◌||◌, ◌&&◌, Option, none, some,
  List, [], ◌∷◌, ◌++◌, ◌⊎◌, inl, inr, arith, ltb, leb, ◌==◌, if◌then◌else◌, NatMap, lookup, remove,
  is_some, length, IsMap, remove-IsMap, lookup-remove, elem, elem-append, Bool-cases,
}
use pri_zzl_badger.Watermark.{Chan, Notify, notify_index, notify_range, notify_all, notify, gap}

-- `n'` is `n` after the waiters at the chosen indices were woken and dropped.
pub record Woken (chosen : ℕ → Bool) (n n' : Notify) : Type 0 where
  pub lookups : (j : ℕ) → lookup j n'.waiters ≡ (if chosen j then none else lookup j n.waiters)
  pub woken :
      (j : ℕ) (chans : List Chan) (ch : Chan)
      → lookup j n.waiters ≡ some chans
      → chosen j ≡ true
      → elem ch chans ≡ true
      → elem ch n'.closed ≡ true
  pub keeps : (ch : Chan) → elem ch n.closed ≡ true → elem ch n'.closed ≡ true
  pub mapped : IsMap n.waiters → IsMap n'.waiters
  pub only :
      (ch : Chan)
      → elem ch n'.closed ≡ true
      → (elem ch n.closed ≡ true)
        ⊎ ((j : ℕ) × (chans : List Chan) × (lookup j n.waiters ≡ some chans)
            × (chosen j ≡ true)
            × (elem ch chans ≡ true))

Woken-none : (n : Notify) → Woken (λ j. false) n n
Woken-none n = record {
  lookups = λ j. refl;
  woken = λ j chans ch l p e. cc;
  keeps = λ ch e. e;
  mapped = λ m. m;
  only = λ ch e. inl e;
}

Woken-trans :
    (p q : ℕ → Bool) (a b c : Notify) → Woken p a b → Woken q b c → Woken (λ j. p j || q j) a c
Woken-trans p q a b c f g = record {
  lookups = λ j. ground (arith, f.lookups j, g.lookups j);
  woken = λ j chans ch l s e.
      ground (arith, f.lookups j, f.woken j chans ch, g.woken j chans ch, g.keeps ch);
  keeps = λ ch e. g.keeps ch (f.keeps ch e);
  mapped = λ m. g.mapped (f.mapped m);
  only = λ ch e. elim (g.only ch e) [
    | inl old ↦ elim (f.only ch old) [
      | inl older ↦ inl older
      | inr (j, chans, l, s, m) ↦ inr (j, chans, l, ground arith, m)
    ]
    | inr (j, chans, l, s, m) ↦ inr (j, chans, ground (arith, f.lookups j), ground arith, m)
  ];
}

-- Only what the chosen set says at the keys of the waiters matters.
Woken-change :
    (p q : ℕ → Bool) (a b : Notify)
    → ((j : ℕ) → is_some (lookup j a.waiters) ≡ true → p j ≡ q j)
    → Woken p a b
    → Woken q a b
Woken-change p q a b same f = record {
  lookups = λ j. ground (arith, f.lookups j, same j);
  woken = λ j chans ch l s e. ground (arith, f.woken j chans ch, same j);
  keeps = f.keeps;
  mapped = f.mapped;
  only = λ ch e. elim (f.only ch e) [
    | inl old ↦ inl old
    | inr (j, chans, l, s, m) ↦ inr (j, chans, l, ground (arith, same j), m)
  ];
}

-- One entry of the map is closed and dropped.
Woken-entry :
    (idx : ℕ) (chans : List Chan) (n : Notify)
    → lookup idx n.waiters ≡ some chans
    → Woken
        (λ j. j == idx)
        n
        (record { waiters = remove idx n.waiters; closed = n.closed ++ chans })
Woken-entry idx chans n at = record {
  lookups = λ j. lookup-remove idx j n.waiters;
  woken = λ j cs ch l s e. ground (arith, elem-append ch n.closed chans);
  keeps = λ ch e. ground (arith, elem-append ch n.closed chans);
  mapped = λ m. remove-IsMap idx n.waiters m;
  only = λ ch e. elim (Bool-cases (elem ch n.closed)) [
    | inl old ↦ inl old
    | inr new ↦ inr (idx, chans, at, ground arith, ground (arith, elem-append ch n.closed chans))
  ];
}

Woken-index : (idx : ℕ) (n : Notify) → Woken (λ j. j == idx) n (notify_index idx n)
unfolding notify_index
Woken-index idx n = go (lookup idx n.waiters) refl
  where
    go :
        (o : Option (List Chan))
        → lookup idx n.waiters ≡ o
        → Woken (λ j. j == idx) n (notify_index idx n)
    go none e =
        rw (e, notify_index)
          (Woken-change (λ j. false) (λ j. j == idx) n n (λ j s. ground arith) (Woken-none n))
    go (some chans) e = rw (e, notify_index) (Woken-entry idx chans n e)

pub notify_range-Woken :
    (rounds idx : ℕ) (n : Notify)
    → Woken (λ j. leb idx j && ltb j (idx + rounds)) n (notify_range rounds idx n)
unfolding notify_range
notify_range-Woken zero idx n = Woken-change (λ j. false) _ n n (λ j s. ground arith) (Woken-none n)
notify_range-Woken (suc rounds) idx n =
    Woken-change (λ j. j == idx || leb (suc idx) j && ltb j (suc idx + rounds)) _ n _
      (λ j s. ground arith)
      (Woken-trans _ _ n (notify_index idx n) _ (Woken-index idx n)
        (notify_range-Woken rounds (suc idx) (notify_index idx n)))

pub notify_all-Woken :
    (until : ℕ) (rest : NatMap (List Chan)) (n : Notify)
    → IsMap rest
    → ((j : ℕ) (chans : List Chan) → lookup j rest ≡ some chans → lookup j n.waiters ≡ some chans)
    → Woken (λ j. leb j until && is_some (lookup j rest)) n (notify_all until rest n)
unfolding notify_all lookup
notify_all-Woken until [] n m at =
    Woken-change (λ j. false) _ n n (λ j s. ground arith) (Woken-none n)
notify_all-Woken until ((idx, chans) ∷ rest) n m at = elim (Bool-cases (leb idx until)) [
  | inl low ↦
      let n' : Notify = record { waiters = remove idx n.waiters; closed = n.closed ++ chans } in
      rw low (
        Woken-change (λ j. j == idx || leb j until && is_some (lookup j rest)) _ n _
          (λ j s. ground arith)
          (Woken-trans _ _ n n' _ (Woken-entry idx chans n (at idx chans (ground arith))) (
            notify_all-Woken until rest n' m.1
              (λ j cs l. ground (arith, m.0, at j cs, lookup-remove idx j n.waiters)))))
  | inr high ↦ rw high (
      Woken-change (λ j. leb j until && is_some (lookup j rest)) _ n _ (λ j s. ground (arith, m.0))
        (notify_all-Woken until rest n m.1 (λ j cs l. ground (arith, m.0, at j cs))))
]

-- Either loop wakes the waiters up to `until`, and no others, when none was left below the mark.
pub notify-Woken :
    (done_until until : ℕ) (n : Notify)
    → IsMap n.waiters
    → done_until ≤ until
    → ((j : ℕ) → is_some (lookup j n.waiters) ≡ true → done_until < j)
    → Woken (λ j. leb j until) n (notify done_until until n)
unfolding notify
notify-Woken done_until until n m le above =
    elim (Bool-cases (leb (gap until done_until) (length n.waiters))) [
      | inl few ↦ rw few (
          Woken-change _ _ n _ (λ j s. ground (arith, above j))
            (notify_range-Woken (until - done_until) (suc done_until) n))
      | inr many ↦ rw many (
          Woken-change _ _ n _ (λ j s. ground arith)
            (notify_all-Woken until n.waiters n m (λ j cs l. l)))
    ]
