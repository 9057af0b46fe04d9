-- ===== src/Iterate/Queue.antt =====
-- An iterator that goes forward, without its prefetching: the items are those of one walk over the
-- pairs.
use pri_zzl_badger.Base.{
  ℕ, zero, suc, ◌-◌, ◌<◌, ◌≡◌, refl, sym, ap, subst, ◌∙◌, true, false, not, ◌&&◌, Option, none,
  some, List, [], ◌∷◌, ◌++◌, arith, ltb, ◌==◌, if◌then◌else◌, length, Bool-cases, Option-cases, inl,
  inr,
}
use pri_zzl_badger.Bytes.{Bytes, has_prefix}
use pri_zzl_badger.Keys.{parse_key, same_key}
use pri_zzl_badger.Iter.{KeyValue}
use pri_zzl_badger.Txn.{DbView}
use pri_zzl_badger.Iterate.{
  Item, Options, Iterator, fill, is_gone, is_hidden, fill_from, parse_pairs, parsed, parse_item,
  is_over, fetch,
}

abbrev prepend : Option Item → List Item → List Item
prepend none u = u
prepend (some i) u = i ∷ u

-- The current item and the queue, before the items still to be found.
abbrev pub Holding : Option Item → List Item → List Item → List Item → Type 0
Holding none ds f u = (ds ≡ []) × (u ≡ f)
Holding (some i) ds f u = u ≡ i ∷ (ds ++ f)

-- No item is there only when none is left.
abbrev pub Done : Option Item → List Item → List Item → List Item → Type 0
Done none ds f u = u ≡ []
Done (some i) ds f u = u ≡ i ∷ (ds ++ f)

abbrev IsFilled : Option Item → Option Item → Type 0
IsFilled none m = Unit {0}
IsFilled (some i) none = ⊥
IsFilled (some i) (some j) = Unit {0}

IsFilled-Done :
    (o m : Option Item) (ds f u : List Item) {i : Item}
    → o ≡ some i
    → IsFilled o m
    → Holding m ds f u
    → Done m ds f u
IsFilled-Done none m ds f u e p h = absurd (cc)
IsFilled-Done (some j) none ds f u e p h = elim p [ ]
IsFilled-Done (some j) (some i) ds f u e p h = h

nothing-Done : (m : Option Item) (ds f u : List Item) → f ≡ [] → Holding m ds f u → Done m ds f u
nothing-Done none ds f u e h = h.1 ∙ e
nothing-Done (some i) ds f u e h = h

append_one : (ds f : List Item) (i : Item) → (ds ++ (i ∷ [])) ++ f ≡ ds ++ (i ∷ f)
append_one [] f i = refl
append_one (d ∷ ds) f i = ap (λ q. d ∷ q) (append_one ds f i)

module _ (db : DbView) (opt : Options) (read_ts now : ℕ) where
  -- The items of one walk over the pairs, `last` being the last key that was looked at.
  unfoldable pub forward : Bytes → List KeyValue → List Item
  forward last [] = []
  forward last (x ∷ xs) =
      let same = forward last xs in
      let other = forward x.key xs in
      if not (has_prefix (parse_key x.key) opt.prefix)
      then []
      else if is_hidden db opt read_ts now x
      then same
      else if same_key last x.key
      then same
      else if is_gone db opt read_ts now x
      then other
      else fill x ∷ other

  parsed-Holding :
      (it : Iterator) (m : Option Item) (last : Bytes) (rest : List KeyValue) (o : Option Item)
      (f u : List Item)
      → Holding m it.data_items (prepend o f) u
      → let it' =
          parsed db opt read_ts now
            (record it { item = m })
            (record { last = last; rest = rest; found = o }) in
        Holding it'.item it'.data_items f u
        × (it'.iitr ≡ rest)
        × (it'.last_key ≡ last)
        × IsFilled o it'.item
  parsed-Holding it none last rest none f u h = (h, refl, refl, tt)
  parsed-Holding it (some j) last rest none f u h = (h, refl, refl, tt)
  parsed-Holding it none last rest (some i) f u h =
      (h.1 ∙ ap (λ ds. i ∷ (ds ++ f)) (sym h.0), refl, refl, tt)
  parsed-Holding it (some j) last rest (some i) f u h =
      (h ∙ ap (λ q. j ∷ q) (sym (append_one it.data_items f i)), refl, refl, tt)

  module _ (fwd : opt.reverse ≡ false) (newest : opt.all_versions ≡ false) where
    over_iff : (k p : Bytes) → (ltb 0 (length p) && not (has_prefix k p)) ≡ not (has_prefix k p)
    unfolding has_prefix
    over_iff k [] = refl
    over_iff k (b ∷ p) = ground arith

    is_over-forward :
        (last : Bytes) (xs : List KeyValue)
        → is_over db opt read_ts now xs ≡ true
        → forward last xs ≡ []
    unfolding is_over forward
    is_over-forward last [] o = refl
    is_over-forward last (x ∷ xs) o = ground (arith, o, fwd, over_iff (parse_key x.key) opt.prefix)

    parse_pairs-forward :
        (last : Bytes) (x : KeyValue) (xs : List KeyValue)
        → is_over db opt read_ts now (x ∷ xs) ≡ false
        → let p = parse_pairs db opt read_ts now last (x ∷ xs) in
          (p.rest ≡ xs) × (forward last (x ∷ xs) ≡ prepend p.found (forward p.last xs))
    unfolding is_over forward parse_pairs fill_from
    parse_pairs-forward last x xs o =
        let yes : has_prefix (parse_key x.key) opt.prefix ≡ true =
          ground (arith, o, fwd, over_iff (parse_key x.key) opt.prefix) in
        (ground (arith, fwd, newest), ground (arith, yes, fwd, newest))

    -- Enough rounds find an item, or there is none.
    pub fetch-Done :
        (rounds left : ℕ) (it : Iterator) (xs : List KeyValue) (u : List Item)
        → length xs < rounds
        → 0 < left
        → Holding it.item it.data_items (forward it.last_key xs) u
        → (it' : Iterator) × (fetch db opt read_ts now rounds left (record it { iitr = xs })
            ≡ some it')
          × Done it'.item it'.data_items (forward it'.last_key it'.iitr) u
    unfolding fetch is_over parse_pairs
    fetch-Done zero left it xs u lt some_left h = absurd (omega arith)
    fetch-Done (suc rounds) left it [] u lt some_left h = (
      record it { iitr = [] },
      refl,
      nothing-Done it.item it.data_items _ u (is_over-forward it.last_key [] refl) h,
    )
    fetch-Done (suc rounds) left it (x ∷ xs) u lt some_left h =
        elim (Bool-cases (is_over db opt read_ts now (x ∷ xs))) [
          | inl over ↦ (
            record it { iitr = x ∷ xs },
            rw over refl,
            nothing-Done it.item it.data_items _ u (is_over-forward it.last_key (x ∷ xs) over) h,
          )
          | inr more ↦
              let now_at = record it { iitr = x ∷ xs } in
              let p = parse_pairs db opt read_ts now it.last_key (x ∷ xs) in
              let it' = parse_item db opt read_ts now now_at in
              let step = parse_pairs-forward it.last_key x xs more in
              let moved =
                parsed-Holding now_at it.item p.last p.rest p.found (forward p.last xs) u
                  (subst (λ q. Holding it.item it.data_items q u) step.1 h) in
              let left_over : it'.iitr ≡ xs = moved.1 ∙ step.0 in
              let held : Holding it'.item it'.data_items (forward it'.last_key it'.iitr) u =
                subst (λ q. Holding it'.item it'.data_items (forward it'.last_key q) u)
                  (sym left_over)
                  (subst (λ q. Holding it'.item it'.data_items (forward q xs) u) (sym moved.2)
                    moved.0) in
              let less : length it'.iitr < rounds = omega (arith, lt, ap length left_over) in
              elim (Option-cases p.found) [
                | inl e ↦
                    let (res, run, done) =
                      fetch-Done rounds left it' it'.iitr u less some_left held in
                    (res, rw (more, e) run, done)
                | inr (i, e) ↦ elim (Bool-cases (left == 1)) [
                  | inl one ↦ (
                    it',
                    rw (more, e, one) refl,
                    IsFilled-Done p.found it'.item _ _ u e moved.3 held,
                  )
                  | inr others ↦
                      let (res, run, done) =
                        fetch-Done rounds (left - 1) it' it'.iitr u less (ground arith) held in
                      (res, rw (more, e, others) run, done)
                ]
              ]
        ]
