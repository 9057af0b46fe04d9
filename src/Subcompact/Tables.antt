-- ===== src/Subcompact/Tables.antt =====
-- subcompact: what a reader sees of the tables that build_tables adds, part by part.
use Prim.Native.Nat.{Ordering}
use pri_zzl_badger.Base.{
  ℕ, zero, suc, ◌≤◌, ◌<◌, ◌≡◌, ◌≢◌, refl, sym, ◌∙◌, subst, true, false, ◌⊎◌, inl, inr, Option, none,
  some, List, [], ◌∷◌, ◌++◌, arith, length, Bool-cases, All,
}
use pri_zzl_badger.Bytes.{Bytes}
use pri_zzl_badger.Keys.{compare_keys, parse_key}
use pri_zzl_badger.Keys.Order.{compare_keys-flip}
use pri_zzl_badger.LevelHandler.Order.{UpTo-Before}
use pri_zzl_badger.Iter.{KeyValue, seen}
use pri_zzl_badger.Iter.Order.{InKeyOrder, first_of, first_of-none, seen-append, seen-absent}
use pri_zzl_badger.Subcompact.{
  Env, Scan, Added, Built, go, stop, step, at_end, add_keys, build_tables, new_builder, with_table,
}
use pri_zzl_badger.Subcompact.Steps.{step-ne-fault, step-ne-stop, Outcome-cases}
use pri_zzl_badger.Subcompact.Phases.{
  items_of, IsFine, IsObsolete, Phase, looking, found, gone, absent, total,
}
use pri_zzl_badger.Subcompact.Rounds.{Phase-go, Phase-stop}

-- The pairs of all tables, in their order.
pub all_items : List (List Added) → List KeyValue
all_items [] = []
all_items (t ∷ ts) = items_of t ++ all_items ts

List-cases : (xs : List Added) → (xs ≡ []) ⊎ ((a : Added) × (as_ : List Added) × (xs ≡ a ∷ as_))
List-cases [] = inl refl
List-cases (a ∷ as_) = inr (a, as_, refl)

-- What a reader got before and gets after: the same; or the pair before was obsolete, and nothing
-- is seen after.
abbrev pub IsPreserved : Env → Option KeyValue → Option KeyValue → Type 0
IsPreserved env want got =
    (got ≡ want) ⊎ ((got ≡ none) × ((y : KeyValue) × (want ≡ some y) × IsObsolete env y))

add_keys_go :
    (env : Env) (st a : Scan) (x : KeyValue) (xs : List KeyValue)
    → step env st x ≡ go a
    → add_keys env st (x ∷ xs) ≡ add_keys env a xs
unfolding add_keys
add_keys_go env st a x xs e = ground arith

add_keys_stop :
    (env : Env) (st a : Scan) (x : KeyValue) (xs : List KeyValue)
    → step env st x ≡ stop a
    → add_keys env st (x ∷ xs) ≡ some (a, x ∷ xs)
unfolding add_keys
add_keys_stop env st a x xs e = ground arith

-- Past the end of the range there is no version of the reader's key.
absent_past_end :
    (env : Env) (k : Bytes) (x : KeyValue) (xs : List KeyValue)
    → at_end env x.key ≡ true
    → All (IsFine env k) (x ∷ xs)
    → All (λ y. compare_keys x.key y.key ≡ Ordering.lt) xs
    → All (λ y. parse_key y.key ≢ k) (x ∷ xs)
absent_past_end env k x xs e f later =
    ((λ same. ground (arith, f.0.in_range same)), tail xs f.1 later)
  where
    tail :
        (ys : List KeyValue)
        → All (IsFine env k) ys
        → All (λ y. compare_keys x.key y.key ≡ Ordering.lt) ys
        → All (λ y. parse_key y.key ≢ k) ys
    tail [] g l = tt
    tail (y ∷ ys) g l = (
      λ same. ground (
        arith,
        g.0.in_range same,
        l.0,
        UpTo-Before env.right x.key y.key,
        compare_keys-flip x.key env.right,
        compare_keys-flip y.key env.right,
      ),
      tail ys g.1 l.1,
    )

module _ (env : Env) (k : Bytes) (ts : ℕ) (want : Option KeyValue)
    (recent : env.discard_ts ≤ ts) where
  -- What addKeys leaves for the next table.
  abbrev Left : Option KeyValue → Scan → List KeyValue → List KeyValue → Type 0
  Left before s rest xs =
      Phase env k ts want s.skip_key rest (total env k ts want before s)
      × All (IsFine env k) rest
      × InKeyOrder rest
      × (length rest ≤ length xs)

  add_keys-Left :
      (before : Option KeyValue) (st : Scan) (xs : List KeyValue)
      → Phase env k ts want st.skip_key xs (total env k ts want before st)
      → All (IsFine env k) xs
      → InKeyOrder xs
      → (s : Scan) × (rest : List KeyValue) × (add_keys env st xs ≡ some (s, rest))
        × Left before s rest xs
  unfolding add_keys
  add_keys-Left before st [] p f o = (st, [], refl, (p, f, o, omega arith))
  add_keys-Left before st (x ∷ xs) p f o = elim (Outcome-cases (step env st x)) [
    | inl (a, went) ↦
        let (s, rest, e, left) =
          add_keys-Left before a xs (Phase-go env k ts want recent before st x a xs f.0 o.0 went p)
            f.1 o.1 in
        (
          s,
          rest,
          add_keys_go env st a x xs went ∙ e,
          (left.0, left.1, left.2, omega (arith, left.3)),
        )
    | inr (inl (a, stopped)) ↦ (
      a,
      x ∷ xs,
      add_keys_stop env st a x xs stopped,
      (Phase-stop env k ts want recent before st x a xs f.0 o.0 stopped p, f, o, omega arith),
    )
    | inr (inr bad) ↦ absurd (step-ne-fault env st x f.0.pointer bad)
  ]

  -- The loop of addKeys on a new builder takes one pair at least.
  add_keys_first :
      (before : Option KeyValue) (st : Scan) (x : KeyValue) (xs : List KeyValue)
      → at_end env x.key ≡ false
      → env.reached_capacity [] ≡ false
      → Phase env k ts want st.skip_key (x ∷ xs) before
      → All (IsFine env k) (x ∷ xs)
      → InKeyOrder (x ∷ xs)
      → (s : Scan) × (rest : List KeyValue) × (add_keys env (new_builder st) (x ∷ xs)
          ≡ some (s, rest))
        × Left before s rest xs
  unfolding items_of seen
  add_keys_first before st x xs more room p f o =
      elim (Outcome-cases (step env (new_builder st) x)) [
        | inl (a, went) ↦
            let (s, rest, e, left) =
              add_keys-Left before a xs
                (Phase-go env k ts want recent before (new_builder st) x a xs f.0 o.0 went
                  (builderless before p))
                f.1 o.1 in
            (s, rest, add_keys_go env (new_builder st) a x xs went ∙ e, left)
        | inr (inl (a, stopped)) ↦
            absurd (step-ne-stop env (new_builder st) x a more room refl stopped)
        | inr (inr bad) ↦ absurd (step-ne-fault env (new_builder st) x f.0.pointer bad)
      ]
    where
      builderless :
          (b : Option KeyValue)
          → Phase env k ts want st.skip_key (x ∷ xs) b
          → Phase env k ts want st.skip_key (x ∷ xs) (first_of b none)
      builderless none q = q
      builderless (some y) q = q

  -- The reader at the end of a range.
  at_last :
      (skip : Bytes) (rest : List KeyValue) (got : Option KeyValue)
      → seen k ts rest ≡ none
      → Phase env k ts want skip rest got
      → IsPreserved env want got
  at_last skip rest got e (looking n other w) = inl (n ∙ (sym e ∙ w))
  at_last skip rest got e (found y g w) = inl (g ∙ sym w)
  at_last skip rest got e (gone n obs key long after) = inr (n, obs)
  at_last skip rest got e (absent n obs none_left) = inr (n, obs)

  abbrev Builds : ℕ → ℕ → Scan → List KeyValue → Option KeyValue → Type 0
  Builds rounds builds st xs before =
      (b : Built) × (build_tables rounds env builds st xs ≡ some (some b))
      × (b.broken ≡ false)
      × IsPreserved env want (first_of before (seen k ts (all_items b.tables)))

  -- A round of the loop over the tables, which may end with nothing to build.
  round_done :
      (rounds builds : ℕ) (before : Option KeyValue) (st : Scan) (x : KeyValue) (xs : List KeyValue)
      (s : Scan) (rest : List KeyValue)
      → ((n : ℕ) → env.do_fails n ≡ false)
      → at_end env x.key ≡ false
      → add_keys env (new_builder st) (x ∷ xs) ≡ some (s, rest)
      → Builds rounds builds s rest (total env k ts want before s)
      → Builds rounds (suc builds) s rest (total env k ts want before s)
      → Builds (suc rounds) builds st (x ∷ xs) before
  unfolding build_tables all_items items_of seen
  round_done rounds builds before st x xs s rest ok more e (b, eb, nb, pb) (c, ec, nc, pc) =
      elim (List-cases s.added) [
        | inl empty ↦ (
          b,
          ground arith,
          nb,
          subst (λ o. IsPreserved env want (first_of o (seen k ts (all_items b.tables))))
              (rw empty (first_of-none before)) pb,
        )
        | inr (a, as_, full) ↦ (
          with_table (a ∷ as_) c,
          ground (arith, ok (suc builds)),
          nc,
          subst (IsPreserved env want) (rw full (joined before (a ∷ as_) c.tables)) pc,
        )
      ]
    where
      joined :
          (o : Option KeyValue) (t : List Added) (ts' : List (List Added))
          → first_of (first_of o (seen k ts (items_of t))) (seen k ts (all_items ts'))
            ≡ first_of o (seen k ts (items_of t ++ all_items ts'))
      joined none t ts' = sym (seen-append k ts (items_of t) (all_items ts'))
      joined (some y) t ts' = refl

  -- The loop over the tables, from any phase, with a round for every pair.
  pub build_tables-Builds :
      env.reached_capacity [] ≡ false
      → ((n : ℕ) → env.do_fails n ≡ false)
      → (rounds builds : ℕ) (before : Option KeyValue) (st : Scan) (xs : List KeyValue)
      → length xs < rounds
      → Phase env k ts want st.skip_key xs before
      → All (IsFine env k) xs
      → InKeyOrder xs
      → Builds rounds builds st xs before
  unfolding build_tables all_items seen
  build_tables-Builds room ok zero builds before st xs enough p f o = absurd (omega arith)
  build_tables-Builds room ok (suc rounds) builds before st [] enough p f o = (
    record { tables = []; broken = false; discard_stats = st.discard_stats },
    refl,
    refl,
    rw (first_of-none before) (at_last st.skip_key [] before refl p),
  )
  build_tables-Builds room ok (suc rounds) builds before st (x ∷ xs) enough p f o =
      elim (Bool-cases (at_end env x.key)) [
        | inl over ↦ (
          record { tables = []; broken = false; discard_stats = st.discard_stats },
          ground arith,
          refl,
          rw (first_of-none before) (
              at_last st.skip_key (x ∷ xs) before
                (seen-absent k ts (x ∷ xs) (absent_past_end env k x xs over f o.0)) p),
        )
        | inr more ↦
            let (s, rest, e, left) = add_keys_first before st x xs more room p f o in
            round_done rounds builds before st x xs s rest ok more e
              (build_tables-Builds room ok rounds builds (total env k ts want before s) s rest
                (omega (arith, left.3)) left.0 left.1 left.2)
              (build_tables-Builds room ok rounds (suc builds) (total env k ts want before s) s rest
                (omega (arith, left.3)) left.0 left.1 left.2)
      ]
