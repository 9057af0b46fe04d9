-- ===== src/Iterate/Walk.antt =====
-- What a user of an iterator that goes forward sees.
use pri_zzl_badger.Base.{
  ℕ, zero, suc, ◌<◌, ◌≡◌, refl, sym, ap, subst, true, false, Option, none, some, List, [], ◌∷◌,
  ◌++◌, arith, All, ltb, if◌then◌else◌, length, Bool-cases, inl, inr,
}
use pri_zzl_badger.Bytes.{Bytes, has_prefix}
use pri_zzl_badger.Keys.{parse_key, same_key}
use pri_zzl_badger.Iter.{KeyValue}
use pri_zzl_badger.Txn.{DbView, add_read_key}
use pri_zzl_badger.Iterate.{
  Item, Options, Iterator, fill, is_gone, is_hidden, prefetch_count, prefetch, next, take_item,
  is_valid, iterate, seek_iterator, start,
}
use pri_zzl_badger.Iterate.Queue.{Done, forward, fetch-Done}

module _ (db : DbView) (opt : Options) (read_ts now : ℕ) where
  abbrev Fits : Item → Type 0
  Fits i = has_prefix i.key opt.prefix ≡ true

  forward-Fits : (last : Bytes) (xs : List KeyValue) → All Fits (forward db opt read_ts now last xs)
  unfolding forward fill
  forward-Fits last [] = tt
  forward-Fits last (x ∷ xs) = elim (Bool-cases (has_prefix (parse_key x.key) opt.prefix)) [
    | inr f ↦ rw f tt
    | inl t ↦ rw t (elim (Bool-cases (is_hidden db opt read_ts now x)) [
      | inl hid ↦ rw hid (forward-Fits last xs)
      | inr shown ↦ rw shown (elim (Bool-cases (same_key last x.key)) [
        | inl same ↦ rw same (forward-Fits last xs)
        | inr other ↦ rw other (elim (Bool-cases (is_gone db opt read_ts now x)) [
          | inl gone ↦ rw gone (forward-Fits x.key xs)
          | inr here ↦ rw here (t, forward-Fits x.key xs)
        ])
      ])
    ])
  ]

  module _ (mem_hash : Bytes → ℕ) (fwd : opt.reverse ≡ false)
      (newest : opt.all_versions ≡ false) where
    next-Done :
        (it : Iterator) (i : Item) (ds : List Item)
        → (it' : Iterator) × (next db opt read_ts now (record it { item = some i; data_items = ds })
            ≡ some it')
          × Done it'.item it'.data_items
              (forward db opt read_ts now it'.last_key it'.iitr)
              (ds ++ forward db opt read_ts now it.last_key it.iitr)
    unfolding next
    next-Done it i [] =
        fetch-Done db opt read_ts now fwd newest (suc (length it.iitr)) 1
          (record it { item = none; data_items = [] }) it.iitr _ (omega arith) (omega arith)
          (refl, refl)
    next-Done it i (d ∷ ds) =
        fetch-Done db opt read_ts now fwd newest (suc (length it.iitr)) 1
          (record it { item = some d; data_items = ds }) it.iitr _ (omega arith) (omega arith) refl

    is_valid-fit :
        (it : Iterator) (i : Item)
        → opt.prefix_is_key ≡ false
        → has_prefix i.key opt.prefix ≡ true
        → is_valid db opt read_ts now (record it { item = some i }) ≡ true
    unfolding is_valid
    is_valid-fit it i plain fit = ground (arith, plain, fit)

    iterate-Done :
        (rounds : ℕ) (it : Iterator) (m : Option Item) (u : List Item)
        → opt.prefix_is_key ≡ false
        → length u < rounds
        → All Fits u
        → Done m it.data_items (forward db opt read_ts now it.last_key it.iitr) u
        → iterate db opt read_ts now mem_hash rounds (record it { item = m }) ≡ some u
    unfolding iterate is_valid take_item
    iterate-Done zero it m u plain lt fits h = absurd (omega arith)
    iterate-Done (suc rounds) it none u plain lt fits h = ap some (sym h)
    iterate-Done (suc rounds) it (some i) u plain lt fits h =
        let fit = subst (All Fits) h fits in
        let w = it.data_items ++ forward db opt read_ts now it.last_key it.iitr in
        let taken = take_item db opt read_ts now mem_hash (record it { item = some i }) in
        let (it', run, done) = next-Done taken i it.data_items in
        let rest =
          iterate-Done rounds it' it'.item w plain (omega (arith, lt, ap length h)) fit.1 done in
        let valid : is_valid db opt read_ts now (record it { item = some i }) ≡ true =
          is_valid-fit it i plain fit.0 in
        rw (valid, run, rest) (ap some (sym h))

    -- An iterator that goes forward over the newest versions and is not one of a single key, whatever
    -- it prefetches, yields from a Seek on, and with the empty key from a Rewind on, the items of
    -- one walk over the pairs from where the Seek starts. The loops of Next and of prefetch end, and
    -- no item is missing when Next takes one.
    pub iterate-forward :
        (it : Iterator) (key : Bytes)
        → opt.prefix_is_key ≡ false
        → let u = forward db opt read_ts now [] (start db opt read_ts now key it.all) in
          (it' : Iterator) × (seek_iterator db opt read_ts now mem_hash key it ≡ some it')
          × (iterate db opt read_ts now mem_hash (suc (length u)) it' ≡ some u)
    unfolding seek_iterator prefetch
    iterate-forward it key plain =
        let from = start db opt read_ts now key it.all in
        let u = forward db opt read_ts now [] from in
        let txn = if ltb 0 (length key) then add_read_key mem_hash key it.txn else it.txn in
        let begun : Iterator = record it {
          txn = txn;
          data_items = [];
          last_key = [];
          item = none;
          iitr = from;
        } in
        let some_count : 0 < prefetch_count db opt read_ts now = ground arith in
        let (it', run, done) =
          fetch-Done db opt read_ts now fwd newest (suc (length from))
            (prefetch_count db opt read_ts now) begun from u (omega arith) some_count
            (refl, refl) in
        (
          it',
          run,
          iterate-Done (suc (length u)) it' it'.item u plain (omega arith) (forward-Fits [] from)
              done,
        )
