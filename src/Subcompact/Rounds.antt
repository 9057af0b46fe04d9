-- ===== src/Subcompact/Rounds.antt =====
-- subcompact: a round of addKeys moves a reader from one phase to the next.
use Prim.Native.Nat.{Ordering}
use pri_zzl_badger.Base.{
  ℕ, ◌≤◌, ◌≡◌, ◌≢◌, refl, sym, ◌∙◌, true, false, ◌⊎◌, inl, inr, Option, none, some, List, ◌∷◌,
  arith, length, Bool-cases, All, All-mono,
}
use pri_zzl_badger.Bytes.{Bytes}
use pri_zzl_badger.Bytes.Order.{equal_bytes_iff}
use pri_zzl_badger.Keys.{compare_keys, parse_key, parse_ts}
use pri_zzl_badger.Keys.Order.{same_key-eq, parse_key-same}
use pri_zzl_badger.Iter.{KeyValue, seen, is_seen}
use pri_zzl_badger.Iter.Order.{group_ends}
use pri_zzl_badger.Subcompact.{Env, Scan, go, stop, step}
use pri_zzl_badger.Subcompact.Steps.{Kept, Dropped, Passed, passes, step-go, step-stop}
use pri_zzl_badger.Subcompact.Phases.{
  IsFine, Phase, looking, found, gone, absent, WantsObsolete, total, total-unseen, total-seen,
  total-found, AddsAtMost,
}

module _ (env : Env) (k : Bytes) (ts : ℕ) (want : Option KeyValue)
    (recent : env.discard_ts ≤ ts) where
  not_seen : (x : KeyValue) → parse_key x.key ≢ k → is_seen k ts x ≡ false
  not_seen x ne = ground (arith, ne, (equal_bytes_iff (parse_key x.key) k).0)

  key_of_seen : (x : KeyValue) → is_seen k ts x ≡ true → parse_key x.key ≡ k
  key_of_seen x e = (equal_bytes_iff (parse_key x.key) k).0 (ground arith)

  -- A pair that a round leaves as the key to skip is no version that the reader sees.
  skip_other :
      (x : KeyValue)
      → is_seen k ts x ≡ false
      → parse_ts x.key ≤ env.discard_ts
      → parse_key x.key ≢ k
  skip_other x e old same = ground (arith, (equal_bytes_iff (parse_key x.key) k).1 same)

  seen-cons-unseen :
      (x : KeyValue) (xs : List KeyValue)
      → is_seen k ts x ≡ false
      → seen k ts (x ∷ xs) ≡ want
      → seen k ts xs ≡ want
  unfolding seen
  seen-cons-unseen x xs e h = ground arith

  want_head :
      (x : KeyValue) (xs : List KeyValue)
      → is_seen k ts x ≡ true
      → seen k ts (x ∷ xs) ≡ want
      → want ≡ some x
  unfolding seen
  want_head x xs e h = ground arith

  module _ (before : Option KeyValue) (st : Scan) (x : KeyValue) (s : Scan) where
    Kept-AddsAtMost : Kept env st x s → AddsAtMost env k ts want st x s
    Kept-AddsAtMost v = inr (record { item = x; len = v.len; stale = v.stale }, refl, v.added)

    abbrev Ways : Type 0
    Ways =
        ((passes env st x ≡ true) × Passed st s)
        ⊎ ((passes env st x ≡ false) × (Kept env st x s ⊎ Dropped env st x s))

    Ways-AddsAtMost : Ways → AddsAtMost env k ts want st x s
    Ways-AddsAtMost (inl (e, v)) = inl v.added
    Ways-AddsAtMost (inr (e, inl v)) = Kept-AddsAtMost v
    Ways-AddsAtMost (inr (e, inr v)) = inl v.added

    -- From the phase of looking, by the way the round went.
    looking-go :
        (xs : List KeyValue)
        → IsFine env k x
        → All (λ y. compare_keys x.key y.key ≡ Ordering.lt) xs
        → total env k ts want before st ≡ none
        → (length st.skip_key ≢ 0 → parse_key st.skip_key ≢ k)
        → seen k ts (x ∷ xs) ≡ want
        → Ways
        → Phase env k ts want s.skip_key xs (total env k ts want before s)
    looking-go xs f later e other w way = elim (Bool-cases (is_seen k ts x)) [
      | inr unseen ↦
          looking (total-unseen env k ts want before st x s unseen (Ways-AddsAtMost way) ∙ e)
            (skip_ne way unseen) (seen-cons-unseen x xs unseen w)
      | inl seen_ ↦ head_seen way seen_
    ]
      where
        skip_ne : Ways → is_seen k ts x ≡ false → length s.skip_key ≢ 0 → parse_key s.skip_key ≢ k
        skip_ne (inl (p, v)) u = rw v.skip other
        skip_ne (inr (p, inl v)) u = elim (v.skip) [
          | inl clear ↦ rw clear (λ h. absurd (h refl))
          | inr (at_x, old) ↦ rw at_x (λ h. skip_other x u old)
        ]
        skip_ne (inr (p, inr v)) u = rw v.skip (λ h. skip_other x u v.old)

        head_seen :
            Ways
            → is_seen k ts x ≡ true
            → Phase env k ts want s.skip_key xs (total env k ts want before s)
        head_seen (inl (p, v)) h = absurd (
            ground (
              arith,
              f.no_prefix (key_of_seen x h),
              parse_key-same x.key st.skip_key,
              key_of_seen x h,
              other,
            ))
        head_seen (inr (p, inl v)) h =
            found x
              (total-seen env k ts want before st x s h e
                (record { item = x; len = v.len; stale = v.stale }) refl v.added)
              (want_head x xs h w)
        head_seen (inr (p, inr v)) h =
            gone (rw v.added e)
              (
                x,
                want_head x xs h w,
                record { old = v.old; expired = v.expired; no_overlap = v.no_overlap },
              )
              (rw v.skip (key_of_seen x h)) (rw v.skip f.long) (rw v.skip later)

    -- From the phase in which the versions of the reader's key are passed over.
    gone-go :
        (xs : List KeyValue)
        → IsFine env k x
        → All (λ y. compare_keys x.key y.key ≡ Ordering.lt) xs
        → total env k ts want before st ≡ none
        → WantsObsolete env k ts want
        → parse_key st.skip_key ≡ k
        → 8 ≤ length st.skip_key
        → compare_keys st.skip_key x.key ≡ Ordering.lt
        → All (λ y. compare_keys st.skip_key y.key ≡ Ordering.lt) xs
        → Ways
        → Phase env k ts want s.skip_key xs (total env k ts want before s)
    gone-go xs f later e obs key long after after_rest (inl (p, v)) =
        gone (rw v.added e) obs (rw v.skip key) (rw v.skip long) (rw v.skip after_rest)
    gone-go xs f later e obs key long after after_rest (inr (p, v)) =
        absent
          (total-unseen env k ts want before st x s (not_seen x other)
              (Ways-AddsAtMost (inr (p, v)))
            ∙ e)
          obs
          (All-mono _ _
            (λ y x_y same.
              group_ends st.skip_key x.key y.key after (λ q. other (q ∙ key)) x_y (same ∙ sym key))
            xs later)
      where
        other : parse_key x.key ≢ k
        other same = ground (arith, same_key-eq x.key st.skip_key f.long long (same ∙ sym key))

    -- A round that goes on.
    pub Phase-go :
        (xs : List KeyValue)
        → IsFine env k x
        → All (λ y. compare_keys x.key y.key ≡ Ordering.lt) xs
        → step env st x ≡ go s
        → Phase env k ts want st.skip_key (x ∷ xs) (total env k ts want before st)
        → Phase env k ts want s.skip_key xs (total env k ts want before s)
    Phase-go xs f later e (looking n other w) =
        looking-go xs f later n other w (step-go env st x s e)
    Phase-go xs f later e (found y g w) =
        found y
          (total-found env k ts want before st x y s g (Ways-AddsAtMost (step-go env st x s e))) w
    Phase-go xs f later e (gone n obs key long after) =
        gone-go xs f later n obs key long after.0 after.1 (step-go env st x s e)
    Phase-go xs f later e (absent n obs none_left) =
        absent
          (total-unseen env k ts want before st x s (not_seen x none_left.0)
              (Ways-AddsAtMost (step-go env st x s e))
            ∙ n)
          obs none_left.1

    -- A round that breaks off.
    pub Phase-stop :
        (xs : List KeyValue)
        → IsFine env k x
        → All (λ y. compare_keys x.key y.key ≡ Ordering.lt) xs
        → step env st x ≡ stop s
        → Phase env k ts want st.skip_key (x ∷ xs) (total env k ts want before st)
        → Phase env k ts want s.skip_key (x ∷ xs) (total env k ts want before s)
    Phase-stop xs f later e (looking n other w) =
        let (p, v) = step-stop env st x s e in
        looking (rw v.added n) (rw v.skip (λ h. absurd (h refl))) w
    Phase-stop xs f later e (found y g w) =
        let (p, v) = step-stop env st x s e in found y (rw v.added g) w
    Phase-stop xs f later e (gone n obs key long after) =
        let (p, v) = step-stop env st x s e in
        let other = λ (same : parse_key x.key ≡ k).
          absurd {A = ⊥}
            (ground (arith, same_key-eq x.key st.skip_key f.long long (same ∙ sym key))) in
        absent (rw v.added n) obs (
          other,
          All-mono _ _
              (λ y x_y same.
                group_ends st.skip_key x.key y.key after.0 (λ q. other (q ∙ key)) x_y
                  (same ∙ sym key))
              xs later,
        )
    Phase-stop xs f later e (absent n obs none_left) =
        let (p, v) = step-stop env st x s e in absent (rw v.added n) obs none_left
