-- ===== src/Bloom/Examples.antt =====
-- A small filter.
use pri_zzl_badger.Base.{ℕ, ◌≡◌, refl, true, some, List, [], ◌∷◌, arith}
use pri_zzl_badger.Base.Int.{pos}
use pri_zzl_badger.Bloom.{num_bytes, new_filter, may_contain}
use pri_zzl_badger.Bloom.Build.{new_filter-may_contain}

abbrev keys : List ℕ
keys = 17 ∷ 4000000000 ∷ []

fits : num_bytes 2 10 ≡ 8
unfolding num_bytes
fits = refl

new_filter-may_contain_example :
    may_contain (new_filter (λ n. n) keys (pos 10)) 4000000000 ≡ some true
new_filter-may_contain_example =
    new_filter-may_contain (λ n. n) keys (pos 10) 4000000000 refl (omega (arith, fits))
