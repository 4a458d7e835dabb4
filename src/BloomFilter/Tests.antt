-- ===== src/BloomFilter/Tests.antt =====
-- Runs of the filter.
use cpp_url_shortener.Common.{◌≡◌, refl, true, false, [], ◌∷◌, arith, All, codes, fnv1a_from}
use cpp_url_shortener.BloomFilter.{
  BloomFilter, reset, hash, set_bit, get_bit, probe, add_loop, contain_loop, add, might_contain,
}
use cpp_url_shortener.BloomFilter.Membership.{add_all, might_contain-add_all}

program : Unit {0}
unfolding reset hash set_bit get_bit probe add_loop contain_loop add might_contain fnv1a_from
program = tt

-- One code in a filter of 1024 bits and 3 hashes.
one_code : BloomFilter
unfolding program
one_code = add (codes "8m0Kx") (reset 1024 3)

member_runs :
    (might_contain (codes "8m0Kx") one_code ≡ true)
    × (might_contain (codes "other") one_code ≡ false)
unfolding program one_code
member_runs = (refl, refl)

might_contain-add_all_example :
    All
      (λ v. might_contain v (add_all (codes "8m0Kx" ∷ codes "a" ∷ []) (reset 1024 3)) ≡ true)
      (codes "8m0Kx" ∷ codes "a" ∷ [])
might_contain-add_all_example =
    might_contain-add_all 1024 3 (codes "8m0Kx" ∷ codes "a" ∷ []) (omega arith)
