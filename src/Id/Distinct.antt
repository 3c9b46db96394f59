-- ===== src/Id/Distinct.antt =====
-- id.go: the ids of one generator.
use durex.Prelude.{◌≡◌, ◌≢◌, ℕ, suc, ◌+◌, ◌%◌, ◌≤◌, ◌<◌, String, List, [], ◌∷◌, length, All, arith}
use durex.Id.{DefaultIdGenerator, Sprintf, generate, add_uint64}

-- the ids of calls, each at a time and with random bytes
abbrev pub generate_all : Sprintf → DefaultIdGenerator → List (ℕ × List ℕ) → List String
generate_all sprintf g [] = []
generate_all sprintf g ((ts, random) ∷ calls) =
    let (id, g') = generate sprintf g ts random in id ∷ generate_all sprintf g' calls

abbrev pub AllDistinct : List String → Type 0
AllDistinct [] = Unit
AllDistinct (id ∷ ids) = All (λ other. id ≢ other) ids × AllDistinct ids

module _ (sprintf : Sprintf)
    (prints_count : (t n : ℕ) (r : List ℕ) (t' n' : ℕ) (r' : List ℕ)
      → sprintf t n r ≡ sprintf t' n' r'
      → n ≡ n') where
  later-Differ :
      (t c : ℕ) (r : List ℕ) (k : ℕ) (g : DefaultIdGenerator) (calls : List (ℕ × List ℕ))
      → g.counter ≡ (c + k) % 18446744073709551616
      → k + length calls < 18446744073709551616
      → All (λ other. sprintf t (c % 18446744073709551616) r ≢ other) (generate_all sprintf g calls)
  unfolding generate
  later-Differ t c r k g [] h b = tt
  later-Differ t c r k g ((u, s) ∷ calls) h b = (
    λ same. omega (arith, prints_count t _ r u _ s same, h, b),
    later-Differ t c r (suc k) (record { counter = add_uint64 g.counter }) calls (omega arith)
        (omega arith),
  )

  -- Up to 2^64 ids that one generator makes are pairwise distinct, whatever the clock and the
  -- random bytes are, if fmt prints ids of different counts differently.
  pub generate-AllDistinct :
      (g : DefaultIdGenerator) (calls : List (ℕ × List ℕ))
      → length calls ≤ 18446744073709551616
      → AllDistinct (generate_all sprintf g calls)
  unfolding generate
  generate-AllDistinct g [] b = tt
  generate-AllDistinct g ((t, r) ∷ calls) b = (
    later-Differ t (g.counter + 1) r 0 (record { counter = add_uint64 g.counter }) calls
        (omega arith) (omega arith),
    generate-AllDistinct (record { counter = add_uint64 g.counter }) calls (omega arith),
  )
