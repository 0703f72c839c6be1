-- ===== src/Benchmark/Histogram/Average.antt =====
-- The average that `json_data` reports, where `double` does not round the sum.
use cpp_rt_pubsub.Prelude.{
  ℕ, ◌+◌, ◌^◌, ◌≤◌, ◌<◌, ◌≡◌, ◌∙◌, ap, List, [], ◌∷◌, ok, length, take, All, arith,
}
use cpp_rt_pubsub.Benchmark.Histogram.{new_histogram, Double, JsonData, json_data}
use cpp_rt_pubsub.Benchmark.Histogram.Recorded.{add_all}
use cpp_rt_pubsub.Benchmark.Histogram.Summarized.{add_up, json_data-add_all}

abbrev pub sum_of : List ℕ → ℕ
sum_of [] = 0
sum_of (x ∷ xs) = x + sum_of xs

-- Integers up to 2 ^ 53 are added without rounding.
pub record IsExact (double : Double) : Type 0 where
  pub plus-of_nat :
      (a b : ℕ)
      → a + b ≤ 2 ^ 53
      → double.plus (double.of_nat a) (double.of_nat b) ≡ double.of_nat (a + b)

-- A value is at most the sum that it is in.
each_small : (xs : List ℕ) → sum_of xs ≤ 2 ^ 53 → All (λ v. v < 2 ^ 64) xs
each_small [] h = tt
each_small (x ∷ xs) h = (omega arith, each_small xs (omega arith))

module _ (double : Double) where
  add_up-exact :
      IsExact double
      → (xs : List ℕ) (acc : ℕ) → acc + sum_of xs ≤ 2 ^ 53
      → add_up double (double.of_nat acc) xs ≡ double.of_nat (acc + sum_of xs)
  add_up-exact exact [] acc h = ap double.of_nat (omega arith)
  add_up-exact exact (x ∷ xs) acc h =
      ap (λ a. add_up double a xs) (exact.plus-of_nat acc x (omega arith))
      ∙ add_up-exact exact xs (acc + x) (omega arith)
      ∙ ap double.of_nat (omega arith)

  -- If `double` adds integers up to 2 ^ 53 without rounding, and the values that a new histogram of fewer
  -- than 2 ^ 32 entries holds have a sum of at most that: the average that `json_data` reports is their
  -- exact sum, divided by their number.
  pub json_data-average :
      IsExact double
      → (size : ℕ) (vs : List ℕ) → size < 2 ^ 32
      → sum_of (take size vs) ≤ 2 ^ 53
      → (d : JsonData double) × (json_data double (add_all (new_histogram size) vs) ≡ ok d)
        × (d.average
            ≡ double.over
                (double.of_nat (sum_of (take size vs)))
                (double.of_nat (length (take size vs))))
  json_data-average exact size vs small few =
      let (d, e, r) = json_data-add_all double size small vs (each_small (take size vs) few) in
      (
        d,
        e,
        r.averaged
            ∙ ap (λ a. double.over a (double.of_nat (length (take size vs))))
                (add_up-exact exact (take size vs) 0 (omega arith)
                  ∙ ap double.of_nat (omega arith)),
      )
