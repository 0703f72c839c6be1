-- ===== src/Benchmark/Histogram/Tests.antt =====
-- A histogram of two entries that gets three values, with fractions for `double`.
use cpp_rt_pubsub.Prelude.{ℕ, ◌+◌, ◌*◌, ◌≡◌, ap₂, List, [], ◌∷◌, ok, take, length, arith}
use cpp_rt_pubsub.Benchmark.Histogram.{new_histogram, Double, JsonData, json_data}
use cpp_rt_pubsub.Benchmark.Histogram.Recorded.{add_all}
use cpp_rt_pubsub.Benchmark.Histogram.Summarized.{Reports, json_data-add_all}
use cpp_rt_pubsub.Benchmark.Histogram.Average.{IsExact, sum_of, json_data-average}

-- Numerator and denominator; the denominator of NaN is 0.
abbrev fractions : Double
fractions = record {
  Value = ℕ × ℕ;
  of_nat = λ n. (n, 1);
  plus = λ x y. (x.0 * y.1 + y.0 * x.1, x.1 * y.1);
  over = λ x y. (x.0 * y.1, x.1 * y.0);
}

fractions-IsExact : IsExact fractions
fractions-IsExact = record {
  plus-of_nat = λ a b h. ap₂ (λ n m. (n, m)) (omega arith) (omega arith);
}

abbrev latencies : List ℕ
latencies = 700 ∷ 300 ∷ 900 ∷ []

json_data-add_all_example :
    (d : JsonData fractions) × (json_data fractions (add_all (new_histogram 2) latencies) ≡ ok d)
    × Reports fractions d (take 2 latencies)
json_data-add_all_example =
    json_data-add_all fractions 2 (omega arith) latencies (omega arith, (omega arith, tt))

json_data-average_example :
    (d : JsonData fractions) × (json_data fractions (add_all (new_histogram 2) latencies) ≡ ok d)
    × (d.average
        ≡ fractions.over
            (fractions.of_nat (sum_of (take 2 latencies)))
            (fractions.of_nat (length (take 2 latencies))))
json_data-average_example =
    json_data-average fractions fractions-IsExact 2 latencies (omega arith) (omega arith)
