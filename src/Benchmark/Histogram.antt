-- ===== src/Benchmark/Histogram.antt =====
-- src/benchmark_main.cpp: `Histogram`. What the code does with a `double` is a parameter.
pub mod Recorded
pub mod Summarized
pub mod Average
mod Tests
use cpp_rt_pubsub.Prelude.{
  ℕ, zero, suc, ◌+◌, ◌-◌, ◌%◌, ◌^◌, Bool, true, false, List, [], ◌∷◌, Result, ok, err, ◌>>=◌,
  out_of_bounds, length, set, take, replicate, ltb, leb, if◌then◌else◌,
}
use cpp_rt_pubsub.Broker.{index}

pub record Histogram : Type 0 where
  pub values : List ℕ
  pub next_index : ℕ

abbrev pub new_histogram : ℕ → Histogram
new_histogram p_size = record { values = replicate p_size 0; next_index = 0 }

unfoldable pub add : Histogram → ℕ → Histogram × Bool
add h p_value = if leb (length h.values) h.next_index then (h, false) else (
  record { values = set h.values h.next_index p_value; next_index = (h.next_index + 1) % 2 ^ 32 },
  true,
)

-- `double`: the conversion of an unsigned integer, and the addition and division, which round.
pub record Double : Type 1 where
  pub Value : Type 0
  pub of_nat : ℕ → Value
  pub plus : Value → Value → Value
  pub over : Value → Value → Value

module _ (double : Double) where
  -- The local variables of `json_data`.
  pub record Summary : Type 0 where
    pub min_value : ℕ
    pub max_value : ℕ
    pub average_value : double.Value

  abbrev pub no_values : Summary
  no_values = record { min_value = 2 ^ 64 - 1; max_value = 0; average_value = double.of_nat 0 }

  abbrev pub include : Summary → ℕ → Summary
  include s value = record {
    min_value = if ltb value s.min_value then value else s.min_value;
    max_value = if ltb s.max_value value then value else s.max_value;
    average_value = double.plus s.average_value (double.of_nat value);
  }

  -- The loop, with the rounds that are left.
  unfoldable pub summarize : List ℕ → ℕ → ℕ → Summary → Result Summary
  summarize values zero i s = ok s
  summarize values (suc k) i s = do
    value ← index values i
    summarize values k (suc i) (include s value)

  -- The entries of the JSON object.
  pub record JsonData : Type 0 where
    pub min : ℕ
    pub max : ℕ
    pub average : double.Value
    pub values_count : ℕ
    pub values : List ℕ

  abbrev pub data_of : Summary → ℕ → List ℕ → JsonData
  data_of s values_count values = record {
    min = s.min_value;
    max = s.max_value;
    average = double.over s.average_value (double.of_nat values_count);
    values_count = values_count;
    values = values;
  }

  unfoldable pub json_data : Histogram → Result JsonData
  json_data h = do
    s ← summarize h.values h.next_index 0 no_values
    if leb h.next_index (length h.values)
        then ok (data_of s h.next_index (take h.next_index h.values))
        else err out_of_bounds
