-- ===== src/Benchmark/Histogram/Summarized.antt =====
-- What `json_data` says of the values that were added to a histogram.
use cpp_rt_pubsub.Prelude.{
  ℕ, suc, ◌-◌, ◌^◌, ◌≤◌, ◌<◌, ◌≡◌, ◌≢◌, ◌⊎◌, refl, sym, ◌∙◌, ap, List, [], ◌∷◌, ◌++◌, append_assoc,
  ok, length, length-append, take, take-append, ltb, leb-true, All, Bool-cases, inl, inr, arith,
}
use cpp_rt_pubsub.Broker.{index}
use cpp_rt_pubsub.Benchmark.Histogram.{
  Histogram, new_histogram, Double, Summary, data_of, no_values, include, summarize, JsonData,
  json_data,
}
use cpp_rt_pubsub.Benchmark.Histogram.Recorded.{add_all, Holds, zeros, add_all-Holds}

abbrev pub IsIn : ℕ → List ℕ → Type 0
IsIn x [] = ⊥
IsIn x (y ∷ ys) = (x ≡ y) ⊎ IsIn x ys

index-append : (pre : List ℕ) (y : ℕ) (rest : List ℕ) → index (pre ++ y ∷ rest) (length pre) ≡ ok y
unfolding index
index-append [] y rest = refl
index-append (x ∷ pre) y rest = unfold index in index-append pre y rest

met-step :
    {x m c p : ℕ} (xs : List ℕ)
    → (m ≡ c) ⊎ IsIn m xs
    → (c ≡ p) ⊎ (c ≡ x)
    → (m ≡ p) ⊎ ((m ≡ x) ⊎ IsIn m xs)
met-step xs (inl e) (inl f) = inl (e ∙ f)
met-step xs (inl e) (inr f) = inr (inl (e ∙ f))
met-step xs (inr h) f = inr (inr h)

-- The sum of values as `double` adds them, one after the other.
abbrev pub add_up : (double : Double) → double.Value → List ℕ → double.Value
add_up double acc [] = acc
add_up double acc (x ∷ xs) = add_up double (double.plus acc (double.of_nat x)) xs

module _ (double : Double) where
  abbrev include_all : List ℕ → Summary double → Summary double
  include_all [] s = s
  include_all (x ∷ xs) s = include_all xs (include double s x)

  summarize-include_all :
      (ys pre rest : List ℕ) (s : Summary double)
      → summarize double (pre ++ (ys ++ rest)) (length ys) (length pre) s ≡ ok (include_all ys s)
  unfolding summarize
  summarize-include_all [] pre rest s = refl
  summarize-include_all (y ∷ ys) pre rest s =
      let longer = length-append pre (y ∷ []) in
      let next : suc (length pre) ≡ length (pre ++ y ∷ []) = omega (arith, longer) in
      rw (index-append pre y (ys ++ rest), next)
        (ap (λ t. summarize double t (length ys) (length (pre ++ y ∷ [])) (include double s y))
            (sym (append_assoc pre (y ∷ []) (ys ++ rest)))
          ∙ summarize-include_all ys (pre ++ y ∷ []) rest (include double s y))

  -- The bounds of a list of values, within those of what was there before.
  record Bounds (xs : List ℕ) (s t : Summary double) : Type 0 where
    below : All (λ x. t.min_value ≤ x) xs
    above : All (λ x. x ≤ t.max_value) xs
    lower : t.min_value ≤ s.min_value
    higher : s.max_value ≤ t.max_value
    min_met : (t.min_value ≡ s.min_value) ⊎ IsIn t.min_value xs
    max_met : (t.max_value ≡ s.max_value) ⊎ IsIn t.max_value xs
    summed : t.average_value ≡ add_up double s.average_value xs

  include-least :
      (s : Summary double) (x : ℕ)
      → ((include double s x).min_value ≤ x)
        × ((include double s x).min_value ≤ s.min_value)
        × (((include double s x).min_value ≡ s.min_value) ⊎ ((include double s x).min_value ≡ x))
  include-least s x = elim (Bool-cases (ltb x s.min_value)) [
    | inl e ↦ rw e (omega arith, ground arith, inr refl)
    | inr e ↦ rw e (ground arith, omega arith, inl refl)
  ]

  include-greatest :
      (s : Summary double) (x : ℕ)
      → (x ≤ (include double s x).max_value)
        × (s.max_value ≤ (include double s x).max_value)
        × (((include double s x).max_value ≡ s.max_value) ⊎ ((include double s x).max_value ≡ x))
  include-greatest s x = elim (Bool-cases (ltb s.max_value x)) [
    | inl e ↦ rw e (omega arith, ground arith, inr refl)
    | inr e ↦ rw e (ground arith, omega arith, inl refl)
  ]

  include_all-Bounds : (xs : List ℕ) (s : Summary double) → Bounds xs s (include_all xs s)
  include_all-Bounds [] s = record {
    below = tt;
    above = tt;
    lower = omega arith;
    higher = omega arith;
    min_met = inl refl;
    max_met = inl refl;
    summed = refl;
  }
  include_all-Bounds (x ∷ xs) s =
      let ih = include_all-Bounds xs (include double s x) in
      let (under, lower', least) = include-least s x in
      let (over, higher', greatest) = include-greatest s x in
      record {
        below = (omega (arith, ih.lower, under), ih.below);
        above = (omega (arith, ih.higher, over), ih.above);
        lower = omega (arith, ih.lower, lower');
        higher = omega (arith, ih.higher, higher');
        min_met = met-step xs ih.min_met least;
        max_met = met-step xs ih.max_met greatest;
        summed = ih.summed;
      }

  -- What `json_data` says of a list of values.
  pub record Reports (d : JsonData double) (xs : List ℕ) : Type 0 where
    pub same : d.values ≡ xs
    pub counted : d.values_count ≡ length xs
    pub averaged :
        d.average ≡ double.over (add_up double (double.of_nat 0) xs) (double.of_nat (length xs))
    pub below : All (λ x. d.min ≤ x) xs
    pub above : All (λ x. x ≤ d.max) xs
    pub attained : xs ≢ [] → IsIn d.min xs × IsIn d.max xs

  -- The extremes are met, also where they are those of the initial values.
  attained_by :
      (xs : List ℕ) (t : Summary double)
      → All (λ x. x < 2 ^ 64) xs
      → Bounds xs (no_values double) t
      → xs ≢ []
      → IsIn t.min_value xs × IsIn t.max_value xs
  attained_by [] t h b ne = absurd (ne refl)
  attained_by (x ∷ xs) t h b ne = (least b.min_met, greatest b.max_met)
    where
      least : (t.min_value ≡ 2 ^ 64 - 1) ⊎ IsIn t.min_value (x ∷ xs) → IsIn t.min_value (x ∷ xs)
      least (inl e) = inl (omega (arith, b.below.0, h.0))
      least (inr i) = i

      greatest : (t.max_value ≡ 0) ⊎ IsIn t.max_value (x ∷ xs) → IsIn t.max_value (x ∷ xs)
      greatest (inl e) = inl (omega (arith, b.above.0))
      greatest (inr i) = i

  module _ (size : ℕ) (small : size < 2 ^ 32) where
    json_data-Holds :
        (xs : List ℕ) (h : Histogram)
        → Holds size xs h
        → json_data double h
          ≡ ok (data_of double (include_all xs (no_values double)) (length xs) xs)
    unfolding json_data
    json_data-Holds xs h k =
        let fits = length-append xs (zeros (size - length xs)) in
        rw
          (
            k.stored,
            k.counted,
            summarize-include_all xs [] (zeros (size - length xs)) (no_values double),
            leb-true (length xs) (length (xs ++ zeros (size - length xs))) (omega arith),
            take-append xs (zeros (size - length xs)),
          )
          refl

    -- A new histogram of fewer than 2 ^ 32 entries to which any number of 64-bit values is added:
    -- `json_data` does not fault, and reports the values that were added first, as many as there are
    -- entries, in their order, with their number; the average is what `double` makes of their sum, added
    -- up one after the other from 0, over their number, also where there are none; the minimum and the
    -- maximum are bounds of them, and are among them if there is any value.
    pub json_data-add_all :
        (vs : List ℕ)
        → All (λ v. v < 2 ^ 64) (take size vs)
        → (d : JsonData double) × (json_data double (add_all (new_histogram size) vs) ≡ ok d)
          × Reports d (take size vs)
    json_data-add_all vs h =
        let whole : size - 0 ≡ size = omega arith in
        let start : Holds size [] (new_histogram size) = record {
          stored = ap zeros (sym whole);
          counted = refl;
          room = omega arith;
        } in
        let held : Holds size (take size vs) (add_all (new_histogram size) vs) =
          rw whole at (add_all-Holds size small vs [] (new_histogram size) start) in
        let xs = take size vs in
        let b = include_all-Bounds xs (no_values double) in
        (
          data_of double (include_all xs (no_values double)) (length xs) xs,
          json_data-Holds xs (add_all (new_histogram size) vs) held,
          record {
            same = refl;
            counted = refl;
            averaged = ap (λ a. double.over a (double.of_nat (length xs))) b.summed;
            below = b.below;
            above = b.above;
            attained = attained_by xs (include_all xs (no_values double)) h b;
          },
        )
