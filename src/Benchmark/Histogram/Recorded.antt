-- ===== src/Benchmark/Histogram/Recorded.antt =====
-- What a histogram holds of the values that were added.
use cpp_rt_pubsub.Prelude.{
  ℕ, zero, suc, ◌-◌, ◌^◌, ◌≤◌, ◌<◌, ◌≡◌, refl, sym, ◌∙◌, ap, subst, false, List, [], ◌∷◌, ◌++◌,
  append_assoc, append-nil, length, length-append, length-replicate, set, take, take_all, replicate,
  leb, leb-true, leb-false, Bool-cases, inl, inr, arith,
}
use cpp_rt_pubsub.Benchmark.Histogram.{Histogram, add}

unfoldable pub add_all : Histogram → List ℕ → Histogram
add_all h [] = h
add_all h (v ∷ vs) = add_all (add h v).0 vs

abbrev pub zeros : ℕ → List ℕ
zeros n = replicate n 0

length-zeros : (n : ℕ) → length (zeros n) ≡ n
length-zeros n = length-replicate n 0

-- The histogram holds these values, in a vector of this size.
pub record Holds (size : ℕ) (xs : List ℕ) (h : Histogram) : Type 0 where
  pub stored : h.values ≡ xs ++ zeros (size - length xs)
  pub counted : h.next_index ≡ length xs
  pub room : length xs ≤ size

set-append :
    (xs : List ℕ) (y v : ℕ) (ys : List ℕ) → set (xs ++ y ∷ ys) (length xs) v ≡ (xs ++ v ∷ []) ++ ys
set-append [] y v ys = refl
set-append (x ∷ xs) y v ys = ap (◌∷◌ x) (set-append xs y v ys)

zeros-suc : (n : ℕ) → 0 < n → zeros n ≡ 0 ∷ zeros (n - 1)
zeros-suc zero h = absurd (omega arith)
zeros-suc (suc n) h = let e : suc n - 1 ≡ n = omega arith in rw e refl

module _ (size : ℕ) (small : size < 2 ^ 32) where
  length-values : (xs : List ℕ) (h : Histogram) → Holds size xs h → length h.values ≡ size
  length-values xs h v =
      ap length v.stored
      ∙ length-append xs (zeros (size - length xs))
      ∙ omega (arith, length-zeros (size - length xs), v.room)

  add-room :
      (xs : List ℕ) (h : Histogram) (v : ℕ)
      → Holds size xs h
      → length xs < size
      → Holds size (xs ++ v ∷ []) (add h v).0
  unfolding add
  add-room xs h v k lt =
      let len = length-values xs h k in
      let off : leb (length h.values) h.next_index ≡ false =
        leb-false (length h.values) h.next_index (omega (arith, len, k.counted)) in
      let more = length-append xs (v ∷ []) in
      let fewer : size - length xs - 1 ≡ size - length (xs ++ v ∷ []) = omega (arith, more) in
      rw off (record {
        stored =
            ap (λ vs. set vs h.next_index v)
              (k.stored ∙ ap (λ t. xs ++ t) (zeros-suc (size - length xs) (omega arith)))
            ∙ ap (λ i. set (xs ++ 0 ∷ zeros (size - length xs - 1)) i v) k.counted
            ∙ set-append xs 0 v (zeros (size - length xs - 1))
            ∙ ap (λ n. (xs ++ v ∷ []) ++ zeros n) fewer;
        counted = omega (arith, k.counted, more);
        room = omega (arith, more);
      })

  add-full :
      (xs : List ℕ) (h : Histogram) (v : ℕ)
      → Holds size xs h
      → size ≤ length xs
      → add h v ≡ (h, false)
  unfolding add
  add-full xs h v k full =
      let len = length-values xs h k in
      rw (leb-true (length h.values) h.next_index (omega (arith, len, k.counted))) refl

  pub add_all-Holds :
      (vs xs : List ℕ) (h : Histogram)
      → Holds size xs h
      → Holds size (xs ++ take (size - length xs) vs) (add_all h vs)
  unfolding add_all
  add_all-Holds [] xs h k =
      subst (λ t. Holds size t h)
        (sym (append-nil xs)
          ∙ ap (λ t. xs ++ t) (sym (take_all (size - length xs) [] (omega arith))))
        k
  add_all-Holds (v ∷ vs) xs h k = elim (Bool-cases (leb size (length xs))) [
    | inl full ↦
        let none_left : size - length xs ≡ 0 = ground arith in
        let same : (add h v).0 ≡ h = ap (λ r. r.0) (add-full xs h v k (ground arith)) in
        let ih = add_all-Holds vs xs h k in rw same (rw none_left (rw none_left at ih))
    | inr free ↦
        let lt : length xs < size = ground arith in
        let more = length-append xs (v ∷ []) in
        let ih = add_all-Holds vs (xs ++ v ∷ []) (add h v).0 (add-room xs h v k lt) in
        let fewer : size - length xs ≡ suc (size - length (xs ++ v ∷ [])) = omega (arith, more) in
        subst (λ t. Holds size t (add_all (add h v).0 vs))
          (append_assoc xs (v ∷ []) (take (size - length (xs ++ v ∷ [])) vs)
            ∙ ap (λ n. xs ++ take n (v ∷ vs)) (sym fewer))
          ih
  ]
