-- ===== src/Broker/Counters.antt =====
-- The packet counters of the clients: which packets of a client the broker lets through.
use cpp_rt_pubsub.Prelude.{
  ℕ, zero, suc, ◌+◌, ◌^◌, ◌<◌, ◌≡◌, refl, ◌∙◌, ap, subst, ◌≢◌, Bool, true, false, String, List, [],
  ◌∷◌, some, arith, eq_iff, All, length, replicate, str_eq, if◌then◌else◌, ==-ne, ==-refl,
  str_eq_refl,
}
use cpp_rt_pubsub.Json.{lookup}
use cpp_rt_pubsub.Broker.{Broker, to_u32, assign, counter_step, verify_and_update_client_counter}

-- An assignment changes one key.
pub lookup-assign :
    (k j : String) (c : ℕ) (m : List (String × ℕ))
    → lookup j (assign k c m) ≡ (if str_eq k j then some c else lookup j m)
unfolding lookup assign
lookup-assign k j c [] = refl
lookup-assign k j c ((i, d) ∷ m) =
    ground (arith, eq_iff k j, eq_iff i k, eq_iff i j, lookup-assign k j c m)

pub lookup-assign_self :
    (k : String) (c : ℕ) (m : List (String × ℕ)) → lookup k (assign k c m) ≡ some c
lookup-assign_self k c m = lookup-assign k k c m ∙ rw (str_eq_refl k)

-- The counter check over the counters of a client's packets, in the order of arrival.
pub verify_all : Broker → String → List ℕ → Broker × List Bool
verify_all b client [] = (b, [])
verify_all b client (c ∷ cs) =
    let (b', accepted) = verify_and_update_client_counter b client c in
    let (b'', rest) = verify_all b' client cs in (b'', accepted ∷ rest)

-- The counters that a node gives its next `n` packets, after `last` (`Node::next_bp_counter`).
pub counters_after : ℕ → ℕ → List ℕ
counters_after last zero = []
counters_after last (suc n) = to_u32 (last + 1) ∷ counters_after (to_u32 (last + 1)) n

module _ (b : Broker) (client : String) {last : ℕ}
    (known : lookup client b.client_counters ≡ some last) where
  -- The packet in sequence is let through, and is the last one from then on.
  pub verify-next :
      (verify_and_update_client_counter b client (to_u32 (last + 1)))
      ≡ (record b { client_counters = assign client (to_u32 (last + 1)) b.client_counters }, true)
  unfolding verify_and_update_client_counter
  verify-next = rw (known, counter_step, ==-refl (to_u32 (last + 1)))

  -- Any other packet is dropped, and the counter stays.
  verify-other :
      (c : ℕ) → to_u32 (last + 1) ≢ c → verify_and_update_client_counter b client c ≡ (b, false)
  unfolding verify_and_update_client_counter
  verify-other c ne = rw (known, counter_step, ==-ne (to_u32 (last + 1)) c ne)

verify_all-others :
    (cs : List ℕ) (b : Broker) (client : String) {last : ℕ}
    → lookup client b.client_counters ≡ some last
    → All (λ c. to_u32 (last + 1) ≢ c) cs
    → verify_all b client cs ≡ (b, replicate (length cs) false)
unfolding verify_all
verify_all-others [] b client known h = refl
verify_all-others (c ∷ cs) b client known h =
    rw (verify-other b client known c h.0, verify_all-others cs b client known h.1)

-- While no packet of a client with a known counter is lost, every one is let through, also where
-- the 32-bit counter wraps around.
pub in_sequence-accepted :
    (n : ℕ) (b : Broker) (client : String) {last : ℕ}
    → lookup client b.client_counters ≡ some last
    → (verify_all b client (counters_after last n)).1 ≡ replicate n true
unfolding verify_all counters_after
in_sequence-accepted zero b client known = refl
in_sequence-accepted (suc n) b client {last} known = rw (verify-next b client known) (
    ap (◌∷◌ true) (
      in_sequence-accepted n _ client
        (lookup-assign_self client (to_u32 (last + 1)) b.client_counters)))

length-counters_after : (last n : ℕ) → length (counters_after last n) ≡ n
unfolding counters_after
length-counters_after last zero = refl
length-counters_after last (suc n) = ap suc (length-counters_after (to_u32 (last + 1)) n)

-- Counting on from `x + k` does not come back to `x` within 2 ^ 32 packets.
counters_after-ne :
    (x k n : ℕ) → x < 2 ^ 32 → k + n < 2 ^ 32 → All (λ c. x ≢ c) (counters_after (to_u32 (x + k)) n)
unfolding counters_after
counters_after-ne x k zero hx h = tt
counters_after-ne x k (suc n) hx h = (
  (λ e. omega arith),
  subst (λ y. All (λ c. x ≢ c) (counters_after y n)) (omega arith)
      (counters_after-ne x (k + 1) n hx (omega arith)),
)

-- After one lost packet of a client with a known counter the broker drops its later packets, any
-- number of them below 2 ^ 32, and its tables do not change.
pub lost_packet_locks_out :
    (n : ℕ) (b : Broker) (client : String) {last : ℕ}
    → lookup client b.client_counters ≡ some last
    → n < 2 ^ 32
    → verify_all b client (counters_after (to_u32 (last + 1)) n) ≡ (b, replicate n false)
lost_packet_locks_out n b client {last} known h =
    let lost = to_u32 (last + 1) in
    let never : All (λ c. lost ≢ c) (counters_after lost n) =
      subst (λ y. All (λ c. lost ≢ c) (counters_after y n)) (omega arith)
        (counters_after-ne lost 0 n (omega arith) (omega arith)) in
    verify_all-others (counters_after lost n) b client known never
    ∙ rw (length-counters_after lost n)
