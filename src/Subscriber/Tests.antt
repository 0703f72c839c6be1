-- ===== src/Subscriber/Tests.antt =====
-- A subscriber's history, and its theorem at a concrete input.
use cpp_rt_pubsub.Prelude.{ℕ, ◌≡◌, refl, true, false, List, [], ◌∷◌, ◌++◌, Bytes, ok, arith, pos}
use cpp_rt_pubsub.Subscriber.{new_subscriber, message_queue_capacity}
use cpp_rt_pubsub.MessageQueue.Fifo.{spec_push}
use cpp_rt_pubsub.Subscriber.Delivery.{
  Event, arrive, dispatch, run, spec_step, spec_run, run-new_subscriber,
}

-- A callback that notes the messages.
abbrev note : Bytes → ℕ → List Bytes → List Bytes
note message size seen = seen ++ message ∷ []

abbrev events : List Event
events = dispatch ∷ arrive (1 ∷ 2 ∷ 3 ∷ []) ∷ arrive (4 ∷ 5 ∷ []) ∷ dispatch ∷ dispatch ∷ []

spec_events :
    spec_run note message_queue_capacity 2 [] [] events
    ≡ ((1 ∷ 2 ∷ []) ∷ (4 ∷ 5 ∷ []) ∷ [], false ∷ true ∷ true ∷ true ∷ true ∷ [])
unfolding spec_run spec_step spec_push
spec_events = refl

run-new_subscriber_example :
    run note (new_subscriber "/pose" "Pose" 2 (pos 5)) [] events
    ≡ ok (spec_run note message_queue_capacity 2 [] [] events)
run-new_subscriber_example =
    run-new_subscriber note "/pose" "Pose" 2 (pos 5) [] events (omega arith)
      (tt, (omega arith, (omega arith, (tt, (tt, tt)))))
