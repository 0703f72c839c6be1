-- ===== src/Publisher/Tests.antt =====
-- A publisher at concrete inputs.
use cpp_rt_pubsub.Prelude.{false, ◌≡◌, [], ◌∷◌, ok, arith, pos}
use cpp_rt_pubsub.MessageQueue.Fifo.{contents, spec_push}
use cpp_rt_pubsub.Publisher.{Publisher, new_publisher, publish}
use cpp_rt_pubsub.Publisher.Queued.{Ready, new_publisher-Ready, publish_lem}

abbrev poses : Publisher
poses = new_publisher "/pose" "Pose" 2 (pos 5) 17

publish_lem_example :
    (p' : Publisher) × (publish poses (7 ∷ 8 ∷ [])
      ≡ ok (
        p',
        (spec_push poses.message_queue.queue_capacity 2
            (contents 17 poses.message_queue)
            (7 ∷ 8 ∷ [])).1,
      ))
    × Ready p'
    × (contents 17 p'.message_queue
        ≡ (spec_push poses.message_queue.queue_capacity 2
            (contents 17 poses.message_queue)
            (7 ∷ 8 ∷ [])).0)
    × (p' ≡ record poses { message_queue = p'.message_queue })
    × ((spec_push poses.message_queue.queue_capacity 2
            (contents 17 poses.message_queue)
            (7 ∷ 8 ∷ [])).1
          ≡ false
        → p' ≡ poses)
publish_lem_example =
    publish_lem poses (7 ∷ 8 ∷ []) (new_publisher-Ready "/pose" "Pose" 2 (pos 5) (omega arith)).0
      (omega arith)
