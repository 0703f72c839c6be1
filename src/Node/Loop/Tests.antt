-- ===== src/Node/Loop/Tests.antt =====
-- A node with a publisher and a subscriber of one topic, and callbacks that count their messages.
use cpp_rt_pubsub.Prelude.{
  ℕ, suc, ◌≡◌, refl, Bool, true, false, List, [], ◌∷◌, ◌++◌, some, Bytes, Ensures, Result, ok,
  arith, pos, replicate,
}
use cpp_rt_pubsub.Json.Sample.{sample}
use cpp_rt_pubsub.MessageQueue.{make}
use cpp_rt_pubsub.Publisher.{Publisher}
use cpp_rt_pubsub.Node.Tests.{poses, poses-Ready}
use cpp_rt_pubsub.Node.Incoming.{Event, would_block, received}
use cpp_rt_pubsub.Node.Incoming.Tests.{display, display-IsValid, pose, pose-Decodes}
use cpp_rt_pubsub.Node.State.{Node, TopicInfo}
use cpp_rt_pubsub.Node.Loop.{
  Loop, SpinOnceResult, result_of, goes_on, spin_once, spin, spin_while_work,
}
use cpp_rt_pubsub.Node.Loop.Kept.{IsValid, Kept}
use cpp_rt_pubsub.Node.Loop.Refused.{Continues, LastRefused}
use cpp_rt_pubsub.Node.Loop.Turns.{Behaves}
use cpp_rt_pubsub.Node.Loop.Safe.{spin_once-IsValid, spin-Kept}
use cpp_rt_pubsub.Node.Loop.Waiting.{Quiet}
use cpp_rt_pubsub.Node.Loop.Drain.{spin_while_work_ends}
use cpp_rt_pubsub.Node.Loop.Packets.{InOrder}
use cpp_rt_pubsub.Node.Loop.Ordered.{spin_once-InOrder}

abbrev clients : TopicInfo
clients = record { publishers = 0 ∷ []; subscribers = 0 ∷ [] }

abbrev robot : Node
robot = record {
  name = "robot";
  node_id = 0;
  publishers = poses ∷ [];
  subscribers = display.subscribers;
  topics = (3, clients) ∷ [];
  topics_by_prio = (pos 5, clients) ∷ [];
  bp_counter = 6;
  buffer = display.buffer;
}

robot-IsValid : IsValid robot
robot-IsValid = record {
  receives = display-IsValid;
  ready = (poses-Ready, tt);
  publishers = ((omega arith, tt), tt);
  subscribers = ((omega arith, tt), tt);
}

abbrev count : ℕ → Bytes → ℕ → ℕ × List Publisher → Result (ℕ × List Publisher)
count i m size (u, ps) = ok (suc u, ps)

count-Behaves : Behaves count
count-Behaves i m u ps r = (suc u, ps, refl, r, refl)

count-Quiet : Quiet count
count-Quiet i m size u ps = omega arith

-- Every `sendto` succeeds.
abbrev accept_all : List Bytes → Bytes → Bool
accept_all sent packet = true

spin_once-IsValid_example :
    (l : Loop ℕ) × (r : SpinOnceResult) × (spin_once count accept_all sample robot 0 []
        (received pose)
      ≡ ok (l, r))
    × Kept robot l.node
    × Continues [] l.sent
    × (goes_on r ≡ false → LastRefused accept_all [] l.sent)
spin_once-IsValid_example =
    spin_once-IsValid count accept_all count-Behaves sample robot 0 [] (received pose) robot-IsValid
      pose-Decodes

abbrev events : List Event
events = received pose ∷ would_block ∷ received (2 ∷ []) ∷ []

spin-Kept_example :
    Ensures
      (λ r.
        Kept robot r.0.node
        × ((b : Bool) → r.1 ≡ some b → (b ≡ false) × LastRefused accept_all [] r.0.sent))
      (spin count accept_all sample robot 0 [] events)
spin-Kept_example = spin-Kept count accept_all count-Behaves sample events robot 0 [] robot-IsValid

spin_while_work_ends_example :
    (l : Loop ℕ) × (b : Bool) × (spin_while_work count accept_all sample robot 0 []
        (replicate 2 would_block)
      ≡ ok (l, some b))
    × Kept robot l.node
    × (b ≡ false → LastRefused accept_all [] l.sent)
spin_while_work_ends_example =
    spin_while_work_ends count accept_all count-Quiet count-Behaves sample 2 robot 0 []
      robot-IsValid (omega arith)

-- Nothing has arrived, and the publisher has a message waiting.
spin_once-InOrder_example :
    (l : Loop ℕ) × (packets : List Bytes) × (spin_once count accept_all sample robot 0 []
        would_block
      ≡ ok (l, result_of (l, true)))
    × (l.sent ≡ [] ++ packets)
    × InOrder sample (poses ∷ []) 6 l.node.bp_counter (0 ∷ []) packets
unfolding make
spin_once-InOrder_example =
    spin_once-InOrder sample count accept_all robot 0 [] robot-IsValid (tt, tt)
      (((omega arith, refl), tt), tt) (λ before packet. refl)
