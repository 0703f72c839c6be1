-- ===== src/MessageQueue/Tests.antt =====
-- Runs of `MessageQueue`, and its theorems at concrete inputs.
use cpp_rt_pubsub.Prelude.{
  ◌≡◌, refl, none, some, [], ◌∷◌, List, ok, err, out_of_bounds, true, false, arith, memcpy,
}
use cpp_rt_pubsub.MessageQueue.{make, push, pop, get, deref}
use cpp_rt_pubsub.MessageQueue.Fifo.{spec_push, spec_pop, read_front}
use cpp_rt_pubsub.MessageQueue.Run.{
  Op, put, drop_front, peek, done, seen, step, run, spec_step, spec_run, run-make,
}

abbrev script : List Op
script =
    peek
    ∷ put (1 ∷ 2 ∷ [])
    ∷ put (3 ∷ 4 ∷ 5 ∷ [])
    ∷ put (6 ∷ 7 ∷ [])
    ∷ drop_front
    ∷ put (8 ∷ 9 ∷ [])
    ∷ peek
    ∷ []

spec_script :
    spec_run 2 2 [] script
    ≡ seen none
      ∷ done true
      ∷ done true
      ∷ done false
      ∷ done true
      ∷ done true
      ∷ seen (some (3 ∷ 4 ∷ []))
      ∷ []
unfolding spec_run spec_step spec_push spec_pop
spec_script = refl

run-script : run 1 (make 3 2) script ≡ ok (spec_run 2 2 [] script)
unfolding run step read_front get pop push deref spec_run spec_step spec_push spec_pop make memcpy
run-script = refl

run-make_example : run 1 (make 3 2) script ≡ ok (spec_run 2 2 [] script)
run-make_example = run-make 3 2 1 script (omega arith) (omega arith) (omega arith)

-- Data shorter than a message make `memcpy` read past their end.
short_data_faults : push (make 3 2) (1 ∷ 2 ∷ []) none 0 ≡ err out_of_bounds
unfolding push make memcpy deref
short_data_faults = refl
