-- ===== src/Utils/Dispatcher/Tests.antt =====
-- Runs of the dispatcher, and its theorems at concrete inputs.
use gotgcall.Utils.Dispatcher.Sequential.{submits, submits-queue}
use gotgcall.Utils.Dispatcher.Interleaved.{
  Action, World, act, call_steps, calls_submit, closes, loop_receives, run, submit_among,
  submit_among-returns,
}
use gotgcall.Utils.Dispatcher.{
  Dispatcher, close, done, enqueue, loop_step, receive, start, submit, submit_step,
}
use gotgcall.Base.{List, [], arith, false, refl, some, ℕ, ◌∷◌, ◌≡◌}

abbrev two_waiting : Dispatcher ℕ
two_waiting = record { queue = 1 ∷ 2 ∷ []; cap = 2; closed = false; sent = 1 ∷ 2 ∷ []; taken = [] }

abbrev world : World ℕ
world = record { disp = two_waiting; calls = [] }

-- Two calls of Submit make room at the same time: the second finds the channel full again.
abbrev race : List (Action ℕ)
race =
    calls_submit (some 3)
    ∷ calls_submit (some 4)
    ∷ call_steps 0
    ∷ call_steps 1
    ∷ call_steps 0
    ∷ call_steps 1
    ∷ call_steps 0
    ∷ call_steps 1
    ∷ call_steps 0
    ∷ call_steps 1
    ∷ call_steps 0
    ∷ call_steps 1
    ∷ loop_receives
    ∷ closes
    ∷ []

dropped_oldest : (submit two_waiting (some 3)).queue ≡ 2 ∷ 3 ∷ []
unfolding submit submit_step enqueue receive
dropped_oldest = refl

race_result : (run world race).disp.queue ≡ 4 ∷ []
unfolding run act submit_step enqueue receive loop_step close
race_result = refl

submits-queue_example : (submits two_waiting (3 ∷ 4 ∷ 5 ∷ [])).queue ≡ 4 ∷ 5 ∷ []
submits-queue_example = submits-queue two_waiting (3 ∷ 4 ∷ 5 ∷ []) refl (omega arith) (omega arith)

submit_among-returns_example :
    (submit_among
      (close ∷ loop_step ∷ loop_step ∷ close ∷ loop_step ∷ [])
      (start (some 3))
      two_waiting).0
    ≡ done
submit_among-returns_example =
    submit_among-returns (some 3) (close ∷ loop_step ∷ loop_step ∷ close ∷ loop_step ∷ [])
      two_waiting (omega arith)
