-- ===== src/Utils/Dispatcher/Interleaved.antt =====
-- Producers, the loop and Close of utils/synccallback.go in any order of their atomic steps.
use mathlib.Core.List.{map-append}
use gotgcall.Utils.Dispatcher.{
  Dispatcher, Pc, Taker, check_closed, close, done, enqueue, evict, loop, loop_step, receive,
  resend, send, start, submit_step, submitter, try_send,
}
use gotgcall.Base.{
  List, Option, [], ap, append_assoc, arith, length, length-append, map, none, refl, some, suc, sym,
  zero, ℕ, ◌++◌, ◌-◌, ◌<◌, ◌∙◌, ◌∷◌, ◌≡◌, ◌≤◌,
}

-- The dispatcher with the calls of Submit that have begun.
pub record World (A : Type 0) : Type 0 where
  pub disp : Dispatcher A
  pub calls : List (Pc A)

-- Who moves next: a producer calls Submit, the n-th call makes its next step, the loop receives,
-- or someone closes the dispatcher.
pub data Action (A : Type 0) : Type 0 where
  calls_submit : Option A → Action A
  call_steps : ℕ → Action A
  loop_receives : Action A
  closes : Action A

module _ {A : Type 0} where
  -- The n-th call makes a step; there may be no such call.
  step_call : ℕ → List (Pc A) → Dispatcher A → World A
  step_call n [] d = record { disp = d; calls = [] }
  step_call zero (p ∷ ps) d =
      let (p', d') = submit_step p d in record { disp = d'; calls = p' ∷ ps }
  step_call (suc n) (p ∷ ps) d =
      let w = step_call n ps d in record { disp = w.disp; calls = p ∷ w.calls }

  unfoldable pub act : World A → Action A → World A
  unfolding step_call
  act w (calls_submit fn) = record w { calls = w.calls ++ start fn ∷ [] }
  act w (call_steps n) = step_call n w.calls w.disp
  act w loop_receives = record w { disp = loop_step w.disp }
  act w closes = record w { disp = close w.disp }

  unfoldable pub run : World A → List (Action A) → World A
  run w [] = w
  run w (a ∷ more) = run (act w a) more

  -- The channel holds at most its capacity, and what was received and what waits is what was sent,
  -- in that order.
  pub record IsFifo (d : Dispatcher A) : Type 0 where
    pub bounded : length d.queue ≤ d.cap
    pub in_order : map (λ t. t.1) d.taken ++ d.queue ≡ d.sent

  enqueue-IsFifo :
      (d : Dispatcher A) (fn : A) → length d.queue < d.cap → IsFifo d → IsFifo (enqueue d fn)
  unfolding enqueue
  enqueue-IsFifo d fn room v = record {
    bounded = omega (arith, length-append d.queue (fn ∷ []));
    in_order =
        sym (append_assoc (map (λ t. t.1) d.taken) d.queue (fn ∷ []))
        ∙ ap (λ t. t ++ fn ∷ []) v.in_order;
  }

  receive_from :
      (who : Taker) (q : List A) (d : Dispatcher A)
      → d.queue ≡ q
      → IsFifo d
      → IsFifo (receive who d)
  unfolding receive
  receive_from who [] d e v = ground arith
  receive_from who (fn ∷ q) d e v = ground (
    arith,
    map-append (λ (t : Taker × A). t.1) d.taken ((who, fn) ∷ []),
    append_assoc (map (λ (t : Taker × A). t.1) d.taken) (fn ∷ []) q,
    v.in_order,
    v.bounded,
  )

  try_send-IsFifo :
      (fn : A) (full : Pc A) (d : Dispatcher A) → IsFifo d → IsFifo (try_send fn full d).1
  unfolding try_send
  try_send-IsFifo fn full d v = ground (arith, enqueue-IsFifo d fn)

  submit_step-IsFifo : (p : Pc A) (d : Dispatcher A) → IsFifo d → IsFifo (submit_step p d).1
  unfolding submit_step
  submit_step-IsFifo (start none) d v = v
  submit_step-IsFifo (start (some fn)) d v = v
  submit_step-IsFifo (check_closed fn) d v = v
  submit_step-IsFifo (send fn) d v = try_send-IsFifo fn (evict fn) d v
  submit_step-IsFifo (evict fn) d v = receive_from submitter d.queue d refl v
  submit_step-IsFifo (resend fn) d v = try_send-IsFifo fn done d v
  submit_step-IsFifo done d v = v

  step_call-IsFifo :
      (n : ℕ) (ps : List (Pc A)) (d : Dispatcher A) → IsFifo d → IsFifo (step_call n ps d).disp
  unfolding step_call
  step_call-IsFifo zero [] d v = v
  step_call-IsFifo (suc n) [] d v = v
  step_call-IsFifo zero (p ∷ ps) d v = submit_step-IsFifo p d v
  step_call-IsFifo (suc n) (p ∷ ps) d v = step_call-IsFifo n ps d v

  act-IsFifo : (w : World A) (a : Action A) → IsFifo w.disp → IsFifo (act w a).disp
  unfolding act loop_step close
  act-IsFifo w (calls_submit fn) v = v
  act-IsFifo w (call_steps n) v = step_call-IsFifo n w.calls w.disp v
  act-IsFifo w loop_receives v = receive_from loop w.disp.queue w.disp refl v
  act-IsFifo w closes v = record { bounded = v.bounded; in_order = v.in_order }

  -- However producers, the loop and Close interleave, the queue stays within its capacity, and
  -- callbacks leave it in the order in which they entered: none is run twice, reordered or made up,
  -- and one that is not run was taken out by a Submit that made room.
  pub run-IsFifo : (w : World A) (acts : List (Action A)) → IsFifo w.disp → IsFifo (run w acts).disp
  unfolding run
  run-IsFifo w [] v = v
  run-IsFifo w (a ∷ more) v = run-IsFifo (act w a) more (act-IsFifo w a v)

  -- Submit's own steps, with whatever others do to the dispatcher before each of them.
  pub submit_among : List (Dispatcher A → Dispatcher A) → Pc A → Dispatcher A → Pc A × Dispatcher A
  submit_among [] p d = (p, d)
  submit_among (others ∷ more) p d =
      let (p', d') = submit_step p (others d) in submit_among more p' d'

  rank : Pc A → ℕ
  rank (start fn) = 5
  rank (check_closed fn) = 4
  rank (send fn) = 3
  rank (evict fn) = 2
  rank (resend fn) = 1
  rank done = 0

  rank-submit_step : (p : Pc A) (d : Dispatcher A) → rank (submit_step p d).0 ≤ rank p - 1
  unfolding rank submit_step
  rank-submit_step (start none) d = omega arith
  rank-submit_step (start (some fn)) d = omega arith
  rank-submit_step (check_closed fn) d = ground arith
  rank-submit_step (send fn) d = ground arith
  rank-submit_step (evict fn) d = omega arith
  rank-submit_step (resend fn) d = ground arith
  rank-submit_step done d = omega arith

  rank_zero : (p : Pc A) → rank p ≡ 0 → p ≡ done
  unfolding rank
  rank_zero (start fn) e = absurd (omega arith)
  rank_zero (check_closed fn) e = absurd (omega arith)
  rank_zero (send fn) e = absurd (omega arith)
  rank_zero (evict fn) e = absurd (omega arith)
  rank_zero (resend fn) e = absurd (omega arith)
  rank_zero done e = refl

  submit_among-done :
      (others : List (Dispatcher A → Dispatcher A)) (p : Pc A) (d : Dispatcher A)
      → rank p ≤ length others
      → (submit_among others p d).0 ≡ done
  unfolding submit_among
  submit_among-done [] p d h = rank_zero p (omega arith)
  submit_among-done (f ∷ more) p d h =
      submit_among-done more (submit_step p (f d)).0 (submit_step p (f d)).1
        (omega (arith, rank-submit_step p (f d)))

  -- Submit never blocks: it returns after five steps of its own at most, whatever other goroutines
  -- do to the dispatcher before each of them.
  pub submit_among-returns :
      (fn : Option A) (others : List (Dispatcher A → Dispatcher A)) (d : Dispatcher A)
      → 5 ≤ length others
      → (submit_among others (start fn) d).0 ≡ done
  unfolding rank
  submit_among-returns fn others d h = submit_among-done others (start fn) d h
