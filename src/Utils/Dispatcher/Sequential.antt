-- ===== src/Utils/Dispatcher/Sequential.antt =====
-- Submit and Close one call after another.
use gotgcall.Utils.Dispatcher.{
  Dispatcher, close, drain, enqueue, loop, loop_step, receive, submit, submit_step,
}
use gotgcall.Base.{
  List, Option, [], ap, append-nil, append_assoc, arith, drop_same, false, last_of, last_of-last_of,
  length, length-append, map, none, refl, some, sym, true, ◌++◌, ◌<◌, ◌∙◌, ◌∷◌, ◌≡◌, ◌≤◌,
}

pub submits : {A : Type 0} → Dispatcher A → List A → Dispatcher A
submits d [] = d
submits d (fn ∷ fns) = submits (submit d (some fn)) fns

module _ {A : Type 0} where
  -- Submit to an open dispatcher makes the queue the last `cap` of what waited and the new
  -- callback: the oldest goes where there is no room.
  submit-queue :
      (d : Dispatcher A) (fn : A)
      → d.closed ≡ false
      → 0 < d.cap
      → length d.queue ≤ d.cap
      → (submit d (some fn)).queue ≡ last_of d.cap (d.queue ++ fn ∷ [])
  unfolding submit submit_step enqueue receive
  submit-queue d fn open_ch pos le = ground (arith, length-append d.queue (fn ∷ []))

  cap-submit : (d : Dispatcher A) (fn : Option A) → (submit d fn).cap ≡ d.cap
  unfolding submit submit_step enqueue receive
  cap-submit d fn = ground arith

  closed-submit : (d : Dispatcher A) (fn : Option A) → (submit d fn).closed ≡ d.closed
  unfolding submit submit_step enqueue receive
  closed-submit d fn = ground arith

  -- Submit keeps the channel within its capacity.
  submit-bounded :
      (d : Dispatcher A) (fn : Option A)
      → 0 < d.cap
      → length d.queue ≤ d.cap
      → length (submit d fn).queue ≤ d.cap
  unfolding submit submit_step enqueue receive
  submit-bounded d none pos le = le
  submit-bounded d (some fn) pos le = ground (arith, length-append d.queue (fn ∷ []))

  -- A slow consumer loses the oldest events only: after any number of calls of Submit on an open
  -- channel of a positive capacity, with no receive in between, the queue is the last `cap` of what
  -- waited and was submitted, in order.
  pub submits-queue :
      (d : Dispatcher A) (fns : List A)
      → d.closed ≡ false
      → 0 < d.cap
      → length d.queue ≤ d.cap
      → (submits d fns).queue ≡ last_of d.cap (d.queue ++ fns)
  unfolding submits
  submits-queue d [] open_ch pos le = sym (
      drop_same {n = 0} (d.queue ++ []) (omega (arith, length-append d.queue []))
      ∙ append-nil d.queue)
  submits-queue d (fn ∷ fns) open_ch pos le =
      submits-queue (submit d (some fn)) fns (closed-submit d (some fn) ∙ open_ch)
        (omega (arith, cap-submit d (some fn)))
        (omega (arith, cap-submit d (some fn), submit-bounded d (some fn) pos le))
      ∙ rw (cap-submit d (some fn), submit-queue d fn open_ch pos le)
          (last_of-last_of d.cap (d.queue ++ fn ∷ []) fns
            ∙ ap (last_of d.cap) (append_assoc d.queue (fn ∷ []) fns))

  -- A call of Submit after Close changes nothing.
  pub submit-close : (d : Dispatcher A) (fn : Option A) → submit (close d) fn ≡ close d
  unfolding submit submit_step close
  submit-close d none = refl
  submit-close d (some fn) = refl

  submits-close : (d : Dispatcher A) (fns : List A) → submits (close d) fns ≡ close d
  unfolding submits
  submits-close d [] = refl
  submits-close d (fn ∷ fns) =
      ap (λ e. submits e fns) (submit-close d (some fn)) ∙ submits-close d fns

  loop_step-cons :
      (d : Dispatcher A) (fn : A) (q : List A)
      → d.queue ≡ fn ∷ q
      → loop_step d ≡ record d { queue = q; taken = d.taken ++ (loop, fn) ∷ [] }
  unfolding loop_step receive
  loop_step-cons d fn q e = ground arith

  drain_all :
      (q : List A) (d : Dispatcher A)
      → d.queue ≡ q
      → drain (length q) d ≡ record d { queue = []; taken = d.taken ++ map (λ fn. (loop, fn)) q }
  unfolding drain
  drain_all [] d e = ground (arith, append-nil d.taken)
  drain_all (fn ∷ q) d e =
      ap (drain (length q)) (loop_step-cons d fn q e)
      ∙ drain_all q (record d { queue = q; taken = d.taken ++ (loop, fn) ∷ [] }) refl
      ∙ ap (λ t. record d { queue = []; taken = t })
          (append_assoc d.taken ((loop, fn) ∷ []) (map (λ fn'. (loop, fn')) q))

  -- After Close no Submit gets anything in, and the loop runs every callback that was waiting, in
  -- order, until the queue is empty.
  pub drain-close :
      (d : Dispatcher A) (fns : List A)
      → drain (length d.queue) (submits (close d) fns)
        ≡ record d { queue = []; closed = true; taken = d.taken ++ map (λ fn. (loop, fn)) d.queue }
  drain-close d fns =
      ap (drain (length d.queue)) (submits-close d fns)
      ∙ unfold close in drain_all d.queue (record d { closed = true }) refl
