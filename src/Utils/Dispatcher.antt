-- ===== src/Utils/Dispatcher.antt =====
-- utils/synccallback.go. A callback is a value of a type `A`. Each channel operation of Go is one
-- atomic step, and the steps of several producers, of the loop and of Close interleave freely.
-- `sent` and `taken` are history variables: what went through the channel, in order, and who took
-- it out. Logging is left out; NewDispatcher's replacement of a nil logger with it.
pub mod Sequential
pub mod Interleaved
mod Tests
use gotgcall.Base.{
  Bool, List, Option, [], false, if◌then◌else◌, length, ltb, none, some, suc, true, zero, ℕ, ◌++◌,
  ◌==◌, ◌∷◌,
}

-- Who receives from the channel: the loop, which runs the callback, or a Submit making room.
pub data Taker : Type 0 where
  loop submitter : Taker

-- Dispatcher, its channel written out. `closed` stands for both channels, which Close closes
-- together.
pub record Dispatcher (A : Type 0) : Type 0 where
  pub queue : List A
  pub cap : ℕ
  pub closed : Bool
  pub sent : List A
  pub taken : List (Taker × A)

-- Where a call of Submit stands. A nil callback never gets past the first test.
pub data Pc (A : Type 0) : Type 0 where
  start : Option A → Pc A
  check_closed send evict resend : A → Pc A
  done : Pc A

module _ {A : Type 0} where
  -- NewDispatcher, where 0 stands for every size <= 0.
  pub new_dispatcher : ℕ → Dispatcher A
  new_dispatcher buf_size = record {
    queue = [];
    cap = if buf_size == 0 then 256 else buf_size;
    closed = false;
    sent = [];
    taken = [];
  }

  -- A send to a channel with room.
  pub enqueue : Dispatcher A → A → Dispatcher A
  enqueue d fn = record d { queue = d.queue ++ fn ∷ []; sent = d.sent ++ fn ∷ [] }

  -- A receive; one from an empty channel finds nothing (and falls through, or waits).
  pub receive : Taker → Dispatcher A → Dispatcher A
  receive who d = elim d.queue [
    | [] ↦ d
    | fn ∷ rest ↦ record d { queue = rest; taken = d.taken ++ (who, fn) ∷ [] }
  ]

  -- A `select` with a send and a default. A send to a closed channel panics, and Submit's recover
  -- makes it return.
  pub try_send : A → Pc A → Dispatcher A → Pc A × Dispatcher A
  try_send fn full d =
      if d.closed
      then (done, d)
      else if ltb (length d.queue) d.cap
      then (done, enqueue d fn)
      else (full, d)

  -- One step of Submit.
  pub submit_step : Pc A → Dispatcher A → Pc A × Dispatcher A
  unfolding try_send
  submit_step (start none) d = (done, d)
  submit_step (start (some fn)) d = (check_closed fn, d)
  submit_step (check_closed fn) d = (if d.closed then done else send fn, d)
  submit_step (send fn) d = try_send fn (evict fn) d
  submit_step (evict fn) d = (resend fn, receive submitter d)
  submit_step (resend fn) d = try_send fn done d
  submit_step done d = (done, d)

  -- The loop's next receive; it runs what it gets, and a panic of that is recovered.
  pub loop_step : Dispatcher A → Dispatcher A
  loop_step d = receive loop d

  -- Close, but for the wait: the loop goes on until the channel is empty.
  pub close : Dispatcher A → Dispatcher A
  close d = record d { closed = true }

  -- Submit with nothing in between its steps.
  pub submit : Dispatcher A → Option A → Dispatcher A
  unfolding submit_step
  submit d fn =
      let (p1, d1) = submit_step (start fn) d in
      let (p2, d2) = submit_step p1 d1 in
      let (p3, d3) = submit_step p2 d2 in let (p4, d4) = submit_step p3 d3 in (submit_step p4 d4).1

  -- What the loop does with `n` more callbacks.
  pub drain : ℕ → Dispatcher A → Dispatcher A
  drain zero d = d
  drain (suc n) d = drain n (loop_step d)
