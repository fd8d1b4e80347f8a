-- ===== src/Media/Pace.antt =====
-- media/streamer.go: the run loop of a Streamer, one round after another. Times are nanoseconds of
-- time.Now(), which does not go back; what reading, writing and waiting return is given.
pub mod Timing
pub mod Elapsed
use gotgcall.Models.{Error}
use gotgcall.Base.{
  Bool, List, Option, [], if◌then◌else◌, leb, ltb, none, some, ℕ, ◌%◌, ◌+◌, ◌/◌, ◌^◌, ◌∷◌,
}

-- An error of the reader, the writer or the context: context.Canceled, or another one.
pub data Fault : Type 0 where
  canceled : Fault
  broken_by : Error → Fault

-- WriteSample: no error, io.ErrClosedPipe, which the loop ignores, or another one.
pub data Written : Type 0 where
  write_done write_closed : Written
  write_failed : Fault → Written

-- `src.Next`: a sample of that duration, or an error.
pub data Read : Type 0 where
  sample_of : ℕ → Read
  read_failed : Fault → Read

-- What one round of the loop meets: the error of the context at the top, and in the gate; the time
-- behind the gate; the sample; whether the streamer is muted; what writing returns; the time that
-- `time.Until` sees, and the one after it; the error of the context during the wait.
pub record Round : Type 0 where
  pub top_fault : Option Fault
  pub gate_fault : Option Fault
  pub woken_at : ℕ
  pub read : Read
  pub is_muted : Bool
  pub written : Written
  pub asked : ℕ
  pub again : ℕ
  pub wait_fault : Option Fault

-- The run loop: `next` of the source, `msSent`, and what `onEnd` was called with once it has ended.
-- `ready` is when the next round begins at the earliest: after the wait, or at once. `sent_ns` and
-- `samples` are history: the durations of the samples that were sent or skipped, and their number.
pub record Run : Type 0 where
  pub next : ℕ
  pub ms_sent : ℕ
  pub ended : Option (Option Error)
  pub ready : ℕ
  pub sent_ns : ℕ
  pub samples : ℕ

abbrev pub new_run : ℕ → Run
new_run now = record {
  next = now;
  ms_sent = 0;
  ended = none;
  ready = now;
  sent_ns = 0;
  samples = 0;
}

-- fireEnd
unfoldable pub fire_end : Fault → Run → Run
fire_end canceled r = record r { ended = some none }
fire_end (broken_by e) r = record r { ended = some (some e) }

-- `if gateWake.After(next) { next = gateWake }`
abbrev pub woken_next : ℕ → ℕ → ℕ
woken_next wake next = if ltb next wake then wake else next

abbrev pub max_lag : ℕ
max_lag = 100000000

-- The wait for the next sample
abbrev pub wait_next : Option Fault → Run → Run
wait_next none r = record r { ready = r.next }
wait_next (some e) r = fire_end e r

abbrev pub pace_next : Round → Run → Run
pace_next x r =
    if ltb (r.next + max_lag) x.asked
    then record r { next = x.again; ready = x.again }
    else if leb r.next x.asked
    then record r { ready = x.asked }
    else wait_next x.wait_fault r

-- After the write: msSent, and the pace.
abbrev pub advance : ℕ → Round → Run → Run
advance duration x r = pace_next x (record r {
  ms_sent = (r.ms_sent + duration / 1000000) % 2 ^ 64;
  next = woken_next x.woken_at r.next + duration;
  sent_ns = r.sent_ns + duration;
  samples = r.samples + 1;
})

abbrev pub write_result : Written → ℕ → Round → Run → Run
write_result write_done duration x r = advance duration x r
write_result write_closed duration x r = advance duration x r
write_result (write_failed e) duration x r = fire_end e r

abbrev pub read_result : Read → Round → Run → Run
read_result (read_failed e) x r = fire_end e r
read_result (sample_of duration) x r =
    if x.is_muted then advance duration x r else write_result x.written duration x r

abbrev pub behind_gate : Option Fault → Round → Run → Run
behind_gate (some e) x r = fire_end e r
behind_gate none x r = read_result x.read x r

abbrev pub from_top : Option Fault → Round → Run → Run
from_top (some e) x r = fire_end e r
from_top none x r = behind_gate x.gate_fault x r

-- One round of run; a loop that has ended does no more.
unfoldable pub run_round : Round → Run → Run
unfolding fire_end
run_round x r = elim r.ended [ some e ↦ r | none ↦ from_top x.top_fault x r ]

unfoldable pub run_rounds : List Round → Run → Run
run_rounds [] r = r
run_rounds (x ∷ xs) r = run_rounds xs (run_round x r)
