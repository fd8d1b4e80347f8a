-- ===== src/Media/Pace/Elapsed.antt =====
-- What ElapsedMs counts.
use gotgcall.Media.Pace.Timing.{resting, running}
use gotgcall.Media.Pace.{
  Fault, Read, Round, Run, Written, advance, behind_gate, broken_by, canceled, fire_end, from_top,
  max_lag, new_run, pace_next, read_failed, read_result, run_round, run_rounds, sample_of,
  wait_next, write_closed, write_done, write_failed, write_result,
}
use gotgcall.Base.{
  Bool, Bool-cases, List, Option, Option-cases, [], ap, arith, false, has_some, if◌then◌else◌, inl,
  inr, leb, ltb, none, some, subst, sym, true, ℕ, ◌*◌, ◌+◌, ◌<◌, ◌^◌, ◌∷◌, ◌≤◌,
}

-- The samples last less than 2 ^ 64 ms.
abbrev pub Fits : Run → Type 0
Fits r = r.sent_ns < 2 ^ 64 * 1000000

-- `msSent` has lost less than a millisecond with each sample, and nothing else.
abbrev pub IsCounted : Run → Type 0
IsCounted r =
    (r.ms_sent * 1000000 ≤ r.sent_ns) × (r.sent_ns ≤ r.ms_sent * 1000000 + r.samples * 999999)

abbrev Counts : Run → Type 0
Counts r = Fits r → IsCounted r

fire-Counts : (e : Fault) (r : Run) → Counts r → Counts (fire_end e r)
unfolding fire_end
fire-Counts canceled r c = c
fire-Counts (broken_by e) r c = c

wait-Counts : (e : Option Fault) (r : Run) → Counts r → Counts (wait_next e r)
wait-Counts none r c = c
wait-Counts (some e) r c = fire-Counts e r c

pace-Counts : (x : Round) (r : Run) → Counts r → Counts (pace_next x r)
pace-Counts x r c = elim (Bool-cases (ltb (r.next + max_lag) x.asked)) [
  | inl late ↦ rw late c
  | inr in_time ↦ elim (Bool-cases (leb r.next x.asked)) [
    | inl due ↦ rw in_time (rw due c)
    | inr early ↦ rw in_time (rw early (wait-Counts x.wait_fault r c))
  ]
]

advance-Counts : (duration : ℕ) (x : Round) (r : Run) → Counts r → Counts (advance duration x r)
advance-Counts duration x r c = pace-Counts x _ λ f. let h = c (omega arith) in ground arith

module _ (x : Round) where
  write-Counts :
      (w : Written) (duration : ℕ) (r : Run) → Counts r → Counts (write_result w duration x r)
  write-Counts write_done duration r c = advance-Counts duration x r c
  write-Counts write_closed duration r c = advance-Counts duration x r c
  write-Counts (write_failed e) duration r c = fire-Counts e r c

  sample-Counts :
      (muted : Bool) (duration : ℕ) (r : Run)
      → Counts r
      → Counts (if muted then advance duration x r else write_result x.written duration x r)
  sample-Counts true duration r c = advance-Counts duration x r c
  sample-Counts false duration r c = write-Counts x.written duration r c

  read-Counts : (read : Read) (r : Run) → Counts r → Counts (read_result read x r)
  read-Counts (read_failed e) r c = fire-Counts e r c
  read-Counts (sample_of duration) r c = sample-Counts x.is_muted duration r c

  gate-Counts : (e : Option Fault) (r : Run) → Counts r → Counts (behind_gate e x r)
  gate-Counts (some e) r c = fire-Counts e r c
  gate-Counts none r c = read-Counts x.read r c

  top-Counts : (e : Option Fault) (r : Run) → Counts r → Counts (from_top e x r)
  top-Counts (some e) r c = fire-Counts e r c
  top-Counts none r c = gate-Counts x.gate_fault r c

  round-Counts : (r : Run) → Counts r → Counts (run_round x r)
  round-Counts r c = elim (Option-cases r.ended) [
    | inl e ↦ subst Counts (sym (running x r e)) (top-Counts x.top_fault r c)
    | inr (q, e) ↦ subst Counts (sym (resting x r (ap has_some e))) c
  ]

rounds-Counts : (xs : List Round) (r : Run) → Counts r → Counts (run_rounds xs r)
unfolding run_rounds
rounds-Counts [] r c = c
rounds-Counts (x ∷ xs) r c = rounds-Counts xs (run_round x r) (round-Counts x r c)

-- ElapsedMs never says more than the samples have lasted, and less by under a millisecond for each
-- of them, as long as they last less than 2 ^ 64 ms.
pub run_rounds-IsCounted :
    (now : ℕ) (xs : List Round)
    → Fits (run_rounds xs (new_run now))
    → IsCounted (run_rounds xs (new_run now))
run_rounds-IsCounted now xs f = rounds-Counts xs (new_run now) (λ g. (omega arith, omega arith)) f
