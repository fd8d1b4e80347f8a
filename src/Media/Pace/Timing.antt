-- ===== src/Media/Pace/Timing.antt =====
-- When the samples are sent.
use gotgcall.Media.Pace.{
  Round, Run, run_round, Fault, advance, broken_by, canceled, fire_end, max_lag, pace_next,
  wait_next, Read, Written, behind_gate, from_top, read_failed, read_result, sample_of,
  write_closed, write_done, write_failed, write_result, new_run, run_rounds,
}
use gotgcall.Base.{
  List, [], arith, ℕ, ◌+◌, ◌∷◌, ◌≤◌, Bool-cases, Option, has_some, inl, inr, leb, ltb, none, refl,
  some, true, ◌≡◌, ◌⊎◌, Bool, false, if◌then◌else◌, Option-cases, ap, subst, sym, ◌∙◌,
}

-- The clock: a round begins when the last one is over, the timer not being early, and goes on.
abbrev pub IsTimed : Round → Type 0
IsTimed x = (x.woken_at ≤ x.asked) × (x.asked ≤ x.again)

abbrev pub AreTimed : List Round → Run → Type 0
AreTimed [] r = Unit {0}
AreTimed (x ∷ xs) r = (r.ready ≤ x.woken_at) × IsTimed x × AreTimed xs (run_round x r)

-- Since a time `base`, when `before` had been sent, the loop has not been faster than the media; and
-- it does not go on before its schedule.
abbrev IsPaced : ℕ → ℕ → Run → Type 0
IsPaced base before r = (base + r.sent_ns ≤ r.next + before) × (r.next ≤ r.ready)

-- Or it has ended.
abbrev PacedOrEnded : ℕ → ℕ → Run → Type 0
PacedOrEnded base before r = (has_some r.ended ≡ true) ⊎ IsPaced base before r

abbrev Since : ℕ → ℕ → ℕ → Run → Type 0
Since base before wake r = base + r.sent_ns ≤ wake + before

fire-ended : (e : Fault) (r : Run) → has_some (fire_end e r).ended ≡ true
unfolding fire_end
fire-ended canceled r = refl
fire-ended (broken_by e) r = refl

pub running : (x : Round) (r : Run) → r.ended ≡ none → run_round x r ≡ from_top x.top_fault x r
unfolding run_round
running x r e = ground (arith, e)

pub resting : (x : Round) (r : Run) → has_some r.ended ≡ true → run_round x r ≡ r
unfolding run_round
resting x r e = ground arith

wait-PacedOrEnded :
    (base before : ℕ) (e : Option Fault) (r : Run)
    → base + r.sent_ns ≤ r.next + before
    → PacedOrEnded base before (wait_next e r)
wait-PacedOrEnded base before none r h = inr (h, omega arith)
wait-PacedOrEnded base before (some e) r h = inl (fire-ended e r)

pace-PacedOrEnded :
    (base before : ℕ) (x : Round) (r : Run)
    → x.asked ≤ x.again
    → base + r.sent_ns ≤ r.next + before
    → PacedOrEnded base before (pace_next x r)
pace-PacedOrEnded base before x r t h = elim (Bool-cases (ltb (r.next + max_lag) x.asked)) [
  | inl late ↦ rw late (inr (ground arith, omega arith))
  | inr in_time ↦ elim (Bool-cases (leb r.next x.asked)) [
    | inl due ↦ rw in_time (rw due (inr (h, ground arith)))
    | inr early ↦ rw in_time (rw early (wait-PacedOrEnded base before x.wait_fault r h))
  ]
]

module _ (base before : ℕ) (x : Round) (timed : IsTimed x) where
  Since-advance :
      (duration : ℕ) (r : Run)
      → Since base before x.woken_at r
      → PacedOrEnded base before (advance duration x r)
  Since-advance duration r h = pace-PacedOrEnded base before x _ timed.1 (ground arith)

  Since-write :
      (w : Written) (duration : ℕ) (r : Run)
      → Since base before x.woken_at r
      → PacedOrEnded base before (write_result w duration x r)
  Since-write write_done duration r h = Since-advance duration r h
  Since-write write_closed duration r h = Since-advance duration r h
  Since-write (write_failed e) duration r h = inl (fire-ended e r)

  Since-sample :
      (muted : Bool) (duration : ℕ) (r : Run)
      → Since base before x.woken_at r
      → PacedOrEnded base before
          (if muted then advance duration x r else write_result x.written duration x r)
  Since-sample true duration r h = Since-advance duration r h
  Since-sample false duration r h = Since-write x.written duration r h

  Since-read :
      (read : Read) (r : Run)
      → Since base before x.woken_at r
      → PacedOrEnded base before (read_result read x r)
  Since-read (read_failed e) r h = inl (fire-ended e r)
  Since-read (sample_of duration) r h = Since-sample x.is_muted duration r h

  Since-gate :
      (e : Option Fault) (r : Run)
      → Since base before x.woken_at r
      → PacedOrEnded base before (behind_gate e x r)
  Since-gate (some e) r h = inl (fire-ended e r)
  Since-gate none r h = Since-read x.read r h

  Since-top :
      (e : Option Fault) (r : Run)
      → Since base before x.woken_at r
      → PacedOrEnded base before (from_top e x r)
  Since-top (some e) r h = inl (fire-ended e r)
  Since-top none r h = Since-gate x.gate_fault r h

  Since-round :
      (r : Run)
      → r.ended ≡ none
      → Since base before x.woken_at r
      → PacedOrEnded base before (run_round x r)
  Since-round r e h =
      subst (PacedOrEnded base before) (sym (running x r e)) (Since-top x.top_fault r h)

  next-round :
      (r : Run)
      → r.ready ≤ x.woken_at
      → PacedOrEnded base before r
      → PacedOrEnded base before (run_round x r)
  next-round r t (inl e) = inl (ap (λ q. has_some q.ended) (resting x r e) ∙ e)
  next-round r t (inr h) = elim (Option-cases r.ended) [
    | inl e ↦ Since-round r e (omega arith)
    | inr (q, e) ↦
        let done : has_some r.ended ≡ true = ap has_some e in
        inl (ap (λ q. has_some q.ended) (resting x r done) ∙ done)
  ]

rounds-PacedOrEnded :
    (base before : ℕ) (xs : List Round) (r : Run)
    → AreTimed xs r
    → PacedOrEnded base before r
    → PacedOrEnded base before (run_rounds xs r)
unfolding run_rounds
rounds-PacedOrEnded base before [] r t h = h
rounds-PacedOrEnded base before (x ∷ xs) r t h =
    rounds-PacedOrEnded base before xs (run_round x r) t.2 (next-round base before x t.1 r t.0 h)

on_schedule :
    (base before wake : ℕ) (r : Run)
    → PacedOrEnded base before r
    → r.ended ≡ none
    → r.ready ≤ wake
    → base + r.sent_ns ≤ wake + before
on_schedule base before wake r (inl e) n t = cc
on_schedule base before wake r (inr h) n t = omega arith

-- On a clock that does not go back, with a timer that is not early, the streamer is never faster
-- than the media: a sample is read only when the samples before it, all together, have lasted.
pub run_rounds-not_early :
    (now wake : ℕ) (xs : List Round)
    → AreTimed xs (new_run now)
    → (run_rounds xs (new_run now)).ended ≡ none
    → (run_rounds xs (new_run now)).ready ≤ wake
    → now + (run_rounds xs (new_run now)).sent_ns ≤ wake
run_rounds-not_early now wake xs t e w =
    let h = rounds-PacedOrEnded now 0 xs (new_run now) t (inr (omega arith, omega arith)) in
    let p = on_schedule now 0 wake (run_rounds xs (new_run now)) h e w in omega arith

-- The streamer never catches up: from one round to any later one at least the durations of the
-- samples in between go by, however late the first of them was.
pub run_rounds-stays_late :
    (wake : ℕ) (x : Round) (xs : List Round) (r : Run)
    → r.ended ≡ none
    → AreTimed (x ∷ xs) r
    → (run_rounds (x ∷ xs) r).ended ≡ none
    → (run_rounds (x ∷ xs) r).ready ≤ wake
    → x.woken_at + (run_rounds (x ∷ xs) r).sent_ns ≤ wake + r.sent_ns
unfolding run_rounds
run_rounds-stays_late wake x xs r n t e w =
    let first = Since-round x.woken_at r.sent_ns x t.1 r n (omega arith) in
    on_schedule x.woken_at r.sent_ns wake (run_rounds xs (run_round x r))
      (rounds-PacedOrEnded x.woken_at r.sent_ns xs (run_round x r) t.2 first) e w
