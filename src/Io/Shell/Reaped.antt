-- ===== src/Io/Shell/Reaped.antt =====
-- The end of a process, whatever Close does meanwhile.
use gotgcall.Models.{Error}
use gotgcall.Io.Shell.{
  Outcome, ReapStage, ShellReader, before_done, before_hook, begin_close, exit_error, finished,
  in_wait, reap_step, reap_at, err_of, fresh_reader, set_on_exit,
}
use gotgcall.Base.{
  Bool, Bytes, List, Option, [], arith, false, if◌then◌else◌, none, not, suc, true, ℕ, ◌-◌, ◌∷◌,
  ◌≡◌, ap, ap₂, refl, sym, ◌∙◌, ◌≤◌, some,
}

pub data ShellEvent : Type 0 where
  reaps : Outcome → Bytes → ShellEvent
  begins_close : ShellEvent

unfoldable pub shell_event : ShellEvent → ShellReader → ShellReader
unfolding reap_step begin_close
shell_event (reaps outcome tail) r = reap_step outcome tail r
shell_event begins_close r = begin_close r

unfoldable pub shell_history : List ShellEvent → ShellReader → ShellReader
unfolding shell_event
shell_history [] r = r
shell_history (e ∷ es) r = shell_history es (shell_event e r)

-- The steps of reap in a history.
abbrev pub reaps_in : List ShellEvent → ℕ
reaps_in [] = 0
reaps_in (reaps outcome tail ∷ es) = suc (reaps_in es)
reaps_in (begins_close ∷ es) = reaps_in es

-- What the first one of them meets.
abbrev pub first_reap : List ShellEvent → Option (Outcome × Bytes)
first_reap [] = none
first_reap (reaps outcome tail ∷ es) = some (outcome, tail)
first_reap (begins_close ∷ es) = first_reap es

-- The steps that reap still has.
abbrev pub to_go : ReapStage → ℕ
to_go in_wait = 3
to_go before_hook = 2
to_go before_done = 1
to_go finished = 0

-- What a reader with a hook has told the hook at a stage.
abbrev pub told : ReapStage → Option Error → List (Option Error)
told in_wait e = []
told before_hook e = []
told before_done e = e ∷ []
told finished e = e ∷ []

abbrev pub is_waiting : ReapStage → Bool
is_waiting in_wait = true
is_waiting _ = false

record IsReaping (r : ShellReader) : Type 0 where
  hooked : r.hook_set ≡ true
  heard : r.hook_calls ≡ told r.stage r.wait_err
  cancelled_once : r.cancels ≡ (if r.close_begun then 1 else 0)
  shut_stdout : r.stdout_open ≡ not r.close_begun

-- One step keeps this, and takes reap on.
record Onward (stored : Option Error) (r s : ShellReader) : Type 0 where
  keeps : IsReaping s
  went : to_go s.stage ≡ to_go r.stage - 1
  stores : s.wait_err ≡ (if is_waiting r.stage then stored else r.wait_err)

reap_at-Onward :
    (st : ReapStage) (outcome : Outcome) (tail : Bytes) (r : ShellReader)
    → r.stage ≡ st
    → IsReaping r
    → Onward (exit_error outcome tail) r (reap_at st outcome tail r)
unfolding reap_at
reap_at-Onward in_wait outcome tail r e h = record {
  keeps = record {
    hooked = h.hooked;
    heard = h.heard ∙ ap (λ st. told st r.wait_err) e;
    cancelled_once = h.cancelled_once;
    shut_stdout = h.shut_stdout;
  };
  went = omega (arith, ap to_go e);
  stores = ground (arith, ap is_waiting e);
}
reap_at-Onward before_hook outcome tail r e h = record {
  keeps = record {
    hooked = h.hooked;
    heard = ground (arith, h.heard, h.hooked, ap (λ st. told st r.wait_err) e);
    cancelled_once = h.cancelled_once;
    shut_stdout = h.shut_stdout;
  };
  went = omega (arith, ap to_go e);
  stores = ground (arith, ap is_waiting e);
}
reap_at-Onward before_done outcome tail r e h = record {
  keeps = record {
    hooked = h.hooked;
    heard = h.heard ∙ ap (λ st. told st r.wait_err) e;
    cancelled_once = h.cancelled_once;
    shut_stdout = h.shut_stdout;
  };
  went = omega (arith, ap to_go e);
  stores = ground (arith, ap is_waiting e);
}
reap_at-Onward finished outcome tail r e h = record {
  keeps = h;
  went = omega (arith, ap to_go e);
  stores = ground (arith, ap is_waiting e);
}

begin_close-IsReaping : (r : ShellReader) → IsReaping r → IsReaping (begin_close r)
unfolding begin_close
begin_close-IsReaping r h = record {
  hooked = ground arith;
  heard = ground arith;
  cancelled_once = ground arith;
  shut_stdout = ground arith;
}

begin_close-stage :
    (r : ShellReader) → ((begin_close r).stage ≡ r.stage) × ((begin_close r).wait_err ≡ r.wait_err)
unfolding begin_close
begin_close-stage r = (ground arith, ground arith)

abbrev pub stored_by : Option Error → Option (Outcome × Bytes) → Option Error
stored_by old none = old
stored_by old (some (outcome, tail)) = exit_error outcome tail

-- The error that a history leaves.
abbrev pub left_error : Bool → List ShellEvent → Option Error → Option Error
left_error false es old = old
left_error true [] old = old
left_error true (reaps outcome tail ∷ es) old = exit_error outcome tail
left_error true (begins_close ∷ es) old = left_error true es old

left_error-nil : (b : Bool) (old : Option Error) → left_error b [] old ≡ old
left_error-nil true old = refl
left_error-nil false old = refl

left_error-first :
    (es : List ShellEvent) (outcome : Outcome) (tail : Bytes) (old : Option Error)
    → first_reap es ≡ some (outcome, tail)
    → left_error true es old ≡ exit_error outcome tail
left_error-first [] outcome tail old h = absurd (ground arith)
left_error-first (reaps o t ∷ es) outcome tail old h = ap (stored_by none) h
left_error-first (begins_close ∷ es) outcome tail old h = left_error-first es outcome tail old h

left_error-reaped :
    (b : Bool) (outcome : Outcome) (tail : Bytes) (es : List ShellEvent) (old : Option Error)
    → left_error b (reaps outcome tail ∷ es) old ≡ (if b then exit_error outcome tail else old)
left_error-reaped true outcome tail es old = refl
left_error-reaped false outcome tail es old = refl

left_error-closed :
    (b : Bool) (es : List ShellEvent) (old : Option Error)
    → left_error b (begins_close ∷ es) old ≡ left_error b es old
left_error-closed true es old = refl
left_error-closed false es old = refl

left_error-not_waiting :
    (st : ReapStage) (es : List ShellEvent) (old : Option Error)
    → to_go st ≤ 2
    → left_error (is_waiting st) es old ≡ old
left_error-not_waiting in_wait es old h = absurd (omega arith)
left_error-not_waiting before_hook es old h = refl
left_error-not_waiting before_done es old h = refl
left_error-not_waiting finished es old h = refl

to_go-le : (st : ReapStage) → to_go st ≤ 3
to_go-le in_wait = omega arith
to_go-le before_hook = omega arith
to_go-le before_done = omega arith
to_go-le finished = omega arith

record Ended (es : List ShellEvent) (r s : ShellReader) : Type 0 where
  still : IsReaping s
  gone : to_go s.stage ≡ to_go r.stage - reaps_in es
  error : s.wait_err ≡ left_error (is_waiting r.stage) es r.wait_err

shell_history-Ended :
    (es : List ShellEvent) (r : ShellReader) → IsReaping r → Ended es r (shell_history es r)
unfolding shell_history shell_event reap_step
shell_history-Ended [] r h = record {
  still = h;
  gone = omega arith;
  error = sym (left_error-nil (is_waiting r.stage) r.wait_err);
}
shell_history-Ended (reaps outcome tail ∷ es) r h =
    let s = reap_step outcome tail r in
    let o = reap_at-Onward r.stage outcome tail r refl h in
    let rest = shell_history-Ended es s o.keeps in
    record {
      still = rest.still;
      gone = omega (arith, rest.gone, o.went);
      error =
          rest.error
          ∙ left_error-not_waiting s.stage es s.wait_err (omega (arith, o.went, to_go-le r.stage))
          ∙ o.stores
          ∙ sym (left_error-reaped (is_waiting r.stage) outcome tail es r.wait_err);
    }
shell_history-Ended (begins_close ∷ es) r h =
    let s = begin_close r in
    let same = begin_close-stage r in
    let rest = shell_history-Ended es s (begin_close-IsReaping r h) in
    record {
      still = rest.still;
      gone = omega (arith, rest.gone, ap to_go same.0);
      error =
          rest.error
          ∙ ap₂ (λ st old. left_error (is_waiting st) es old) same.0 same.1
          ∙ sym (left_error-closed (is_waiting r.stage) es r.wait_err);
    }

hooked_reader : ShellReader
hooked_reader = set_on_exit true fresh_reader

hooked_reader-IsReaping : IsReaping hooked_reader
unfolding hooked_reader set_on_exit
hooked_reader-IsReaping = record {
  hooked = refl;
  heard = refl;
  cancelled_once = refl;
  shut_stdout = refl;
}

to_go-finished : (st : ReapStage) → to_go st ≤ 0 → st ≡ finished
to_go-finished in_wait h = absurd (omega arith)
to_go-finished before_hook h = absurd (omega arith)
to_go-finished before_done h = absurd (omega arith)
to_go-finished finished h = refl

-- A reader whose hook was set as soon as it was made: once reap has done its three steps, however
-- often Close is called in between, `doneCh` is closed, so that a Close that waits returns; the hook
-- was called once, with the error that Err reports from then on; that error is the one for the way
-- in which the process ended; and the context was cancelled once at most.
pub shell_history-reaped :
    (outcome : Outcome) (tail : Bytes) (es : List ShellEvent)
    → first_reap es ≡ some (outcome, tail)
    → 3 ≤ reaps_in es
    → let r = shell_history es (set_on_exit true fresh_reader) in
      (r.stage ≡ finished)
      × (r.hook_calls ≡ err_of r ∷ [])
      × (err_of r ≡ exit_error outcome tail)
      × (r.cancels ≤ 1)
unfolding err_of hooked_reader set_on_exit
shell_history-reaped outcome tail es h k =
    let r = shell_history es hooked_reader in
    let e = shell_history-Ended es hooked_reader hooked_reader-IsReaping in
    let over = to_go-finished r.stage (omega (arith, e.gone)) in
    (
      over,
      e.still.heard ∙ ap (λ st. told st r.wait_err) over,
      e.error ∙ left_error-first es outcome tail none h,
      ground (arith, e.still.cancelled_once),
    )
