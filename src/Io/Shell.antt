-- ===== src/Io/Shell.antt =====
-- io/shell_reader.go: ShellReader. What the system returns is an argument. The times at which the
-- goroutine reap waits, calls the hook and closes `doneCh` are steps of their own.
pub mod Reaped
use Prim.Native.Char.{code}
use gotgcall.Models.{Error, ffmpeg_crashed, ffmpeg_spawn, internal}
use gotgcall.Base.{
  Bool, Bytes, List, Option, [], false, if◌then◌else◌, is_empty, negsuc, none, not, pos, some, true,
  ℕ, ℤ, ◌&&◌, ◌++◌, ◌+◌, ◌-◌, ◌==◌, ◌∷◌,
}

-- What cmd.Wait comes to: no error, an ExitError with its code, another error, a panic.
pub data Outcome : Type 0 where
  clean_exit : Outcome
  exit_code : ℤ → Outcome
  wait_error : Error → Outcome
  panics : Outcome

-- Where reap is: waiting, about to call the hook, about to close `doneCh`, gone.
pub data ReapStage : Type 0 where
  in_wait : ReapStage
  before_hook : ReapStage
  before_done : ReapStage
  finished : ReapStage

-- `hook_calls` is the history of the calls of the hook, `cancels` of those of the CancelFunc.
pub record ShellReader : Type 0 where
  pub stage : ReapStage
  pub wait_err : Option Error
  pub stdout_open : Bool
  pub close_begun : Bool
  pub hook_set : Bool
  pub hook_calls : List (Option Error)
  pub cancels : ℕ

-- What NewShellReader leaves: the reader, if any, the error, and how many ends of the pipe this
-- process still has open.
pub record Spawned : Type 0 where
  pub reader : Option ShellReader
  pub spawn_error : Option Error
  pub ends_open : ℕ

abbrev pub fresh_reader : ShellReader
fresh_reader = record {
  stage = in_wait;
  wait_err = none;
  stdout_open = true;
  close_begun = false;
  hook_set = false;
  hook_calls = [];
  cancels = 0;
}

-- NewShellReader: whether os.Pipe and cmd.Start succeed.
unfoldable pub new_shell_reader : Bool → Bool → Spawned
new_shell_reader pipes starts =
    if not pipes
    then record { reader = none; spawn_error = some ffmpeg_spawn; ends_open = 0 }
    else if not starts
    then record { reader = none; spawn_error = some ffmpeg_spawn; ends_open = 2 - 1 - 1 }
    else record { reader = some fresh_reader; spawn_error = none; ends_open = 2 - 1 }

abbrev pub is_minus_one : ℤ → Bool
is_minus_one (pos n) = false
is_minus_one (negsuc n) = n == 0

-- The error that reap stores, with the tail of stderr.
unfoldable pub exit_error : Outcome → Bytes → Option Error
exit_error clean_exit tail = none
exit_error (exit_code code) tail =
    if is_minus_one code && is_empty tail then none else some ffmpeg_crashed
exit_error (wait_error e) tail = some e
exit_error panics tail = some internal

-- reap up to its deferred functions, then the hook, then `doneCh`.
unfoldable pub reap_at : ReapStage → Outcome → Bytes → ShellReader → ShellReader
unfolding exit_error
reap_at in_wait outcome tail r = record r {
  stage = before_hook;
  wait_err = exit_error outcome tail;
}
reap_at before_hook outcome tail r = record r {
  stage = before_done;
  hook_calls = if r.hook_set then r.hook_calls ++ r.wait_err ∷ [] else r.hook_calls;
}
reap_at before_done outcome tail r = record r { stage = finished }
reap_at finished outcome tail r = r

unfoldable pub reap_step : Outcome → Bytes → ShellReader → ShellReader
unfolding reap_at
reap_step outcome tail r = reap_at r.stage outcome tail r

-- Read on an error of the pipe: `meanwhile` is what reap does until the wait is over.
unfoldable pub read_error : Error → (ShellReader → ShellReader) → ShellReader → Error
read_error pipe_error meanwhile r =
    let r1 = meanwhile r in elim r1.wait_err [ none ↦ pipe_error | some e ↦ e ]

-- The first part of Close, which runs once.
unfoldable pub begin_close : ShellReader → ShellReader
begin_close r =
    if r.close_begun
    then r
    else record r { close_begun = true; stdout_open = false; cancels = r.cancels + 1 }

-- What Close returns once `doneCh` is closed; `is_cancel` is errors.Is(err, context.Canceled).
unfoldable pub close_result : (Error → Bool) → ShellReader → Option Error
close_result is_cancel r = elim r.wait_err [
  | none ↦ none
  | some e ↦ if is_cancel e then none else some e
]

-- Err
unfoldable pub err_of : ShellReader → Option Error
err_of r = r.wait_err

-- SetOnExit with a function or nil
unfoldable pub set_on_exit : Bool → ShellReader → ShellReader
set_on_exit given r = record r { hook_set = given }
