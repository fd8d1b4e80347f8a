-- ===== src/Io/Tests.antt =====
-- Lines of output.
use gotgcall.Models.{ffmpeg_crashed}
use gotgcall.Io.Shell.Reaped.{ShellEvent, begins_close, reaps, shell_history, shell_history-reaped}
use gotgcall.Io.Shell.{
  clean_exit, close_result, err_of, exit_code, exit_error, finished, fresh_reader, reap_step,
  set_on_exit,
}
use gotgcall.Io.Lines.Writes.{joined, write_chunks-joined, unfinished, write_chunks-pending}
use gotgcall.Io.Lines.{
  new_line_writer, write_chunks, write_stderr, cut_line, last_bytes, log_line, take_lines,
  max_pending,
}
use gotgcall.Base.{
  List, [], arith, refl, ℕ, ◌∷◌, ◌≡◌, false, negsuc, none, some, true, ◌≤◌, last_of,
}

-- "ab", a newline in CRLF that two writes share, "c".
abbrev two_writes : List (List ℕ)
two_writes = (97 ∷ 98 ∷ 13 ∷ []) ∷ (10 ∷ 10 ∷ 99 ∷ []) ∷ []

write_chunks-joined_example :
    write_chunks two_writes new_line_writer ≡ write_stderr (joined two_writes) new_line_writer
unfolding take_lines cut_line write_stderr last_bytes
write_chunks-joined_example = write_chunks-joined two_writes (omega arith, (omega arith, tt))

two_writes_lines :
    write_chunks two_writes new_line_writer
    ≡ record { pending = 99 ∷ []; logged = (97 ∷ 98 ∷ []) ∷ [] }
unfolding write_chunks write_stderr last_bytes take_lines cut_line log_line
two_writes_lines = refl

write_chunks-pending_example :
    (write_chunks two_writes new_line_writer).pending
    ≡ last_of max_pending (unfinished (joined two_writes))
write_chunks-pending_example = write_chunks-pending two_writes

-- A process that is killed by Close before it printed anything.
abbrev killed : List ShellEvent
killed =
    begins_close
    ∷ reaps (exit_code (negsuc 0)) []
    ∷ reaps clean_exit []
    ∷ begins_close
    ∷ reaps clean_exit []
    ∷ []

shell_history-reaped_example :
    let r = shell_history killed (set_on_exit true fresh_reader) in
    (r.stage ≡ finished)
    × (r.hook_calls ≡ err_of r ∷ [])
    × (err_of r ≡ exit_error (exit_code (negsuc 0)) [])
    × (r.cancels ≤ 1)
shell_history-reaped_example =
    shell_history-reaped (exit_code (negsuc 0)) [] killed refl (omega arith)

killed_quietly : exit_error (exit_code (negsuc 0)) [] ≡ none
unfolding exit_error
killed_quietly = refl

-- The same after a line on stderr counts as a crash.
killed_after_output :
    close_result (λ e. false) (reap_step (exit_code (negsuc 0)) (110 ∷ []) fresh_reader)
    ≡ some ffmpeg_crashed
unfolding close_result reap_step
killed_after_output = refl
