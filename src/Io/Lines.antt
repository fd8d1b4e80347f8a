-- ===== src/Io/Lines.antt =====
-- io/shell_reader.go: stderrLineWriter, which logs what ffmpeg prints line by line; trimTail. Bytes
-- are numbers.
pub mod Chunks
pub mod Writes
use gotgcall.Base.{
  List, Option, [], drop, if◌then◌else◌, length, ltb, none, some, suc, zero, ℕ, ◌++◌, ◌-◌, ◌==◌,
  ◌∷◌,
}

-- stderrLineWriter; `logged` is the history of the lines that it gave to the logger.
pub record LineWriter : Type 0 where
  pub pending : List ℕ
  pub logged : List (List ℕ)

abbrev pub newline : ℕ
newline = 10

abbrev pub carriage_return : ℕ
carriage_return = 13

abbrev pub with_first : ℕ → Option (List ℕ × List ℕ) → Option (List ℕ × List ℕ)
with_first b none = none
with_first b (some c) = some (b ∷ c.0, c.1)

-- The search for a newline: what stands before it, and behind it.
unfoldable pub cut_line : List ℕ → Option (List ℕ × List ℕ)
cut_line [] = none
cut_line (b ∷ bs) =
    let rest = with_first b (cut_line bs) in if b == newline then some ([], bs) else rest

-- Without a trailing \r
unfoldable pub trim_return : List ℕ → List ℕ
trim_return [] = []
trim_return (b ∷ []) = if b == carriage_return then [] else b ∷ []
trim_return (b ∷ c ∷ bs) = b ∷ trim_return (c ∷ bs)

-- `if len(line) > 0 { log }`
abbrev pub log_nonempty : List ℕ → List (List ℕ) → List (List ℕ)
log_nonempty [] logged = logged
log_nonempty (b ∷ bs) logged = logged ++ (b ∷ bs) ∷ []

unfoldable pub log_line : List ℕ → List (List ℕ) → List (List ℕ)
unfolding trim_return
log_line line logged = log_nonempty (trim_return line) logged

-- The loop of Write, with fuel.
unfoldable pub take_lines : ℕ → List ℕ → List (List ℕ) → List ℕ × List (List ℕ)
take_lines zero pending logged = (pending, logged)
take_lines (suc fuel) pending logged = elim (cut_line pending) [
  | none ↦ (pending, logged)
  | some c ↦ take_lines fuel c.1 (log_line c.0 logged)
]

abbrev pub max_pending : ℕ
max_pending = 8192

-- `b[len(b)-max:]` where b is longer than that
unfoldable pub last_bytes : ℕ → List ℕ → List ℕ
last_bytes n b = if ltb n (length b) then drop (length b - n) b else b

-- Write
unfoldable pub write_stderr : List ℕ → LineWriter → LineWriter
write_stderr p w =
    let all = w.pending ++ p in
    let taken = take_lines (suc (length all)) all w.logged in
    record { pending = last_bytes max_pending taken.0; logged = taken.1 }

-- What Write holds back before it cuts that to `maxPending`.
abbrev pub whole_pending : List ℕ → LineWriter → List ℕ
whole_pending p w = (take_lines (suc (length (w.pending ++ p))) (w.pending ++ p) w.logged).0

-- Several writes.
unfoldable pub write_chunks : List (List ℕ) → LineWriter → LineWriter
write_chunks [] w = w
write_chunks (p ∷ ps) w = write_chunks ps (write_stderr p w)

abbrev pub new_line_writer : LineWriter
new_line_writer = record { pending = []; logged = [] }

-- trimTail
abbrev pub trim_tail : List ℕ → List ℕ
trim_tail b = last_bytes 512 b
