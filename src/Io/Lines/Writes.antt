-- ===== src/Io/Lines/Writes.antt =====
-- How the output is cut into writes does not matter.
use gotgcall.Io.Lines.Chunks.{
  feed, feed-append, feed-lineless, last_bytes-all, short-write, whole-feed, write-feed,
}
use gotgcall.Io.Lines.{
  LineWriter, cut_line, last_bytes, max_pending, new_line_writer, whole_pending, write_chunks,
  write_stderr, log_line, newline,
}
use gotgcall.Base.{
  List, [], ap, arith, length, none, refl, subst, sym, ℕ, ◌++◌, ◌∙◌, ◌∷◌, ◌≡◌, ◌≤◌, Bool-cases,
  Option-cases, append-nil, drop, drop_same, inl, inr, last_of, last_of-last_of, ltb, suc, zero,
  ◌-◌, ◌==◌,
}

abbrev pub joined : List (List ℕ) → List ℕ
joined [] = []
joined (p ∷ ps) = p ++ joined ps

-- No write leaves more than `maxPending` bytes of an unfinished line.
abbrev pub AreShort : List (List ℕ) → LineWriter → Type 0
AreShort [] w = Unit {0}
AreShort (p ∷ ps) w = (length (whole_pending p w) ≤ max_pending) × AreShort ps (write_stderr p w)

write-nothing :
    (w : LineWriter)
    → cut_line w.pending ≡ none
    → length w.pending ≤ max_pending
    → write_stderr [] w ≡ w
write-nothing w h l =
    write-feed [] w h
    ∙ (unfold feed in
        ap (λ b. let r : LineWriter = record { pending = b; logged = w.logged } in r)
          (last_bytes-all max_pending w.pending l))

write-lineless :
    (p : List ℕ) (w : LineWriter)
    → cut_line w.pending ≡ none
    → length (whole_pending p w) ≤ max_pending
    → (cut_line (write_stderr p w).pending ≡ none)
      × (length (write_stderr p w).pending ≤ max_pending)
write-lineless p w h short =
    let e = ap (λ x. x.pending) (short-write p w h short) in
    (
      ap cut_line e ∙ feed-lineless p w.pending w.logged h,
      subst (λ b. length b ≤ max_pending) (whole-feed p w h ∙ sym e) short,
    )

write-twice :
    (p q : List ℕ) (w : LineWriter)
    → cut_line w.pending ≡ none
    → length (whole_pending p w) ≤ max_pending
    → write_stderr q (write_stderr p w) ≡ write_stderr (p ++ q) w
write-twice p q w h short =
    let kept : LineWriter → List ℕ × List (List ℕ) → LineWriter =
      λ x s. record { pending = last_bytes max_pending s.0; logged = s.1 } in
    let s = feed p w.pending w.logged in
    let first = short-write p w h short in
    write-feed q (write_stderr p w) (write-lineless p w h short).0
    ∙ ap (λ x. kept w (feed q x.pending x.logged)) first
    ∙ ap (kept w) (sym (feed-append p q w.pending w.logged))
    ∙ sym (write-feed (p ++ q) w h)

chunks-joined :
    (ps : List (List ℕ)) (w : LineWriter)
    → cut_line w.pending ≡ none
    → length w.pending ≤ max_pending
    → AreShort ps w
    → write_chunks ps w ≡ write_stderr (joined ps) w
unfolding write_chunks
chunks-joined [] w h l short = sym (write-nothing w h l)
chunks-joined (p ∷ ps) w h l short =
    let next = write-lineless p w h short.0 in
    chunks-joined ps (write_stderr p w) next.0 next.1 short.1
    ∙ write-twice p (joined ps) w h short.0

last_bytes-eq-last_of : (n : ℕ) (b : List ℕ) → last_bytes n b ≡ last_of n b
unfolding last_bytes
last_bytes-eq-last_of n b = elim (Bool-cases (ltb n (length b))) [
  | inl y ↦ rw y refl
  | inr m ↦
      let short : length b ≤ n = ground arith in rw m (sym (drop_same {n = 0} b (omega arith)))
]

cut_snoc :
    (n : ℕ) (line other : List ℕ) (b : ℕ)
    → last_bytes n line ≡ last_bytes n other
    → last_bytes n (line ++ b ∷ []) ≡ last_bytes n (other ++ b ∷ [])
cut_snoc n line other b h =
    let same = sym (last_bytes-eq-last_of n line) ∙ h ∙ last_bytes-eq-last_of n other in
    last_bytes-eq-last_of n (line ++ b ∷ [])
    ∙ sym (last_of-last_of n line (b ∷ []))
    ∙ ap (λ l. last_of n (l ++ b ∷ [])) same
    ∙ last_of-last_of n other (b ∷ [])
    ∙ sym (last_bytes-eq-last_of n (other ++ b ∷ []))

cut_twice : (n : ℕ) (line : List ℕ) → last_bytes n (last_bytes n line) ≡ last_bytes n line
cut_twice n line =
    ap (last_bytes n) (last_bytes-eq-last_of n line ∙ sym (append-nil (last_of n line)))
    ∙ last_bytes-eq-last_of n (last_of n line ++ [])
    ∙ last_of-last_of n line []
    ∙ ap (last_of n) (append-nil line)
    ∙ sym (last_bytes-eq-last_of n line)

tail-lineless : (b : ℕ) (bs : List ℕ) → cut_line (b ∷ bs) ≡ none → cut_line bs ≡ none
unfolding cut_line
tail-lineless b bs h = elim (Bool-cases (b == newline)) [
  | inl y ↦ ground (arith, h, y)
  | inr n ↦ elim (Option-cases (cut_line bs)) [ inl e ↦ e | inr (c, e) ↦ ground (arith, h, n, e) ]
]

drop-lineless : (n : ℕ) (bs : List ℕ) → cut_line bs ≡ none → cut_line (drop n bs) ≡ none
drop-lineless zero bs h = h
drop-lineless (suc n) [] h = h
drop-lineless (suc n) (b ∷ bs) h = drop-lineless n bs (tail-lineless b bs h)

write-no_line :
    (p : List ℕ) (w : LineWriter)
    → cut_line w.pending ≡ none
    → cut_line (write_stderr p w).pending ≡ none
write-no_line p w h =
    let line = (feed p w.pending w.logged).0 in
    ap (λ x. cut_line x.pending) (write-feed p w h)
    ∙ ap cut_line (last_bytes-eq-last_of max_pending line)
    ∙ drop-lineless (length line - max_pending) line (feed-lineless p w.pending w.logged h)

-- The limit on the front of a line does not show where it is cut again.
feed-cut :
    (p line other : List ℕ) (logged more : List (List ℕ))
    → last_bytes max_pending line ≡ last_bytes max_pending other
    → last_bytes max_pending (feed p line logged).0 ≡ last_bytes max_pending (feed p other more).0
unfolding feed
feed-cut [] line other logged more h = h
feed-cut (b ∷ bs) line other logged more h = elim (Bool-cases (b == newline)) [
  | inl e ↦ rw e (feed-cut bs [] [] (log_line line logged) (log_line other more) refl)
  | inr n ↦ rw n (
      feed-cut bs (line ++ b ∷ []) (other ++ b ∷ []) logged more
        (cut_snoc max_pending line other b h))
]

chunks-pending :
    (ps : List (List ℕ)) (w : LineWriter) (line : List ℕ) (logged : List (List ℕ))
    → cut_line w.pending ≡ none
    → w.pending ≡ last_bytes max_pending line
    → (write_chunks ps w).pending ≡ last_bytes max_pending (feed (joined ps) line logged).0
unfolding write_chunks feed
chunks-pending [] w line logged h e = e
chunks-pending (p ∷ ps) w line logged h e =
    let w' = write_stderr p w in
    let s = feed p line logged in
    let now =
      ap (λ x. x.pending) (write-feed p w h)
      ∙ feed-cut p w.pending line w.logged logged
          (ap (last_bytes max_pending) e ∙ cut_twice max_pending line) in
    chunks-pending ps w' s.0 s.1 (write-no_line p w h) now
    ∙ ap (λ r. last_bytes max_pending r.0) (sym (feed-append p (joined ps) line logged))

-- What stands behind the last newline.
abbrev pub unfinished : List ℕ → List ℕ
unfinished bs = (feed bs [] []).0

-- However ffmpeg's output is cut into writes, the bytes that are held back after them are the last
-- 8 KiB of what stands behind its last newline, however long the lines are.
pub write_chunks-pending :
    (ps : List (List ℕ))
    → (write_chunks ps new_line_writer).pending ≡ last_of max_pending (unfinished (joined ps))
unfolding cut_line last_bytes
write_chunks-pending ps =
    chunks-pending ps new_line_writer [] [] refl refl
    ∙ last_bytes-eq-last_of max_pending (unfinished (joined ps))

-- However ffmpeg's output is cut into writes, the same lines are logged and the same bytes are held
-- back as by one write of it all, as long as no write leaves more than 8 KiB of an unfinished line.
pub write_chunks-joined :
    (ps : List (List ℕ))
    → AreShort ps new_line_writer
    → write_chunks ps new_line_writer ≡ write_stderr (joined ps) new_line_writer
write_chunks-joined ps short =
    chunks-joined ps new_line_writer (unfold cut_line in refl) (omega arith) short
