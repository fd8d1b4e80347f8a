-- ===== src/Io/Lines/Chunks.antt =====
-- What the loop of Write does, byte by byte.
use gotgcall.Io.Lines.{
  cut_line, log_line, newline, LineWriter, last_bytes, max_pending, take_lines, with_first,
  write_stderr, whole_pending,
}
use gotgcall.Base.{
  Bool-cases, List, [], ap, append-nil, append_assoc, arith, if◌then◌else◌, inl, inr, length, none,
  refl, some, sym, ℕ, ◌++◌, ◌<◌, ◌==◌, ◌∙◌, ◌∷◌, ◌≡◌, Option, Option-cases, subst, suc, zero, ◌≤◌,
  false,
}

-- Byte by byte: the line so far, and the lines that were logged.
unfoldable pub feed : List ℕ → List ℕ → List (List ℕ) → List ℕ × List (List ℕ)
feed [] line logged = (line, logged)
feed (b ∷ bs) line logged =
    let ends = feed bs [] (log_line line logged) in
    let goes_on = feed bs (line ++ b ∷ []) logged in if b == newline then ends else goes_on

pub feed-append :
    (ps qs line : List ℕ) (logged : List (List ℕ))
    → feed (ps ++ qs) line logged ≡ (let s = feed ps line logged in feed qs s.0 s.1)
unfolding feed
feed-append [] qs line logged = refl
feed-append (b ∷ ps) qs line logged = elim (Bool-cases (b == newline)) [
  | inl e ↦ rw e (feed-append ps qs [] (log_line line logged))
  | inr n ↦ rw n (feed-append ps qs (line ++ b ∷ []) logged)
]

-- Without a newline all is one line.
feed-none :
    (bs line : List ℕ) (logged : List (List ℕ))
    → cut_line bs ≡ none
    → feed bs line logged ≡ (line ++ bs, logged)
unfolding feed cut_line
feed-none [] line logged h = ap (λ l. (l, logged)) (sym (append-nil line))
feed-none (b ∷ bs) line logged h = elim (Bool-cases (b == newline)) [
  | inl e ↦ ground (arith, e)
  | inr n ↦ rw n (
      feed-none bs (line ++ b ∷ []) logged (ground arith)
      ∙ ap (λ l. (l, logged)) (append_assoc line (b ∷ []) bs))
]

with_first-some :
    (b : ℕ) (r : Option (List ℕ × List ℕ)) (c : List ℕ × List ℕ)
    → with_first b r ≡ some c
    → (d : List ℕ × List ℕ) × (r ≡ some d) × ((b ∷ d.0, d.1) ≡ c)
with_first-some b none c h = cc
with_first-some b (some d) c h = (d, refl, ground arith)

-- The first line comes off.
feed-some :
    (bs line : List ℕ) (logged : List (List ℕ)) (c : List ℕ × List ℕ)
    → cut_line bs ≡ some c
    → feed bs line logged ≡ feed c.1 [] (log_line (line ++ c.0) logged)
unfolding feed cut_line
feed-some [] line logged c h = cc
feed-some (b ∷ bs) line logged c h = elim (Bool-cases (b == newline)) [
  | inl e ↦
      let same : ([], bs) ≡ c = ground (arith, h, e) in
      rw e (
        subst (λ d. feed bs [] (log_line line logged) ≡ feed d.1 [] (log_line (line ++ d.0) logged))
          same (ap (λ l. feed bs [] (log_line l logged)) (sym (append-nil line))))
  | inr n ↦
      let inner : with_first b (cut_line bs) ≡ some c = ground (arith, h, n) in
      let (d, e, same) = with_first-some b (cut_line bs) c inner in
      rw n (
        subst (λ x. feed bs (line ++ b ∷ []) logged ≡ feed x.1 [] (log_line (line ++ x.0) logged))
          same
          (feed-some bs (line ++ b ∷ []) logged d e
            ∙ ap (λ l. feed d.1 [] (log_line l logged)) (append_assoc line (b ∷ []) d.0)))
]

cut_line-shorter :
    (bs : List ℕ) (c : List ℕ × List ℕ) → cut_line bs ≡ some c → length c.1 < length bs
unfolding cut_line
cut_line-shorter [] c h = cc
cut_line-shorter (b ∷ bs) c h = elim (Bool-cases (b == newline)) [
  | inl e ↦
      let same : ([], bs) ≡ c = ground (arith, h, e) in
      subst (λ d. length d.1 < length (b ∷ bs)) same (omega arith)
  | inr n ↦
      let inner : with_first b (cut_line bs) ≡ some c = ground (arith, h, n) in
      let (d, e, same) = with_first-some b (cut_line bs) c inner in
      subst (λ x. length x.1 < length (b ∷ bs)) same
        (let shorter = cut_line-shorter bs d e in omega arith)
]

-- The loop is that.
take_lines-feed :
    (fuel : ℕ) (bs : List ℕ) (logged : List (List ℕ))
    → length bs < fuel
    → take_lines fuel bs logged ≡ feed bs [] logged
unfolding take_lines
take_lines-feed zero bs logged h = absurd (omega arith)
take_lines-feed (suc fuel) bs logged h = elim (Option-cases (cut_line bs)) [
  | inl e ↦ rw (e, take_lines) (sym (feed-none bs [] logged e))
  | inr (c, e) ↦
      let shorter = cut_line-shorter bs c e in
      rw (e, take_lines)
        (take_lines-feed fuel c.1 (log_line c.0 logged) (omega arith)
          ∙ sym (feed-some bs [] logged c e))
]

feed-whole :
    (bs line : List ℕ) (logged : List (List ℕ))
    → cut_line line ≡ none
    → feed (line ++ bs) [] logged ≡ feed bs line logged
feed-whole bs line logged h =
    feed-append line bs [] logged ∙ ap (λ s. feed bs s.0 s.1) (feed-none line [] logged h)

pub last_bytes-all : (n : ℕ) (b : List ℕ) → length b ≤ n → last_bytes n b ≡ b
unfolding last_bytes
last_bytes-all n b h = ground arith

-- One write on a writer without a whole line pending.
pub write-feed :
    (p : List ℕ) (w : LineWriter)
    → cut_line w.pending ≡ none
    → write_stderr p w ≡ (
        let s = feed p w.pending w.logged in
        record { pending = last_bytes max_pending s.0; logged = s.1 })
unfolding write_stderr
write-feed p w h =
    ap (λ s. record { pending = last_bytes max_pending s.0; logged = s.1 })
      (take_lines-feed (suc (length (w.pending ++ p))) (w.pending ++ p) w.logged (omega arith)
        ∙ feed-whole p w.pending w.logged h)

snoc-lineless :
    (line : List ℕ) (b : ℕ)
    → cut_line line ≡ none
    → (b == newline) ≡ false
    → cut_line (line ++ b ∷ []) ≡ none
unfolding cut_line
snoc-lineless [] b h n = rw n
snoc-lineless (c ∷ line) b h n = elim (Bool-cases (c == newline)) [
  | inl e ↦ ground (arith, h, e)
  | inr m ↦
      rw m (rw (snoc-lineless line b (lineless_tail (cut_line line) (ground (arith, h, m))) n))
]
  where
    lineless_tail : (r : Option (List ℕ × List ℕ)) → with_first c r ≡ none → r ≡ none
    lineless_tail none e = refl
    lineless_tail (some d) e = cc

pub feed-lineless :
    (bs line : List ℕ) (logged : List (List ℕ))
    → cut_line line ≡ none
    → cut_line (feed bs line logged).0 ≡ none
unfolding feed
feed-lineless [] line logged h = h
feed-lineless (b ∷ bs) line logged h = elim (Bool-cases (b == newline)) [
  | inl e ↦ rw e (feed-lineless bs [] (log_line line logged) (unfold cut_line in refl))
  | inr n ↦ rw n (feed-lineless bs (line ++ b ∷ []) logged (snoc-lineless line b h n))
]

-- Where the limit is not passed a write is `feed`.
pub whole-feed :
    (p : List ℕ) (w : LineWriter)
    → cut_line w.pending ≡ none
    → whole_pending p w ≡ (feed p w.pending w.logged).0
whole-feed p w h =
    ap (λ s. s.0)
      (take_lines-feed (suc (length (w.pending ++ p))) (w.pending ++ p) w.logged (omega arith)
        ∙ feed-whole p w.pending w.logged h)

pub short-write :
    (p : List ℕ) (w : LineWriter)
    → cut_line w.pending ≡ none
    → length (whole_pending p w) ≤ max_pending
    → write_stderr p w
      ≡ (let s = feed p w.pending w.logged in record { pending = s.0; logged = s.1 })
short-write p w h short =
    let s = feed p w.pending w.logged in
    write-feed p w h
    ∙ ap (λ l. record { pending = l; logged = s.1 })
        (last_bytes-all max_pending s.0
          (subst (λ l. length l ≤ max_pending) (whole-feed p w h) short))
