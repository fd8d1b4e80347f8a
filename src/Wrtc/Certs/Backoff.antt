-- ===== src/Wrtc/Certs/Backoff.antt =====
-- The goroutine refill: its backoff, and its end.
use gotgcall.Wrtc.Certs.{
  Pool, PoolEvent, Refill, at_round, closes, in_backoff, max_backoff, min_backoff, next_backoff,
  pool_event, pool_history, refill_round, refill_wakes, refills, sending, stopped, takes, refill_at,
  refill_sends, refill_step, take_cert, take_inline, take_queued,
}
use gotgcall.Base.{
  List, [], arith, false, min, refl, suc, true, zero, ℕ, ◌*◌, ◌-◌, ◌<◌, ◌^◌, ◌∷◌, ◌≡◌, ◌≤◌, Bool,
  ap, ◌∙◌,
}

-- Failures of generateECDSACert one after the other, each waited out.
unfoldable pub failures : ℕ → Pool → Pool
failures zero p = p
failures (suc n) p = refill_wakes true (refill_round false (failures n p))

abbrev pub capped : ℕ → ℕ
capped b = min max_backoff b

next_backoff-capped : (b : ℕ) → 0 < b → next_backoff (capped b) ≡ capped (b * 2)
unfolding next_backoff
next_backoff-capped b h = ground arith

pow-suc : (n : ℕ) → 2 ^ suc n ≡ 2 * 2 ^ n
pow-suc n = omega arith

pow-pos : (n : ℕ) → 0 < 2 ^ n
pow-pos zero = omega arith
pow-pos (suc n) = omega (arith, pow-pos n)

-- In an open pool that starts a round with the least backoff the wait after the n-th failure in a
-- row is 100 ms doubled n times, and never above 5 s.
pub failures-backoff :
    (n : ℕ) (p : Pool)
    → p.pool_closed ≡ false
    → p.backoff ≡ min_backoff
    → ((failures n p).backoff ≡ min max_backoff (min_backoff * 2 ^ n))
      × ((failures n p).pool_closed ≡ false)
unfolding failures refill_round refill_wakes
failures-backoff zero p h k = (ground arith, h)
failures-backoff (suc n) p h k =
    let rest = failures-backoff n p h k in
    let power = pow-suc n in
    let positive_wait : 0 < min_backoff * 2 ^ n = omega (arith, pow-pos n) in
    (
      ground (arith, rest, power, next_backoff-capped (min_backoff * 2 ^ n) positive_wait),
      ground (arith, rest),
    )

-- How many steps refill has at most once the pool is closed.
abbrev pub left : Refill → ℕ
left at_round = 1
left in_backoff = 2
left (sending c) = 2
left stopped = 0

abbrev pub refill_steps : List PoolEvent → ℕ
refill_steps [] = 0
refill_steps (refills b ∷ es) = suc (refill_steps es)
refill_steps (takes a b c ∷ es) = refill_steps es
refill_steps (closes ∷ es) = refill_steps es

refill_at-left :
    (b : Bool) (r : Refill) (p : Pool)
    → p.refill ≡ r
    → p.pool_closed ≡ true
    → ((refill_at b r p).pool_closed ≡ true) × (left (refill_at b r p).refill ≤ left r - 1)
unfolding refill_at refill_round refill_wakes refill_sends
refill_at-left b at_round p e h = ground arith
refill_at-left b in_backoff p e h = ground arith
refill_at-left b (sending c) p e h = ground arith
refill_at-left b stopped p e h = ground arith

take_cert-left :
    (a b c : Bool) (p : Pool)
    → ((take_cert a b c p).0.pool_closed ≡ p.pool_closed)
      × ((take_cert a b c p).0.refill ≡ p.refill)
unfolding take_cert take_queued take_inline
take_cert-left a b c p = (ground arith, ground arith)

closed-step :
    (e : PoolEvent) (p : Pool)
    → p.pool_closed ≡ true
    → ((pool_event e p).pool_closed ≡ true)
      × (left (pool_event e p).refill ≤ left p.refill - refill_steps (e ∷ []))
unfolding pool_event refill_step
closed-step (refills b) p h = refill_at-left b p.refill p refl h
closed-step (takes a b c) p h =
    let t = take_cert-left a b c p in (t.0 ∙ h, omega (arith, ap left t.1))
closed-step closes p h = (refl, omega arith)

closed-history :
    (es : List PoolEvent) (p : Pool)
    → p.pool_closed ≡ true
    → left (pool_history es p).refill ≤ left p.refill - refill_steps es
unfolding pool_history
closed-history [] p h = omega arith
closed-history (e ∷ es) p h =
    let s = closed-step e p h in ground (arith, closed-history es (pool_event e p) s.0, s.1)

left-stopped : (r : Refill) → left r ≤ 0 → r ≡ stopped
left-stopped at_round h = absurd (omega arith)
left-stopped in_backoff h = absurd (omega arith)
left-stopped (sending c) h = absurd (omega arith)
left-stopped stopped h = refl

left-le : (r : Refill) → left r ≤ 2
left-le at_round = omega arith
left-le in_backoff = omega arith
left-le (sending c) = omega arith
left-le stopped = omega arith

-- Once the pool is closed, refill has ended after two steps of its own, whatever the pool was doing,
-- whatever is taken meanwhile and whichever cases its selects choose, so the wait of Close ends.
pub pool_history-stopped :
    (es : List PoolEvent) (p : Pool)
    → p.pool_closed ≡ true
    → 2 ≤ refill_steps es
    → (pool_history es p).refill ≡ stopped
pool_history-stopped es p h k =
    left-stopped (pool_history es p).refill (omega (arith, closed-history es p h, left-le p.refill))
