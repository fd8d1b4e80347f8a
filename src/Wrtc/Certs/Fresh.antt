-- ===== src/Wrtc/Certs/Fresh.antt =====
-- Which certificates the pool hands out, by how often each one is somewhere.
use gotgcall.Wrtc.Certs.{
  Pool, Refill, at_round, in_backoff, refill_round, refill_sends, refill_wakes, sending, stopped,
  take_cert, refill_at, PoolEvent, Taken, close_pool, closes, new_pool, pool_event, pool_history,
  refill_step, refills, take_inline, take_queued, takes,
}
use gotgcall.Base.{
  Bool, List, [], arith, if◌then◌else◌, length, ltb, ℕ, ◌++◌, ◌+◌, ◌==◌, ◌∷◌, ◌≡◌, ◌≤◌, ap,
  if-either, length-append, refl,
}

abbrev pub count : ℕ → List ℕ → ℕ
count n [] = 0
count n (x ∷ xs) = (if x == n then 1 else 0) + count n xs

count-append : (n : ℕ) (xs ys : List ℕ) → count n (xs ++ ys) ≡ count n xs + count n ys
count-append n [] ys = omega arith
count-append n (x ∷ xs) ys = omega (arith, count-append n xs ys)

-- The certificate that refill holds.
abbrev pub held : Refill → List ℕ
held at_round = []
held in_backoff = []
held (sending c) = c ∷ []
held stopped = []

-- A certificate that was made is at one place at most, and one that was not at none.
record IsFresh (size : ℕ) (p : Pool) : Type 0 where
  at_most_once :
      (n : ℕ)
      → count n p.handed + count n p.queue + count n (held p.refill)
        ≤ (if ltb n p.made then 1 else 0)
  within : length p.queue ≤ size
  same_size : p.capacity ≡ size

module _ (size : ℕ) where
  refill_at-IsFresh :
      (b : Bool) (r : Refill) (p : Pool)
      → p.refill ≡ r
      → IsFresh size p
      → IsFresh size (refill_at b r p)
  unfolding refill_at refill_round refill_wakes refill_sends
  refill_at-IsFresh b at_round p e f = record {
    at_most_once = λ n. ground (arith, f.at_most_once n);
    within = ground (arith, f.within);
    same_size = ground (arith, f.same_size);
  }
  refill_at-IsFresh b in_backoff p e f = record {
    at_most_once = λ n. ground (arith, f.at_most_once n);
    within = ground (arith, f.within);
    same_size = ground (arith, f.same_size);
  }
  refill_at-IsFresh b (sending c) p e f = record {
    at_most_once = λ n. ground (arith, f.at_most_once n, count-append n p.queue (c ∷ []));
    within = ground (arith, f.within, f.same_size, length-append p.queue (c ∷ []));
    same_size = ground (arith, f.same_size);
  }
  refill_at-IsFresh b stopped p e f = f

  take_inline-IsFresh : (m : Bool) (p : Pool) → IsFresh size p → IsFresh size (take_inline m p).0
  unfolding take_inline
  take_inline-IsFresh m p f = record {
    at_most_once = λ n. ground (arith, f.at_most_once n, count-append n p.handed (p.made ∷ []));
    within = ground (arith, f.within);
    same_size = ground (arith, f.same_size);
  }

  take_queued-IsFresh :
      (c d m : Bool) (cs : List ℕ) (p : Pool)
      → p.queue ≡ cs
      → IsFresh size p
      → IsFresh size (take_queued c d m cs p).0
  unfolding take_queued
  take_queued-IsFresh c d m [] p e f =
      if-either (λ (r : Pool × Taken). IsFresh size r.0) d f (take_inline-IsFresh m p f)
  take_queued-IsFresh c d m (x ∷ cs) p e f = record {
    at_most_once =
        λ n. ground (arith, f.at_most_once n, count-append n p.handed (x ∷ []), ap (count n) e);
    within = ground (arith, f.within, ap length e);
    same_size = ground (arith, f.same_size);
  }

  take_cert-IsFresh :
      (c d m : Bool) (p : Pool) → IsFresh size p → IsFresh size (take_cert c d m p).0
  unfolding take_cert
  take_cert-IsFresh c d m p f =
      if-either (λ (r : Pool × Taken). IsFresh size r.0) p.has_queue
        (take_queued-IsFresh c d m p.queue p refl f) (take_inline-IsFresh m p f)

  pool_history-IsFresh :
      (es : List PoolEvent) (p : Pool) → IsFresh size p → IsFresh size (pool_history es p)
  unfolding pool_history pool_event refill_step close_pool
  pool_history-IsFresh [] p f = f
  pool_history-IsFresh (refills b ∷ es) p f =
      pool_history-IsFresh es (refill_step b p) (refill_at-IsFresh b p.refill p refl f)
  pool_history-IsFresh (takes c d m ∷ es) p f =
      pool_history-IsFresh es (take_cert c d m p).0 (take_cert-IsFresh c d m p f)
  pool_history-IsFresh (closes ∷ es) p f =
      pool_history-IsFresh es (close_pool p)
        (record { at_most_once = f.at_most_once; within = f.within; same_size = f.same_size })

new_pool-IsFresh : (size : ℕ) → IsFresh size (new_pool size)
unfolding new_pool
new_pool-IsFresh size = record {
  at_most_once = λ n. ground arith;
  within = omega arith;
  same_size = refl;
}

-- Under every interleaving of Take, Close and the goroutine refill, whichever cases their selects
-- choose and whichever certificates are made, no certificate is handed out twice or is handed out
-- and still in the queue, and the queue holds no more than the size of the pool.
pub pool_history-Fresh :
    (size : ℕ) (es : List PoolEvent)
    → let p = pool_history es (new_pool size) in
      ((n : ℕ) → count n p.handed + count n p.queue ≤ 1) × (length p.queue ≤ size)
pool_history-Fresh size es =
    let f = pool_history-IsFresh size es (new_pool size) (new_pool-IsFresh size) in
    (λ n. ground (arith, f.at_most_once n), f.within)
