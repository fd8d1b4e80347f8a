-- ===== src/Wrtc/Certs.antt =====
-- wrtc/native/certpool.go: the pool of certificates. A certificate is the number of the call of
-- generateECDSACert that made it; whether that call succeeds is an argument. Every channel operation
-- is an atomic step. Times are in milliseconds.
pub mod Fresh
pub mod Backoff
pub mod Print
mod Tests
use gotgcall.Base.{
  Bool, List, [], false, if◌then◌else◌, length, ltb, not, true, ℕ, ◌&&◌, ◌*◌, ◌++◌, ◌+◌, ◌||◌, ◌∷◌,
}

-- Where the goroutine refill is: before a round, waiting out the backoff, sending a certificate, or
-- gone.
pub data Refill : Type 0 where
  at_round : Refill
  in_backoff : Refill
  sending : ℕ → Refill
  stopped : Refill

-- CertPool; `has_queue` says that `ch` is not nil. `made` is the number of certificates so far and
-- `handed` the history of those that Take returned.
pub record Pool : Type 0 where
  pub has_queue : Bool
  pub capacity : ℕ
  pub queue : List ℕ
  pub pool_closed : Bool
  pub refill : Refill
  pub backoff : ℕ
  pub made : ℕ
  pub handed : List ℕ

abbrev pub min_backoff : ℕ
min_backoff = 100

abbrev pub max_backoff : ℕ
max_backoff = 5000

-- NewCertPool at a size above 0, and at one that disables the pool.
unfoldable pub new_pool : ℕ → Pool
new_pool size = record {
  has_queue = ltb 0 size;
  capacity = size;
  queue = [];
  pool_closed = false;
  refill = if ltb 0 size then at_round else stopped;
  backoff = min_backoff;
  made = 0;
  handed = [];
}

-- The backoff after a failure
unfoldable pub next_backoff : ℕ → ℕ
next_backoff b =
    if ltb b max_backoff then (if ltb max_backoff (b * 2) then max_backoff else b * 2) else b

-- A round of refill up to its wait: what generateECDSACert returned, `true` for a certificate.
unfoldable pub refill_round : Bool → Pool → Pool
refill_round made_one p =
    if p.pool_closed
    then record p { refill = stopped }
    else if made_one
    then record p { refill = sending p.made; made = p.made + 1; backoff = min_backoff }
    else record p { refill = in_backoff }

-- The `select` of the backoff: the timer, or the pool is closed.
unfoldable pub refill_wakes : Bool → Pool → Pool
unfolding next_backoff
refill_wakes timer p =
    if timer
    then record p { refill = at_round; backoff = next_backoff p.backoff }
    else if p.pool_closed
    then record p { refill = stopped }
    else p

-- The `select` of the sending: there is room and that case is chosen, or the pool is closed.
unfoldable pub refill_sends : Bool → ℕ → Pool → Pool
refill_sends choose_send c p =
    if choose_send && ltb (length p.queue) p.capacity
    then record p { refill = at_round; queue = p.queue ++ c ∷ [] }
    else if p.pool_closed
    then record p { refill = stopped }
    else p

-- A step of refill, with what it meets.
unfoldable pub refill_at : Bool → Refill → Pool → Pool
unfolding refill_round refill_wakes refill_sends
refill_at choice at_round p = refill_round choice p
refill_at choice in_backoff p = refill_wakes choice p
refill_at choice (sending c) p = refill_sends choice c p
refill_at choice stopped p = p

unfoldable pub refill_step : Bool → Pool → Pool
unfolding refill_at
refill_step choice p = refill_at choice p.refill p

-- What Take returns.
pub data Taken : Type 0 where
  took : ℕ → Taken
  cancelled : Taken
  keygen_failed : Taken

-- generateECDSACert in Take
unfoldable pub take_inline : Bool → Pool → Pool × Taken
take_inline made_one p =
    if made_one
    then (record p { made = p.made + 1; handed = p.handed ++ p.made ∷ [] }, took p.made)
    else (p, keygen_failed)

-- The `select` of Take: with a certificate and a cancelled context there, `choose_cert` decides.
unfoldable pub take_queued : Bool → Bool → Bool → List ℕ → Pool → Pool × Taken
unfolding take_inline
take_queued choose_cert ctx_done made_one [] p =
    if ctx_done then (p, cancelled) else take_inline made_one p
take_queued choose_cert ctx_done made_one (c ∷ cs) p =
    if choose_cert || not ctx_done
    then (record p { queue = cs; handed = p.handed ++ c ∷ [] }, took c)
    else (p, cancelled)

-- Take
unfoldable pub take_cert : Bool → Bool → Bool → Pool → Pool × Taken
unfolding take_queued take_inline
take_cert choose_cert ctx_done made_one p =
    if p.has_queue
    then take_queued choose_cert ctx_done made_one p.queue p
    else take_inline made_one p

-- Close, up to its wait for refill
unfoldable pub close_pool : Pool → Pool
close_pool p = record p { pool_closed = true }

pub data PoolEvent : Type 0 where
  refills : Bool → PoolEvent
  takes : Bool → Bool → Bool → PoolEvent
  closes : PoolEvent

unfoldable pub pool_event : PoolEvent → Pool → Pool
unfolding refill_step take_cert close_pool
pool_event (refills choice) p = refill_step choice p
pool_event (takes choose_cert ctx_done made_one) p = (take_cert choose_cert ctx_done made_one p).0
pool_event closes p = close_pool p

unfoldable pub pool_history : List PoolEvent → Pool → Pool
unfolding pool_event
pool_history [] p = p
pool_history (e ∷ es) p = pool_history es (pool_event e p)
