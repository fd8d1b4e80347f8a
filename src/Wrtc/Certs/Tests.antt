-- ===== src/Wrtc/Certs/Tests.antt =====
-- A pool of two certificates at work.
use gotgcall.Wrtc.Certs.Print.{cert_fingerprint, cert_fingerprint-reads, print_hash, read_print}
use gotgcall.Wrtc.Certs.Fresh.{count, pool_history-Fresh}
use gotgcall.Wrtc.Certs.Backoff.{pool_history-stopped}
use gotgcall.Wrtc.Certs.{PoolEvent, closes, new_pool, pool_history, refills, stopped, takes}
use gotgcall.Base.{
  Bytes, List, [], arith, codes, false, length, refl, replicate, some, true, ℕ, ◌+◌, ◌∷◌, ◌≡◌, ◌≤◌,
}

abbrev busy : List PoolEvent
busy =
    refills true
    ∷ refills true
    ∷ takes true false true
    ∷ refills false
    ∷ takes true false true
    ∷ refills true
    ∷ refills true
    ∷ closes
    ∷ []

pool_history-Fresh_example :
    let p = pool_history busy (new_pool 2) in
    ((n : ℕ) → count n p.handed + count n p.queue ≤ 1) × (length p.queue ≤ 2)
pool_history-Fresh_example = pool_history-Fresh 2 busy

busy_handed : (pool_history busy (new_pool 2)).handed ≡ 0 ∷ 1 ∷ []
unfolding pool_history new_pool
busy_handed = refl

abbrev ending : List PoolEvent
ending = refills true ∷ takes true false true ∷ refills false ∷ []

pool_history-stopped_example :
    (pool_history ending (pool_history busy (new_pool 2))).refill ≡ stopped
unfolding pool_history new_pool
pool_history-stopped_example =
    pool_history-stopped ending (pool_history busy (new_pool 2)) refl (omega arith)

-- A hash of 32 equal bytes.
abbrev equal_bytes : Bytes → Bytes
equal_bytes der = replicate 32 171

cert_fingerprint-reads_example :
    (text : Bytes) × (cert_fingerprint equal_bytes (some (48 ∷ [])) ≡ some text)
    × (length text ≡ 95)
    × (read_print text ≡ equal_bytes (48 ∷ []))
cert_fingerprint-reads_example =
    cert_fingerprint-reads equal_bytes (48 ∷ []) (omega arith) (omega arith)

two_bytes_print : print_hash (171 ∷ 5 ∷ []) ≡ codes "AB:05"
unfolding print_hash
two_bytes_print = refl
