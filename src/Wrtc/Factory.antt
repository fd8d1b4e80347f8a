-- ===== src/Wrtc/Factory.antt =====
-- wrtc/peer_factory.go and wrtc/native/factory.go: the two factories. What the operating system and
-- the libraries return is an argument.
pub mod Filters
pub mod Servers
pub mod Closing
mod Tests
use gotgcall.Wrtc.Ssrc.{StackSsrcs, stack_ssrcs}
use gotgcall.Wrtc.Certs.{
  Pool, Taken, cancelled, close_pool, keygen_failed, new_pool, take_cert, took,
}
use gotgcall.Models.{Error, client_closed, foreign}
use gotgcall.Base.{
  Bool, Option, false, if◌then◌else◌, negsuc, none, pos, some, true, ℕ, ℤ, ◌*◌, ◌+◌, ◌/◌, ◌==◌,
}

-- The native Factory: its pool, its SSRC counter and its flag.
pub record Inner : Type 0 where
  pub pool : Pool
  pub counter : ℕ
  pub inner_closed : Bool

-- Factory; `monitor_stops`, `pool_closes` and `mux_closes` count what Close did.
pub record Factory : Type 0 where
  pub inner : Inner
  pub has_mux : Bool
  pub factory_closed : Bool
  pub monitor_stops : ℕ
  pub pool_closes : ℕ
  pub mux_closes : ℕ

-- The seed of the native factory, from a random uint32 (`| 1`).
abbrev pub seed_of : ℕ → ℕ
seed_of random = random / 2 * 2 + 1

-- native.NewFactory: a size of 0 is 8; a negative one, which disables the pool, is 0 here too.
-- rand.Read is documented to return no error; `random` is what it reads.
unfoldable pub new_inner : ℤ → ℕ → Inner
new_inner size random = record {
  pool = new_pool (elim size [ negsuc n ↦ 0 | pos n ↦ if n == 0 then 8 else n ]);
  counter = seed_of random;
  inner_closed = false;
}

-- NewFactory: what translating the servers and what listening on the shared socket returned.
unfoldable pub new_factory :
    Option Error → Bool → Option Error → ℤ → ℕ → Option Factory × Option Error
unfolding new_inner
new_factory (some e) shared listening size random = (none, some e)
new_factory none shared listening size random = elim (if shared then listening else none) [
  | some e ↦ (none, some e)
  | none ↦ (
    some (record {
      inner = new_inner size random;
      has_mux = shared;
      factory_closed = false;
      monitor_stops = 0;
      pool_closes = 0;
      mux_closes = 0;
    }),
    none,
  )
]

-- native.ErrClosed, which is not ErrClosed of the models.
abbrev pub native_closed : Error
native_closed = foreign 1

-- What Take returns, as an error of NewStack.
abbrev pub take_error : Taken → Option Error
take_error (took c) = none
take_error cancelled = some (foreign 2)
take_error keygen_failed = some (foreign 3)

-- The SSRCs of a stack and its certificate.
pub record StackParts : Type 0 where
  pub part_ssrcs : StackSsrcs
  pub part_cert : Taken

-- The choices of Take: a certificate over the context, the context, the certificate made inline.
pub record TakeInputs : Type 0 where
  pub choose_cert : Bool
  pub ctx_done : Bool
  pub makes : Bool

-- native Factory.NewStack up to the call of NewStack; `during` is what others do after the test.
unfoldable pub inner_new_stack :
    Bool → TakeInputs → (Inner → Inner) → Inner → Inner × Option StackParts × Option Error
inner_new_stack with_video i during f =
    let f1 = during f in
    let (pool1, taken) = take_cert i.choose_cert i.ctx_done i.makes f1.pool in
    let s = stack_ssrcs with_video f1.counter in
    if f.inner_closed then (f, none, some native_closed) else elim (take_error taken) [
      | some e ↦ (record f1 { pool = pool1 }, none, some e)
      | none ↦ (
        record f1 { pool = pool1; counter = s.counter },
        some (record { part_ssrcs = s; part_cert = taken }),
        none,
      )
    ]

-- newStack; `between` is what others do between its own test and that of the native factory.
unfoldable pub factory_new_stack :
    TakeInputs
    → (Factory → Factory)
    → (Inner → Inner)
    → Factory
    → Factory × Option StackParts × Option Error
unfolding inner_new_stack
factory_new_stack i between during f =
    let f1 = between f in
    let (inner1, made_stack, e) = inner_new_stack true i during f1.inner in
    if f.factory_closed
    then (f, none, some client_closed)
    else (record f1 { inner = inner1 }, made_stack, e)

-- native Factory.Close
unfoldable pub close_inner : Inner → Inner
close_inner f =
    if f.inner_closed then f else record f { inner_closed = true; pool = close_pool f.pool }

-- Close: with what closing the shared socket returned. Closing the native factory returns no error.
unfoldable pub close_factory : Option Error → Factory → Factory × Option Error
unfolding close_inner
close_factory mux_error f = if f.factory_closed then (f, none) else (
  record f {
    factory_closed = true;
    inner = close_inner f.inner;
    monitor_stops = f.monitor_stops + 1;
    pool_closes = f.pool_closes + (if f.inner.inner_closed then 0 else 1);
    mux_closes = f.mux_closes + (if f.has_mux then 1 else 0);
  },
  if f.has_mux then mux_error else none,
)
