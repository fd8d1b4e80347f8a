-- ===== src/Wrtc/Factory/Closing.antt =====
-- Close of the factory, among the stacks that it makes.
use gotgcall.Wrtc.Factory.{
  Factory, Inner, TakeInputs, close_factory, close_inner, factory_new_stack, inner_new_stack,
  native_closed, new_factory, take_error, new_inner,
}
use gotgcall.Wrtc.Certs.{Pool, close_pool, take_cert, take_inline, take_queued, new_pool}
use gotgcall.Models.{Error}
use gotgcall.Base.{
  Bool, List, Option, [], arith, false, if◌then◌else◌, none, some, true, ℕ, ℤ, ◌&&◌, ◌∷◌, ◌≡◌,
  has_some,
}

pub data FactoryEvent : Type 0 where
  factory_closes : Option Error → FactoryEvent
  makes_stack : TakeInputs → FactoryEvent

unfoldable pub factory_event : FactoryEvent → Factory → Factory
unfolding close_factory factory_new_stack
factory_event (factory_closes e) f = (close_factory e f).0
factory_event (makes_stack i) f = (factory_new_stack i (λ g. g) (λ g. g) f).0

unfoldable pub factory_history : List FactoryEvent → Factory → Factory
unfolding factory_event
factory_history [] f = f
factory_history (e ∷ es) f = factory_history es (factory_event e f)

abbrev pub one_if : Bool → ℕ
one_if b = if b then 1 else 0

-- What Close shuts down was shut down once, or not at all where it was not called.
pub record ClosesOnce (mux : Bool) (f : Factory) : Type 0 where
  pub same_mux : f.has_mux ≡ mux
  pub same_flag : f.inner.inner_closed ≡ f.factory_closed
  pub monitor_once : f.monitor_stops ≡ one_if f.factory_closed
  pub pool_once : f.pool_closes ≡ one_if f.factory_closed
  pub mux_once : f.mux_closes ≡ one_if (f.factory_closed && mux)
  pub pool_shut : f.inner.pool.pool_closed ≡ f.factory_closed

take_cert-closed : (c d m : Bool) (p : Pool) → (take_cert c d m p).0.pool_closed ≡ p.pool_closed
unfolding take_cert take_queued take_inline
take_cert-closed c d m p = ground arith

inner_new_stack-flags :
    (with_video : Bool) (i : TakeInputs) (f : Inner)
    → ((inner_new_stack with_video i (λ g. g) f).0.inner_closed ≡ f.inner_closed)
      × ((inner_new_stack with_video i (λ g. g) f).0.pool.pool_closed ≡ f.pool.pool_closed)
unfolding inner_new_stack
inner_new_stack-flags with_video i f =
    let t = take_cert-closed i.choose_cert i.ctx_done i.makes f.pool in
    (ground (arith, t), ground (arith, t))

factory_event-ClosesOnce :
    (mux : Bool) (e : FactoryEvent) (f : Factory)
    → ClosesOnce mux f
    → ClosesOnce mux (factory_event e f)
unfolding factory_event close_factory factory_new_stack close_inner close_pool
factory_event-ClosesOnce mux (factory_closes e) f c = record {
  same_mux = ground arith;
  same_flag = ground arith;
  monitor_once = ground arith;
  pool_once = ground arith;
  mux_once = ground arith;
  pool_shut = ground arith;
}
factory_event-ClosesOnce mux (makes_stack i) f c = record {
  same_mux = ground (arith, inner_new_stack-flags true i f.inner);
  same_flag = ground (arith, inner_new_stack-flags true i f.inner);
  monitor_once = ground (arith, inner_new_stack-flags true i f.inner);
  pool_once = ground (arith, inner_new_stack-flags true i f.inner);
  mux_once = ground (arith, inner_new_stack-flags true i f.inner);
  pool_shut = ground (arith, inner_new_stack-flags true i f.inner);
}

factory_history-Once :
    (mux : Bool) (es : List FactoryEvent) (f : Factory)
    → ClosesOnce mux f
    → ClosesOnce mux (factory_history es f)
unfolding factory_history
factory_history-Once mux [] f c = c
factory_history-Once mux (e ∷ es) f c =
    factory_history-Once mux es (factory_event e f) (factory_event-ClosesOnce mux e f c)

new_factory-ClosesOnce :
    (shared : Bool) (size : ℤ) (random : ℕ) (listening : Option Error) (f : Factory)
    → new_factory none shared listening size random ≡ (some f, none)
    → ClosesOnce shared f
unfolding new_factory new_inner new_pool
new_factory-ClosesOnce shared size random listening f h = record {
  same_mux = ground arith;
  same_flag = ground arith;
  monitor_once = ground arith;
  pool_once = ground arith;
  mux_once = ground arith;
  pool_shut = ground arith;
}

-- A factory that NewFactory made: whatever stacks it is asked for and however often it is closed,
-- one call after the other, the monitor is stopped, the pool closed and the shared socket closed
-- once where Close was called at all, and none of them where it was not.
pub factory_history-ClosesOnce :
    (shared : Bool) (size : ℤ) (random : ℕ) (listening : Option Error) (f : Factory)
    (es : List FactoryEvent)
    → new_factory none shared listening size random ≡ (some f, none)
    → ClosesOnce shared (factory_history es f)
factory_history-ClosesOnce shared size random listening f es h =
    factory_history-Once shared es f (new_factory-ClosesOnce shared size random listening f h)

-- A newStack of an open factory that a Close overlaps. Where the whole Close falls behind the test
-- of the factory, the error is the one of the native package, not ErrClosed of the models. Where it
-- falls behind the test of the native factory too, a certificate that Take still gets makes a stack
-- of a closed factory.
pub factory_new_stack-overlapped :
    (i : TakeInputs) (e : Option Error) (f : Factory)
    → f.factory_closed ≡ false
    → f.inner.inner_closed ≡ false
    → take_error (take_cert i.choose_cert i.ctx_done i.makes (close_pool f.inner.pool)).1 ≡ none
    → ((factory_new_stack i (λ g. (close_factory e g).0) (λ g. g) f).2 ≡ some native_closed)
      × (has_some (factory_new_stack i (λ g. g) close_inner f).1 ≡ true)
      × ((factory_new_stack i (λ g. g) close_inner f).0.inner.inner_closed ≡ true)
unfolding factory_new_stack inner_new_stack close_factory close_inner
factory_new_stack-overlapped i e f h k t = (ground arith, ground arith, ground arith)
