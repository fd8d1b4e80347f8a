-- ===== src/Wrtc/Factory/Tests.antt =====
-- A factory with a shared socket.
use gotgcall.Wrtc.Factory.Filters.{default_interface_filter}
use gotgcall.Wrtc.Factory.Closing.{
  ClosesOnce, FactoryEvent, factory_closes, factory_history, factory_history-ClosesOnce,
  makes_stack,
}
use gotgcall.Wrtc.Factory.{Factory, TakeInputs, new_factory, new_inner}
use gotgcall.Wrtc.Certs.{new_pool}
use gotgcall.Base.{List, [], codes, false, lower_byte, none, pos, refl, true, ◌∷◌, ◌≡◌}

abbrev calm : TakeInputs
calm = record { choose_cert = true; ctx_done = false; makes = true }

abbrev factory : Factory
factory = record {
  inner = new_inner (pos 0) 90;
  has_mux = true;
  factory_closed = false;
  monitor_stops = 0;
  pool_closes = 0;
  mux_closes = 0;
}

abbrev a_day : List FactoryEvent
a_day = makes_stack calm ∷ factory_closes none ∷ makes_stack calm ∷ factory_closes none ∷ []

factory_history-ClosesOnce_example : ClosesOnce true (factory_history a_day factory)
unfolding new_factory
factory_history-ClosesOnce_example =
    factory_history-ClosesOnce true (pos 0) 90 none factory a_day refl

factory_day : (factory_history a_day factory).mux_closes ≡ 1
unfolding factory_history new_inner new_pool
factory_day = refl

virtual_skipped : default_interface_filter (codes "VMware Network Adapter") ≡ false
unfolding default_interface_filter lower_byte
virtual_skipped = refl
