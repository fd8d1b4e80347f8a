-- ===== src/Client/Failing.antt =====
-- A method that fails, and what its reaping does.
use gotgcall.Models.{Error}
use gotgcall.Client.Retire.{retire-free}
use gotgcall.Client.Registry.{CallOps, Client, forget, put, reap, stop_found, stop_object}
use gotgcall.Client.Methods.{found, lookup_call, run_object, setup_method}
use gotgcall.Base.{Option, arith, false, find, find-store, none, refl, some, ℕ, ◌==◌, ◌≡◌}

pub lookup-mine :
    {Call : Type 0} (chat o : ℕ) (c : Client Call)
    → c.shut ≡ false
    → find chat c.calls ≡ some o
    → lookup_call chat c ≡ found o
unfolding lookup_call
lookup-mine chat o c is_open mine = ground arith

module _ {Call Method : Type 0} (ops : CallOps Call Method) where
  open ops use {run, stop_call}

  stop_found-other :
      (o other : ℕ) (r : Option Call) (c : Client Call)
      → (o == other) ≡ false
      → find other (stop_found ops o r c).objects ≡ find other c.objects
  stop_found-other o other none c differ = refl
  stop_found-other o other (some call) c differ =
      ground (arith, find-store other o (stop_call call) c.objects)

  pub stop_object-other :
      (o other : ℕ) (c : Client Call)
      → (o == other) ≡ false
      → find other (stop_object ops o c).objects ≡ find other c.objects
  unfolding stop_object
  stop_object-other o other c differ = stop_found-other o other (find o c.objects) c differ

  pub stop_object-same :
      (o : ℕ) (call : Call) (c : Client Call)
      → find o c.objects ≡ some call
      → find o (stop_object ops o c).objects ≡ some (stop_call call)
  unfolding stop_object
  stop_object-same o call c f = rw f (ground (arith, find-store o o (stop_call call) c.objects))

  -- A method that fails, and the reaping after it.
  pub run_object-fails :
      (o : ℕ) (m : Method) (old : Call) (e : Error) (c : Client Call)
      → find o c.objects ≡ some old
      → (run m old).1 ≡ some e
      → run_object ops o m c ≡ (put o (run m old).0 c, some e)
  unfolding run_object
  run_object-fails o m old e c f failing = rw f (rw failing)

  pub reap-found :
      (chat o : ℕ) (c : Client Call)
      → find chat c.calls ≡ some o
      → reap ops chat c ≡ stop_object ops o (forget chat c)
  unfolding reap
  reap-found chat o c f = rw f

  -- By itself a failing Connect or SetStreamSources stops its own call.
  pub failing_alone :
      (chat o : ℕ) (m : Method) (old : Call) (e : Error) (c : Client Call)
      → c.shut ≡ false
      → find chat c.calls ≡ some o
      → find o c.objects ≡ some old
      → (run m old).1 ≡ some e
      → let r = setup_method ops chat m (λ x. x) c in
        (r.1 ≡ some e)
        × (find chat r.0.calls ≡ none)
        × (find o r.0.objects ≡ some (stop_call (run m old).0))
  unfolding setup_method
  failing_alone chat o m old e c is_open mine f failing =
      let d = put o (run m old).0 c in
      rw (lookup-mine chat o c is_open mine) (
        rw (run_object-fails o m old e c f failing) (
          rw (reap-found chat o d mine) (
            refl,
            retire-free ops chat o d,
            stop_object-same o (run m old).0 (forget chat d)
                (ground (arith, find-store o o (run m old).0 c.objects)),
          )))
