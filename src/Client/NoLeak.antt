-- ===== src/Client/NoLeak.antt =====
-- No call is lost, whatever happens.
use gotgcall.Models.{client_closed}
use gotgcall.Client.Methods.{close_client, lookup_call, missing}
use gotgcall.Client.Tidy.{IsTidy, Holds}
use gotgcall.Client.Shutdown.{close_client-IsTidy, close_client-shut, lookup-closed}
use gotgcall.Client.Registry.{CallOps, Client, new_client}
use gotgcall.Client.Keeping.{
  Keeps, create_call-Keeps, plain_method-Keeps, run_object-Keeps, setup_method-IsTidy,
  setup_method-Keeps, stop_chat-Keeps,
}
use gotgcall.Client.Events.{
  ClientAct, ClientEvent, ClientStep, acts, all_of, all_of-keeps, client_act, client_event,
  client_history, client_step, closes_client, creates, creates_amid, does, runs, sets_up,
  sets_up_amid, stops, uses_call,
}
use gotgcall.Base.{Bool, Bool-cases, List, false, find, inl, inr, refl, some, true, ℕ, ◌≡◌, ◌⊎◌}

module _ {Call Method : Type 0} (ops : CallOps Call Method) where
  open ops use {is_stopped}

  client_step-Keeps :
      (s : Bool) (e : ClientStep Call Method) (c : Client Call)
      → Keeps ops s c
      → Keeps ops s (client_step ops e c)
  unfolding client_step
  client_step-Keeps s (creates chat m params) c k =
      create_call-Keeps ops s chat m params (λ x. x) (λ x v. v) c k
  client_step-Keeps s (sets_up chat m) c k = setup_method-Keeps ops s chat m c k
  client_step-Keeps s (uses_call chat m) c k = plain_method-Keeps ops s chat m c k
  client_step-Keeps s (runs o m) c k = run_object-Keeps ops s o m c k
  client_step-Keeps s (stops chat) c k = stop_chat-Keeps ops s chat c k

  client_act-IsTidy :
      (e : ClientAct Call Method) (c : Client Call) → IsTidy ops c → IsTidy ops (client_act ops e c)
  unfolding client_act
  client_act-IsTidy (does e) c v = (client_step-Keeps c.shut e c (v, refl)).0
  client_act-IsTidy closes_client c v = close_client-IsTidy ops c v

  client_event-IsTidy :
      (e : ClientEvent Call Method) (c : Client Call)
      → IsTidy ops c
      → IsTidy ops (client_event ops e c)
  unfolding client_event
  client_event-IsTidy (acts a) c v = client_act-IsTidy a c v
  client_event-IsTidy (creates_amid chat m params es) c v =
      (create_call-Keeps ops c.shut chat m params (all_of (client_step ops) es)
        (all_of-keeps (client_step ops) (Keeps ops false) (client_step-Keeps false) es) c
        (v, refl)).0
  client_event-IsTidy (sets_up_amid chat m es) c v =
      setup_method-IsTidy ops chat m (all_of (client_act ops) es)
        (all_of-keeps (client_act ops) (IsTidy ops) client_act-IsTidy es) c v

  new_client-IsTidy : IsTidy ops new_client
  unfolding find
  new_client-IsTidy = record {
    made_ones = record { fresh = λ o le. refl; entries = λ chat o f. cc };
    held = λ o r. let (call, f, n) = r in cc;
  }

  client_history-IsTidy :
      (es : List (ClientEvent Call Method)) → IsTidy ops (client_history ops es new_client)
  unfolding client_history
  client_history-IsTidy es =
      all_of-keeps (client_event ops) (IsTidy ops) client_event-IsTidy es new_client
        new_client-IsTidy

  -- Whatever is called in whatever order, also while CreateCall, StartRTMP, Connect and
  -- SetStreamSources are under way, though not Close during the first two nor anything amid Stop:
  -- every call ever made that is not stopped is in the map, and the client is then open.
  pub client_history-no_leak :
      (es : List (ClientEvent Call Method)) (o : ℕ) (call : Call)
      → find o (client_history ops es new_client).objects ≡ some call
      → (is_stopped call ≡ true) ⊎ Holds ops o (client_history ops es new_client)
  client_history-no_leak es o call f = elim (Bool-cases (is_stopped call)) [
    | inl stopped ↦ inl stopped
    | inr running ↦ inr ((client_history-IsTidy es).held o (call, f, running))
  ]

  IsTidy-stopped :
      (o : ℕ) (call : Call) (c : Client Call)
      → IsTidy ops c
      → c.shut ≡ true
      → find o c.objects ≡ some call
      → is_stopped call ≡ true
  IsTidy-stopped o call c v s f = elim (Bool-cases (is_stopped call)) [
    | inl stopped ↦ stopped
    | inr running ↦ let (open_one, h) = v.held o (call, f, running) in cc
  ]

  -- After such a history Close leaves every call ever made stopped, and every later method of the
  -- client gets ErrClosed.
  pub close_client-stops_all :
      (es : List (ClientEvent Call Method)) (o chat : ℕ) (call : Call)
      → find o (close_client ops (client_history ops es new_client)).objects ≡ some call
      → (is_stopped call ≡ true)
        × (lookup_call chat (close_client ops (client_history ops es new_client))
            ≡ missing client_closed)
  close_client-stops_all es o chat call f =
      let c = client_history ops es new_client in
      let shut = close_client-shut ops c in
      (
        IsTidy-stopped o call (close_client ops c)
            (close_client-IsTidy ops c (client_history-IsTidy es)) shut f,
        lookup-closed chat (close_client ops c) shut,
      )
