-- ===== src/Client/Keeping.antt =====
-- What the methods of a Client keep.
use gotgcall.Models.{ConnState, is_terminal, Error, client_closed}
use gotgcall.Client.Tidy.{IsTidy, run_object-IsTidy, IsMade}
use gotgcall.Client.Retire.{
  reap-IsTidy, reap-free, reap-shut, register-IsTidy, retire-IsTidy, stop_object-rest,
}
use gotgcall.Client.Registry.{
  CallOps, Client, live_with, net_at, reap, call_is_live, net_entry, net_found, register, forget,
}
use gotgcall.Client.Methods.{
  run_found, run_object, Made, create_call, create_made, create_unless, made, not_made, Found,
  found, found_at, lookup_call, missing, plain_at, plain_method, reap_if, setup_at, setup_method,
  stop_at, stop_chat, from_factory, made_rtmp,
}
use gotgcall.Base.{
  Bool, Option, false, find, if◌then◌else◌, none, refl, some, true, ℕ, ◌∙◌, ◌≡◌, has_some, arith,
  subst, sym,
}

found_at-found : (r : Option ℕ) (o : ℕ) → found_at r ≡ found o → r ≡ some o
found_at-found none o e = cc
found_at-found (some p) o e = cc

lookup-found :
    {Call : Type 0} (chat o : ℕ) (c : Client Call)
    → lookup_call chat c ≡ found o
    → find chat c.calls ≡ some o
unfolding lookup_call
lookup-found chat o c l = ground (arith, found_at-found (find chat c.calls) o)

module _ {Call Method : Type 0} (ops : CallOps Call Method) where
  open ops use {is_stopped}

  -- Tidy, and open if `s` is false.
  abbrev pub Keeps : Bool → Client Call → Type 0
  Keeps s c = IsTidy ops c × (c.shut ≡ s)

  run_found-shut :
      (o : ℕ) (m : Method) (r : Option Call) (c : Client Call)
      → (run_found ops o m r c).0.shut ≡ c.shut
  run_found-shut o m none c = refl
  run_found-shut o m (some call) c = refl

  run_object-shut : (o : ℕ) (m : Method) (c : Client Call) → (run_object ops o m c).0.shut ≡ c.shut
  unfolding run_object
  run_object-shut o m c = run_found-shut o m (find o c.objects) c

  pub run_object-Keeps :
      (s : Bool) (o : ℕ) (m : Method) (c : Client Call)
      → Keeps s c
      → Keeps s (run_object ops o m c).0
  run_object-Keeps s o m c (v, e) = (run_object-IsTidy ops o m c v, run_object-shut o m c ∙ e)

  reap-Keeps : (s : Bool) (chat : ℕ) (c : Client Call) → Keeps s c → Keeps s (reap ops chat c)
  reap-Keeps s chat c (v, e) = (reap-IsTidy ops chat c v, reap-shut ops chat c ∙ e)

  -- callIsLive, which leaves no entry where it says that no call is live.
  abbrev IsFree : ℕ → Client Call × Bool → Type 0
  IsFree chat r = r.1 ≡ false → find chat r.0.calls ≡ none

  net_found-some : (call : Option Call) → has_some call ≡ true → net_found ops call ≡ none → ⊥
  net_found-some none h e = cc
  net_found-some (some call) h e = cc

  net_entry-free :
      (chat : ℕ) (r : Option ℕ) (c : Client Call)
      → find chat c.calls ≡ r
      → IsMade ops c
      → net_entry ops r c ≡ none
      → r ≡ none
  net_entry-free chat none c f v e = refl
  net_entry-free chat (some o) c f v e =
      absurd (net_found-some (find o c.objects) (v.entries chat o f) e)

  live_with-Keeps :
      (s : Bool) (chat : ℕ) (net : Option ConnState) (c : Client Call)
      → net_at ops chat c ≡ net
      → Keeps s c
      → Keeps s (live_with ops chat net c).0 × IsFree chat (live_with ops chat net c)
  live_with-Keeps s chat none c e k =
      (k, λ _. net_entry-free chat (find chat c.calls) c refl k.0.made_ones e)
  live_with-Keeps s chat (some net) c e k =
      elim (is_terminal net)
        as (λ b.
          let r : Client Call × Bool = if b then (reap ops chat c, false) else (c, true) in
          Keeps s r.0 × IsFree chat r) [
            | true ↦ (reap-Keeps s chat c k, λ _. reap-free ops chat c)
            | false ↦ (k, λ q. cc)
          ]

  call_is_live-Keeps :
      (s : Bool) (chat : ℕ) (c : Client Call)
      → Keeps s c
      → Keeps s (call_is_live ops chat c).0 × IsFree chat (call_is_live ops chat c)
  unfolding call_is_live
  call_is_live-Keeps s chat c k = live_with-Keeps s chat (net_at ops chat c) c refl k

  -- The methods.
  create_made-Keeps :
      (chat : ℕ) (m : Made Call) (params : Option Error) (c : Client Call)
      → Keeps false c
      → find chat c.calls ≡ none
      → Keeps false (create_made ops chat m params c).0
  unfolding register
  create_made-Keeps chat (not_made e) params c k free = k
  create_made-Keeps chat (made call) none c (v, o) free =
      (register-IsTidy ops chat call c v free o, o)
  create_made-Keeps chat (made_rtmp call) params c (v, o) free =
      (register-IsTidy ops chat call c v free o, o)
  create_made-Keeps chat (made call) (some e) c (v, o) free =
      reap-Keeps false chat (register chat call c) (register-IsTidy ops chat call c v free o, o)

  create_unless-Keeps :
      (chat : ℕ) (m : Made Call) (params : Option Error) (r : Client Call × Bool)
      → Keeps false r.0
      → IsFree chat r
      → Keeps false (create_unless ops chat m params r).0
  create_unless-Keeps chat m params (c, true) k free = k
  create_unless-Keeps chat m params (c, false) k free =
      create_made-Keeps chat (from_factory c.factory_closed m) params c k (free refl)

  abbrev create_if :
      Bool
      → ℕ
      → Made Call
      → Option Error
      → (Client Call → Client Call)
      → Client Call
      → Client Call × Option Error
  create_if b chat m params during c =
      if b
      then (c, some client_closed)
      else create_unless ops chat m params (call_is_live ops chat (during c))

  create_if-Keeps :
      (s : Bool) (chat : ℕ) (m : Made Call) (params : Option Error)
      (during : Client Call → Client Call)
      → ((c : Client Call) → Keeps false c → Keeps false (during c))
      → (c : Client Call) → Keeps s c
      → Keeps s (create_if s chat m params during c).0
  create_if-Keeps true chat m params during keeps c k = k
  create_if-Keeps false chat m params during keeps c k =
      let live = call_is_live-Keeps false chat (during c) (keeps c k) in
      create_unless-Keeps chat m params (call_is_live ops chat (during c)) live.0 live.1

  pub create_call-Keeps :
      (s : Bool) (chat : ℕ) (m : Made Call) (params : Option Error)
      (during : Client Call → Client Call)
      → ((c : Client Call) → Keeps false c → Keeps false (during c))
      → (c : Client Call) → Keeps s c
      → Keeps s (create_call ops chat m params during c).0
  unfolding create_call
  create_call-Keeps s chat m params during keeps c k =
      subst (λ b. Keeps s (create_if b chat m params during c).0) (sym k.1)
        (create_if-Keeps s chat m params during keeps c k)

  plain_at-Keeps :
      (s : Bool) (f : Found) (m : Method) (c : Client Call)
      → Keeps s c
      → Keeps s (plain_at ops f m c).0
  plain_at-Keeps s (missing e) m c k = k
  plain_at-Keeps s (found o) m c k = run_object-Keeps s o m c k

  pub plain_method-Keeps :
      (s : Bool) (chat : ℕ) (m : Method) (c : Client Call)
      → Keeps s c
      → Keeps s (plain_method ops chat m c).0
  unfolding plain_method
  plain_method-Keeps s chat m c k = plain_at-Keeps s (lookup_call chat c) m c k

  reap_if-Keeps :
      (s : Bool) (chat : ℕ) (r : Client Call × Option Error)
      → Keeps s r.0
      → Keeps s (reap_if ops chat r).0
  reap_if-Keeps s chat (c, none) k = k
  reap_if-Keeps s chat (c, some e) k = reap-Keeps s chat c k

  -- What happens meanwhile may close the client.
  setup_at-IsTidy :
      (chat : ℕ) (f : Found) (m : Method) (during : Client Call → Client Call)
      → ((c : Client Call) → IsTidy ops c → IsTidy ops (during c))
      → (c : Client Call) → IsTidy ops c
      → IsTidy ops (setup_at ops chat f m during c).0
  setup_at-IsTidy chat (missing e) m during keeps c v = v
  setup_at-IsTidy chat (found o) m during keeps c v =
      let after = run_object-Keeps (during c).shut o m (during c) (keeps c v, refl) in
      (reap_if-Keeps (during c).shut chat (run_object ops o m (during c)) after).0

  pub setup_method-IsTidy :
      (chat : ℕ) (m : Method) (during : Client Call → Client Call)
      → ((c : Client Call) → IsTidy ops c → IsTidy ops (during c))
      → (c : Client Call) → IsTidy ops c
      → IsTidy ops (setup_method ops chat m during c).0
  unfolding setup_method
  setup_method-IsTidy chat m during keeps c v =
      setup_at-IsTidy chat (lookup_call chat c) m during keeps c v

  setup_at-shut :
      (s : Bool) (chat : ℕ) (f : Found) (m : Method) (c : Client Call)
      → Keeps s c
      → Keeps s (setup_at ops chat f m (λ x. x) c).0
  setup_at-shut s chat (missing e) m c k = k
  setup_at-shut s chat (found o) m c k =
      reap_if-Keeps s chat (run_object ops o m c) (run_object-Keeps s o m c k)

  pub setup_method-Keeps :
      (s : Bool) (chat : ℕ) (m : Method) (c : Client Call)
      → Keeps s c
      → Keeps s (setup_method ops chat m (λ x. x) c).0
  unfolding setup_method
  setup_method-Keeps s chat m c k = setup_at-shut s chat (lookup_call chat c) m c k

  stop_at-Keeps :
      (s : Bool) (chat : ℕ) (f : Found) (c : Client Call)
      → lookup_call chat c ≡ f
      → Keeps s c
      → Keeps s (stop_at ops chat f (λ x. x) c).0
  stop_at-Keeps s chat (missing e) c l k = k
  stop_at-Keeps s chat (found o) c l k = (
    retire-IsTidy ops chat o c (lookup-found chat o c l) k.0,
    (stop_object-rest ops o (forget chat c)).1 ∙ k.1,
  )

  pub stop_chat-Keeps :
      (s : Bool) (chat : ℕ) (c : Client Call)
      → Keeps s c
      → Keeps s (stop_chat ops chat (λ x. x) c).0
  unfolding stop_chat
  stop_chat-Keeps s chat c k = stop_at-Keeps s chat (lookup_call chat c) c refl k
