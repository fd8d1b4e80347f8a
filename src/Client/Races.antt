-- ===== src/Client/Races.antt =====
-- Where the methods of two goroutines hurt each other.
use gotgcall.Client.Failing.{
  lookup-mine, reap-found, run_object-fails, stop_object-other, stop_object-same,
}
use gotgcall.Client.Shutdown.{lookup-closed}
use gotgcall.Client.Retire.{retire-free}
use gotgcall.Models.{Error, client_closed}
use gotgcall.Client.Registry.{CallOps, Client, forget, put, stop_object, call_is_live, register}
use gotgcall.Client.Methods.{
  close_client, create_call, made, setup_method, stop_chat, Made, create_made, from_factory,
  made_rtmp, not_made,
}
use gotgcall.Base.{
  false, find, none, some, true, ℕ, ◌==◌, ◌≡◌, arith, find-store, refl, ◌∙◌, Option, ap, Bool, inl,
  inr, subst, sym, ◌⊎◌,
}

module _ {Call Method : Type 0} (ops : CallOps Call Method)
    (during : Client Call → Client Call) where
  open ops use {run, stop_call}

  module _ (chat o other : ℕ) (c : Client Call) (call : Call) (is_open : c.shut ≡ false)
      (mine : find chat c.calls ≡ some o) (theirs : find chat (during c).calls ≡ some other)
      (differ : (o == other) ≡ false) (is_call : find other (during c).objects ≡ some call) where
    stopping : stop_chat ops chat during c ≡ (stop_object ops o (forget chat (during c)), none)
    unfolding stop_chat
    stopping = rw (lookup-mine chat o c is_open mine)

    -- Stop has looked its call up, and before it deletes the entry another goroutine replaces it: the
    -- new call leaves the map, and nothing is done to it.
    pub stop_chat-loses :
        let r = stop_chat ops chat during c in
        (r.1 ≡ none) × (find chat r.0.calls ≡ none) × (find other r.0.objects ≡ some call)
    stop_chat-loses =
        let d = during c in
        rw stopping (
          refl,
          retire-free ops chat o d,
          stop_object-other ops o other (forget chat d) differ ∙ is_call,
        )

    failing_setup :
        (m : Method) (old : Call) (e : Error)
        → find o (during c).objects ≡ some old
        → (run m old).1 ≡ some e
        → setup_method ops chat m during c
          ≡ (stop_object ops other (forget chat (put o (run m old).0 (during c))), some e)
    unfolding setup_method
    failing_setup m old e f failing = rw (lookup-mine chat o c is_open mine) (
        rw (run_object-fails ops o m old e (during c) f failing)
          (rw (reap-found ops chat other (put o (run m old).0 (during c)) theirs)))

    -- Connect or SetStreamSources is under way on its call and fails after another goroutine has
    -- replaced that: it is the new call that leaves the map, and is stopped.
    pub setup_method-stops_other :
        (m : Method) (old : Call) (e : Error)
        → find o (during c).objects ≡ some old
        → (run m old).1 ≡ some e
        → let r = setup_method ops chat m during c in
          (r.1 ≡ some e)
          × (find chat r.0.calls ≡ none)
          × (find other r.0.objects ≡ some (stop_call call))
    setup_method-stops_other m old e f failing =
        let d = put o (run m old).0 (during c) in
        rw (failing_setup m old e f failing) (
          refl,
          retire-free ops chat other d,
          stop_object-same ops other call (forget chat d)
              (ground (arith, is_call, find-store other o (run m old).0 (during c).objects)),
        )

  free-call_is_live :
      (chat : ℕ) (c : Client Call) → find chat c.calls ≡ none → call_is_live ops chat c ≡ (c, false)
  unfolding call_is_live
  free-call_is_live chat c free = simp free

  creating :
      (chat : ℕ) (m : Made Call) (params : Option Error) (c : Client Call)
      → c.shut ≡ false
      → find chat (during c).calls ≡ none
      → create_call ops chat m params during c
        ≡ create_made ops chat (from_factory (during c).factory_closed m) params (during c)
  unfolding create_call
  creating chat m params c is_open free = simp (is_open, free-call_is_live chat (during c) free)

  register-object :
      (chat : ℕ) (call : Call) (c : Client Call)
      → find c.next (register chat call c).objects ≡ some call
  unfolding register
  register-object chat call c = ground (arith, find-store c.next c.next call c.objects)

  register-shut : (chat : ℕ) (call : Call) (c : Client Call) → (register chat call c).shut ≡ c.shut
  unfolding register
  register-shut chat call c = refl

  closing_again : (c : Client Call) → c.shut ≡ true → close_client ops c ≡ c
  unfolding close_client
  closing_again c shut = ground arith

  stopping_closed :
      (chat : ℕ) (c : Client Call)
      → c.shut ≡ true
      → stop_chat ops chat (λ x. x) c ≡ (c, some client_closed)
  unfolding stop_chat
  stopping_closed chat c shut = rw (lookup-closed chat c shut)

  -- A creation that left a running call in a closed client: it is made without an error, closing
  -- the client again does not touch it, and Stop returns ErrClosed.
  abbrev pub IsStray : ℕ → Call → Client Call → Client Call × Option Error → Type 0
  IsStray chat call d r =
      (r.1 ≡ none)
      × (find d.next r.0.objects ≡ some call)
      × (close_client ops r.0 ≡ r.0)
      × (stop_chat ops chat (λ x. x) r.0 ≡ (r.0, some client_closed))

  registered-IsStray :
      (chat : ℕ) (call : Call) (d : Client Call)
      → d.shut ≡ true
      → IsStray chat call d (register chat call d, none)
  registered-IsStray chat call d shut =
      let r = register chat call d in
      (
        refl,
        register-object chat call d,
        closing_again r (register-shut chat call d ∙ shut),
        stopping_closed chat r (register-shut chat call d ∙ shut),
      )

  made_from_factory :
      (b : Bool) (call : Call)
      → ((b ≡ false) × (from_factory b (made call) ≡ made call))
        ⊎ ((b ≡ true) × (from_factory b (made call) ≡ not_made client_closed))
  unfolding from_factory
  made_from_factory true call = inr (refl, refl)
  made_from_factory false call = inl (refl, refl)

  -- A creation has passed its test of `closed` when another goroutine closes the client, and finds
  -- no call of its chat. StartRTMP makes its call all the same, without an error: closing again
  -- does nothing, and Stop returns ErrClosed. CreateCall, where nothing else fails, does so too while
  -- Close has not reached the factory; from then on it returns ErrClosed and leaves the client alone.
  pub create_call-after_close :
      (chat : ℕ) (c : Client Call) (call : Call) (params : Option Error)
      → c.shut ≡ false
      → (during c).shut ≡ true
      → find chat (during c).calls ≡ none
      → IsStray chat call (during c) (create_call ops chat (made_rtmp call) params during c)
        × ((((during c).factory_closed ≡ false)
              × IsStray chat call (during c) (create_call ops chat (made call) none during c))
            ⊎ (((during c).factory_closed ≡ true)
                × (create_call ops chat (made call) params during c
                    ≡ (during c, some client_closed))))
  unfolding from_factory
  create_call-after_close chat c call params is_open shut free =
      let d = during c in
      let stray = registered-IsStray chat call d shut in
      let making : (ps : Option Error) → Made Call → Client Call × Option Error =
        λ ps m. create_made ops chat m ps d in
      (
        subst (IsStray chat call d) (sym (creating chat (made_rtmp call) params c is_open free))
            stray,
        elim (made_from_factory d.factory_closed call) [
          | inl (up, same) ↦ inl (
            up,
            subst (IsStray chat call d)
                (sym (creating chat (made call) none c is_open free ∙ ap (making none) same)) stray,
          )
          | inr (down, fails) ↦
              inr (down, creating chat (made call) params c is_open free ∙ ap (making params) fails)
        ],
      )
