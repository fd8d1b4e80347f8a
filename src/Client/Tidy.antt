-- ===== src/Client/Tidy.antt =====
-- No call is lost: what is not stopped is in the map. Here for the parts of the methods.
use gotgcall.Client.Methods.{run_found, run_object}
use gotgcall.Client.Registry.{CallOps, Client, put, stop_found, stop_object}
use gotgcall.Base.{
  arith, false, find, find-store, has_some, none, some, true, ℕ, ◌≡◌, ◌≤◌, Bool, Bool-cases, Option,
  inl, inr, refl, ◌==◌,
}

bool_clash : {b : Bool} → b ≡ true → b ≡ false → ⊥
bool_clash p q = cc

module _ {Call Method : Type 0} (ops : CallOps Call Method) where
  open ops use {run, stop_call, net_of, is_stopped, run_keeps, stop_stops}

  -- The objects have the numbers below `next`, and what the map has is an object.
  pub record IsMade (c : Client Call) : Type 0 where
    pub fresh : (o : ℕ) → c.next ≤ o → find o c.objects ≡ none
    pub entries : (chat o : ℕ) → find chat c.calls ≡ some o → has_some (find o c.objects) ≡ true

  -- A call that runs is in the map, and the client is open.
  abbrev pub Runs : ℕ → Client Call → Type 0
  Runs o c = (call : Call) × (find o c.objects ≡ some call) × (is_stopped call ≡ false)

  abbrev pub Holds : ℕ → Client Call → Type 0
  Holds o c = (c.shut ≡ false) × ((chat : ℕ) × (find chat c.calls ≡ some o))

  pub record IsTidy (c : Client Call) : Type 0 where
    pub made_ones : IsMade c
    pub held : (o : ℕ) → Runs o c → Holds o c

  -- `new` takes the place of an object, and is stopped if that was.
  module _ (o : ℕ) (old new : Call) (c : Client Call) (e : find o c.objects ≡ some old)
      (keeps : is_stopped old ≡ true → is_stopped new ≡ true) where
    pub put-IsMade : IsMade c → IsMade (put o new c)
    put-IsMade v = record {
      fresh = λ j le. ground (arith, find-store j o new c.objects, v.fresh j le);
      entries = λ chat j f. ground (arith, find-store j o new c.objects, v.entries chat j f);
    }

    put-stopped : is_stopped new ≡ false → is_stopped old ≡ false
    put-stopped n = elim (Bool-cases (is_stopped old)) [
      | inl s ↦ absurd (bool_clash (keeps s) n)
      | inr r ↦ r
    ]

    pub put-Runs : (j : ℕ) → Runs j (put o new c) → Runs j c
    put-Runs j (call, f, n) = elim (Bool-cases (o == j)) [
      | inl same ↦
          (old, ground (arith, e), put-stopped (ground (arith, find-store j o new c.objects, n)))
      | inr other ↦ (call, ground (arith, find-store j o new c.objects), n)
    ]

    pub put-IsTidy : IsTidy c → IsTidy (put o new c)
    put-IsTidy v = record {
      made_ones = put-IsMade v.made_ones;
      held = λ j r. v.held j (put-Runs j r);
    }

  -- A method that has begun runs on the object.
  run_found-IsTidy :
      (o : ℕ) (m : Method) (r : Option Call) (c : Client Call)
      → find o c.objects ≡ r
      → IsTidy c
      → IsTidy (run_found ops o m r c).0
  run_found-IsTidy o m none c e v = v
  run_found-IsTidy o m (some call) c e v = put-IsTidy o call (run m call).0 c e (run_keeps m call) v

  pub run_object-IsTidy :
      (o : ℕ) (m : Method) (c : Client Call) → IsTidy c → IsTidy (run_object ops o m c).0
  unfolding run_object
  run_object-IsTidy o m c v = run_found-IsTidy o m (find o c.objects) c refl v

  -- Stopping an object.
  stop_found-IsMade :
      (o : ℕ) (r : Option Call) (c : Client Call)
      → find o c.objects ≡ r
      → IsMade c
      → IsMade (stop_found ops o r c)
  stop_found-IsMade o none c e v = v
  stop_found-IsMade o (some call) c e v =
      put-IsMade o call (stop_call call) c e (λ _. stop_stops call) v

  pub stop_object-IsMade : (o : ℕ) (c : Client Call) → IsMade c → IsMade (stop_object ops o c)
  unfolding stop_object
  stop_object-IsMade o c v = stop_found-IsMade o (find o c.objects) c refl v

  stop_found-Runs :
      (o : ℕ) (r : Option Call) (c : Client Call)
      → find o c.objects ≡ r
      → (j : ℕ) → Runs j (stop_found ops o r c)
      → Runs j c × ((o == j) ≡ false)
  stop_found-Runs o none c e j (call, f, n) = ((call, f, n), ground (arith, e))
  stop_found-Runs o (some call) c e j (call', f, n) = (
    put-Runs o call (stop_call call) c e (λ _. stop_stops call) j (call', f, n),
    ground (arith, find-store j o (stop_call call) c.objects, stop_stops call),
  )

  -- What runs after that ran before, and is another one.
  pub stop_object-Runs :
      (o : ℕ) (c : Client Call) (j : ℕ)
      → Runs j (stop_object ops o c)
      → Runs j c × ((o == j) ≡ false)
  unfolding stop_object
  stop_object-Runs o c j r = stop_found-Runs o (find o c.objects) c refl j r
