-- ===== src/Client/Retire.antt =====
-- What the methods keep, and what is left after Close.
use gotgcall.Client.Tidy.{Holds, IsMade, IsTidy, Runs, stop_object-IsMade, stop_object-Runs}
use gotgcall.Client.Registry.{
  CallOps, Client, forget, reap, reap_found, register, stop_found, stop_object,
}
use gotgcall.Base.{
  Bool-cases, Option, ap, arith, false, find, find-erase, find-store, inl, inr, none, refl, some, ℕ,
  ◌==◌, ◌∙◌, ◌≡◌,
}

module _ {Call Method : Type 0} (ops : CallOps Call Method) where
  open ops use {is_stopped}

  -- Neither `calls` nor the rest changes with an object.
  stop_found-rest :
      (o : ℕ) (r : Option Call) (c : Client Call)
      → ((stop_found ops o r c).calls ≡ c.calls) × ((stop_found ops o r c).shut ≡ c.shut)
  stop_found-rest o none c = (refl, refl)
  stop_found-rest o (some call) c = (refl, refl)

  pub stop_object-rest :
      (o : ℕ) (c : Client Call)
      → ((stop_object ops o c).calls ≡ c.calls) × ((stop_object ops o c).shut ≡ c.shut)
  unfolding stop_object
  stop_object-rest o c = stop_found-rest o (find o c.objects) c

  forget-IsMade : (chat : ℕ) (c : Client Call) → IsMade ops c → IsMade ops (forget chat c)
  forget-IsMade chat c v = record {
    fresh = v.fresh;
    entries = λ k o f. v.entries k o (ground (arith, find-erase k chat c.calls));
  }

  -- To take an entry out of the map and to stop its object.
  retire-Holds :
      (chat o j : ℕ) (c : Client Call)
      → find chat c.calls ≡ some o
      → (o == j) ≡ false
      → Holds ops j c
      → Holds ops j (stop_object ops o (forget chat c))
  retire-Holds chat o j c e other (open_one, (k, f)) =
      let (same_calls, same_shut) = stop_object-rest o (forget chat c) in
      (
        same_shut ∙ open_one,
        (k, ap (find k) same_calls ∙ ground (arith, find-erase k chat c.calls)),
      )

  pub retire-IsTidy :
      (chat o : ℕ) (c : Client Call)
      → find chat c.calls ≡ some o
      → IsTidy ops c
      → IsTidy ops (stop_object ops o (forget chat c))
  retire-IsTidy chat o c e v = record {
    made_ones = stop_object-IsMade ops o (forget chat c) (forget-IsMade chat c v.made_ones);
    held = λ j r.
        let (before, other) = stop_object-Runs ops o (forget chat c) j r in
        retire-Holds chat o j c e other (v.held j before);
  }

  reap_found-IsTidy :
      (chat : ℕ) (r : Option ℕ) (c : Client Call)
      → find chat c.calls ≡ r
      → IsTidy ops c
      → IsTidy ops (reap_found ops chat r c)
  reap_found-IsTidy chat none c e v = v
  reap_found-IsTidy chat (some o) c e v = retire-IsTidy chat o c e v

  pub reap-IsTidy : (chat : ℕ) (c : Client Call) → IsTidy ops c → IsTidy ops (reap ops chat c)
  unfolding reap
  reap-IsTidy chat c v = reap_found-IsTidy chat (find chat c.calls) c refl v

  pub retire-free :
      (chat o : ℕ) (c : Client Call) → find chat (stop_object ops o (forget chat c)).calls ≡ none
  retire-free chat o c =
      ap (find chat) (stop_object-rest o (forget chat c)).0
      ∙ ground (arith, find-erase chat chat c.calls)

  reap_found-free :
      (chat : ℕ) (r : Option ℕ) (c : Client Call)
      → find chat c.calls ≡ r
      → find chat (reap_found ops chat r c).calls ≡ none
  reap_found-free chat none c e = e
  reap_found-free chat (some o) c e = retire-free chat o c

  reap_found-shut :
      (chat : ℕ) (r : Option ℕ) (c : Client Call) → (reap_found ops chat r c).shut ≡ c.shut
  reap_found-shut chat none c = refl
  reap_found-shut chat (some o) c = (stop_object-rest o (forget chat c)).1

  pub reap-free : (chat : ℕ) (c : Client Call) → find chat (reap ops chat c).calls ≡ none
  unfolding reap
  reap-free chat c = reap_found-free chat (find chat c.calls) c refl

  pub reap-shut : (chat : ℕ) (c : Client Call) → (reap ops chat c).shut ≡ c.shut
  unfolding reap
  reap-shut chat c = reap_found-shut chat (find chat c.calls) c

  -- A new call for a chat without one.
  register-Holds :
      (chat : ℕ) (call : Call) (c : Client Call)
      → IsTidy ops c
      → find chat c.calls ≡ none
      → c.shut ≡ false
      → (j : ℕ) → Runs ops j (register chat call c)
      → Holds ops j (register chat call c)
  unfolding register
  register-Holds chat call c v free open_one j (call', f, n) = elim (Bool-cases (c.next == j)) [
    | inl new ↦ (open_one, (chat, ground (arith, find-store chat chat c.next c.calls)))
    | inr old ↦
        let (_, (k, g)) = v.held j (call', ground (arith, find-store j c.next call c.objects), n) in
        (open_one, (k, ground (arith, find-store k chat c.next c.calls)))
  ]

  pub register-IsTidy :
      (chat : ℕ) (call : Call) (c : Client Call)
      → IsTidy ops c
      → find chat c.calls ≡ none
      → c.shut ≡ false
      → IsTidy ops (register chat call c)
  unfolding register
  register-IsTidy chat call c v free open_one = record {
    made_ones = record {
      fresh = λ o le.
          ground (arith, find-store o c.next call c.objects, v.made_ones.fresh o (omega arith));
      entries = λ k o f. ground (
        arith,
        find-store k chat c.next c.calls,
        find-store o c.next call c.objects,
        v.made_ones.entries k o,
      );
    };
    held = register-Holds chat call c v free open_one;
  }
