-- ===== src/Client/Shutdown.antt =====
-- Close stops the calls of the map, one after the other.
use gotgcall.Models.{client_closed}
use gotgcall.Client.Retire.{stop_object-rest}
use gotgcall.Client.Tidy.{IsMade, IsTidy, Runs, stop_object-IsMade, stop_object-Runs}
use gotgcall.Client.Registry.{CallOps, Client, stop_object}
use gotgcall.Client.Methods.{close_client, stop_all, lookup_call, missing}
use gotgcall.Base.{
  Bool, Dict, [], arith, false, find, if◌then◌else◌, some, true, ℕ, ◌∷◌, ◌≡◌, Bool-cases, inl, inr,
  refl, ◌∙◌,
}

pub lookup-closed :
    {Call : Type 0} (chat : ℕ) (c : Client Call)
    → c.shut ≡ true
    → lookup_call chat c ≡ missing client_closed
unfolding lookup_call
lookup-closed chat c s = ground arith

module _ {Call Method : Type 0} (ops : CallOps Call Method) where
  -- What runs is among the entries that are left.
  abbrev Left : Dict ℕ → Client Call → Type 0
  Left es c = (o : ℕ) → Runs ops o c → (chat : ℕ) × (find chat es ≡ some o)

  stop_object-Left :
      (e : ℕ × ℕ) (es : Dict ℕ) (c : Client Call)
      → Left (e ∷ es) c
      → Left es (stop_object ops e.1 c)
  unfolding find
  stop_object-Left e es c left o r =
      let (before, other) = stop_object-Runs ops e.1 c o r in
      let (chat, f) = left o before in (chat, ground arith)

  stop_all-Left : (es : Dict ℕ) (c : Client Call) → Left es c → Left [] (stop_all ops es c)
  unfolding stop_all
  stop_all-Left [] c left = left
  stop_all-Left (e ∷ es) c left =
      stop_all-Left es (stop_object ops e.1 c) (stop_object-Left e es c left)

  stop_all-IsMade : (es : Dict ℕ) (c : Client Call) → IsMade ops c → IsMade ops (stop_all ops es c)
  unfolding stop_all
  stop_all-IsMade [] c v = v
  stop_all-IsMade (e ∷ es) c v =
      stop_all-IsMade es (stop_object ops e.1 c) (stop_object-IsMade ops e.1 c v)

  stop_all-none : (c : Client Call) (o : ℕ) → Left [] c → Runs ops o c → ⊥
  unfolding find
  stop_all-none c o left r = let (chat, f) = left o r in cc

  abbrev close_if : Bool → Client Call → Client Call
  close_if b c = if b then c else record (stop_all ops c.calls (record c { shut = true })) {
    factory_closed = true;
    disp_closed = true;
  }

  shut-IsTidy : (c : Client Call) → IsTidy ops c → IsTidy ops (close_if false c)
  shut-IsTidy c v =
      let c1 : Client Call = record c { shut = true } in
      let made_before : IsMade ops c1 = record {
        fresh = v.made_ones.fresh;
        entries = v.made_ones.entries;
      } in
      let made_after = stop_all-IsMade c.calls c1 made_before in
      record {
        made_ones = record { fresh = made_after.fresh; entries = made_after.entries };
        held = λ o r. absurd (
            stop_all-none (stop_all ops c.calls c1) o
              (stop_all-Left c.calls c1 (λ j q. (v.held j q).1)) r);
      }

  pub close_client-IsTidy : (c : Client Call) → IsTidy ops c → IsTidy ops (close_client ops c)
  unfolding close_client
  close_client-IsTidy c v = elim c.shut as (λ b. IsTidy ops (close_if b c)) [
    | true ↦ v
    | false ↦ shut-IsTidy c v
  ]

  stop_all-shut : (es : Dict ℕ) (c : Client Call) → (stop_all ops es c).shut ≡ c.shut
  unfolding stop_all
  stop_all-shut [] c = refl
  stop_all-shut (e ∷ es) c =
      stop_all-shut es (stop_object ops e.1 c) ∙ (stop_object-rest ops e.1 c).1

  pub close_client-shut : (c : Client Call) → (close_client ops c).shut ≡ true
  unfolding close_client
  close_client-shut c = elim (Bool-cases c.shut) [
    | inl closed_before ↦ ground (arith, closed_before)
    | inr open_before ↦ ground (arith, stop_all-shut c.calls (record c { shut = true }))
  ]
