-- ===== src/Client/Events.antt =====
-- Everything that happens to a Client: its methods, called from several goroutines.
use gotgcall.Models.{Error}
use gotgcall.Client.Registry.{CallOps, Client}
use gotgcall.Client.Methods.{
  Made, close_client, create_call, plain_method, run_object, setup_method, stop_chat,
}
use gotgcall.Base.{List, Option, [], ℕ, ◌∷◌}

-- What happens without an interruption. `runs` is a method of an object that has begun before, or a
-- goroutine of its own.
pub data ClientStep (Call Method : Type 0) : Type 0 where
  creates : ℕ → Made Call → Option Error → ClientStep Call Method
  sets_up : ℕ → Method → ClientStep Call Method
  uses_call : ℕ → Method → ClientStep Call Method
  runs : ℕ → Method → ClientStep Call Method
  stops : ℕ → ClientStep Call Method

pub data ClientAct (Call Method : Type 0) : Type 0 where
  does : ClientStep Call Method → ClientAct Call Method
  closes_client : ClientAct Call Method

-- The methods that others may interrupt; a creation, here, not by Close.
pub data ClientEvent (Call Method : Type 0) : Type 0 where
  acts : ClientAct Call Method → ClientEvent Call Method
  creates_amid :
      ℕ → Made Call → Option Error → List (ClientStep Call Method) → ClientEvent Call Method
  sets_up_amid : ℕ → Method → List (ClientAct Call Method) → ClientEvent Call Method

-- One event after the other.
unfoldable pub all_of : {S E : Type 0} → (E → S → S) → List E → S → S
all_of f [] s = s
all_of f (e ∷ es) s = all_of f es (f e s)

pub all_of-keeps :
    {S E : Type 0} (f : E → S → S) (P : S → Type 0)
    → ((e : E) (s : S) → P s → P (f e s))
    → (es : List E) (s : S) → P s
    → P (all_of f es s)
unfolding all_of
all_of-keeps f P keeps [] s v = v
all_of-keeps f P keeps (e ∷ es) s v = all_of-keeps f P keeps es (f e s) (keeps e s v)

module _ {Call Method : Type 0} (ops : CallOps Call Method) where
  unfoldable pub client_step : ClientStep Call Method → Client Call → Client Call
  client_step (creates chat m params) c = (create_call ops chat m params (λ x. x) c).0
  client_step (sets_up chat m) c = (setup_method ops chat m (λ x. x) c).0
  client_step (uses_call chat m) c = (plain_method ops chat m c).0
  client_step (runs o m) c = (run_object ops o m c).0
  client_step (stops chat) c = (stop_chat ops chat (λ x. x) c).0

  unfoldable pub client_act : ClientAct Call Method → Client Call → Client Call
  client_act (does s) c = client_step s c
  client_act closes_client c = close_client ops c

  unfoldable pub client_event : ClientEvent Call Method → Client Call → Client Call
  client_event (acts a) c = client_act a c
  client_event (creates_amid chat m params es) c =
      (create_call ops chat m params (all_of client_step es) c).0
  client_event (sets_up_amid chat m es) c = (setup_method ops chat m (all_of client_act es) c).0

  unfoldable pub client_history : List (ClientEvent Call Method) → Client Call → Client Call
  client_history es c = all_of client_event es c
