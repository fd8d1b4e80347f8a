-- ===== src/Client/Info/Reads.antt =====
-- What a client reports of a call after a method of it.
use gotgcall.Instances.Group.Seek.{is_zero, seek_by}
use gotgcall.Models.{Error}
use gotgcall.Instances.Group.State.{GroupCall, Source, elapsed_ms}
use gotgcall.Instances.Group.Start.{Opened}
use gotgcall.Instances.Group.Seeking.{IsSum, seek_by-elapsed}
use gotgcall.Client.Registry.{Client, put}
use gotgcall.Client.Methods.{found, lookup_call, plain_method, ran, plain_at, run_found, run_object}
use gotgcall.Client.Interface.{call_ops}
use gotgcall.Client.Info.{call_elapsed, read_found, read_object, time_of}
use gotgcall.Client.Calls.{Call, CallMethod, ask_seek, group_call, run_call, run_group}
use gotgcall.Base.{
  Option, ap, arith, false, find, find-store, inl, refl, some, sym, true, ℕ, ℤ, ◌∙◌, ◌≡◌, ◌≢◌, ◌⊎◌,
}

lookup_open :
    (chat o : ℕ) (c : Client Call)
    → c.shut ≡ false
    → find chat c.calls ≡ some o
    → lookup_call chat c ≡ found o
unfolding lookup_call
lookup_open chat o c h k = rw (h, k) refl

module _ {A : Type 0} (read : Call → A ⊎ Error) where
  -- A reading method by its reader.
  abbrev pub reading : ℕ → Client Call → A ⊎ Error
  reading chat c = read_found read (lookup_call chat c) c

  reading-open :
      (chat o : ℕ) (call : Call) (c : Client Call)
      → c.shut ≡ false
      → find chat c.calls ≡ some o
      → find o c.objects ≡ some call
      → reading chat c ≡ read call
  reading-open chat o call c h k l =
      ap (λ f. read_found read f c) (lookup_open chat o c h k) ∙ ap (read_object read) l

module _ (stop_error kill_error : ℕ → Option Error) where
  plain_method-put :
      (m : CallMethod) (chat o : ℕ) (call : Call) (c : Client Call)
      → c.shut ≡ false
      → find chat c.calls ≡ some o
      → find o c.objects ≡ some call
      → plain_method (call_ops stop_error kill_error) chat m c
        ≡ ran (call_ops stop_error kill_error) o (run_call stop_error kill_error m call) c
  unfolding plain_method run_object
  plain_method-put m chat o call c h k l =
      ap (λ f. plain_at (call_ops stop_error kill_error) f m c) (lookup_open chat o c h k)
      ∙ ap (λ x. run_found (call_ops stop_error kill_error) o m x c) l

  -- A method of the open client on a chat that has a call: what is read of the chat afterwards is
  -- read of the call that the method leaves, and the call of another chat is read as before.
  pub plain_method-reads :
      {A : Type 0} (read : Call → A ⊎ Error) (m : CallMethod) (chat o j p : ℕ) (call other : Call)
      (c : Client Call)
      → c.shut ≡ false
      → find chat c.calls ≡ some o
      → find o c.objects ≡ some call
      → find j c.calls ≡ some p
      → find p c.objects ≡ some other
      → o ≢ p
      → let c' = (plain_method (call_ops stop_error kill_error) chat m c).0 in
        (reading read chat c' ≡ read (run_call stop_error kill_error m call).0)
        × (reading read j c' ≡ reading read j c)
  plain_method-reads read m chat o j p call other c h k l kj lp d =
      let after = (run_call stop_error kill_error m call).0 in
      let e =
        ap (λ (r : Client Call × Option Error). r.0) (plain_method-put m chat o call c h k l) in
      (
        ap (reading read chat) e
            ∙ reading-open read chat o after (put o after c) h k
                (ground (arith, find-store o o after c.objects)),
        ap (reading read j) e
            ∙ reading-open read j p other (put o after c) h kj
                (ground (arith, find-store p o after c.objects))
            ∙ sym (reading-open read j p other c h kj lp),
      )

  -- SeekBy on the open client, on a chat whose WebRTC call is open, has a seekable source and whose
  -- position plus the offset, which is not 0, is not negative and fits an int64: Time gives the sum
  -- afterwards, whatever comes of reopening the source, and Time of another chat is what it was.
  pub time_of-seek :
      (o' : Opened) (fails : Option Error) (now now' : ℕ) (delta : ℤ) (chat o j p : ℕ)
      (g : GroupCall) (src : Source) (ms : ℕ) (other : Call) (c : Client Call)
      → c.shut ≡ false
      → find chat c.calls ≡ some o
      → find o c.objects ≡ some (group_call g)
      → find j c.calls ≡ some p
      → find p c.objects ≡ some other
      → o ≢ p
      → g.call_closed ≡ false
      → g.src ≡ some src
      → src.seekable ≡ true
      → is_zero delta ≡ false
      → IsSum (elapsed_ms g) delta ms
      → let m = ask_seek o' fails now delta in
        let c' = (plain_method (call_ops stop_error kill_error) chat m c).0 in
        (time_of now' chat c' ≡ inl ms) × (time_of now' j c' ≡ time_of now' j c)
  unfolding call_elapsed elapsed_ms run_call seek_by run_group time_of lookup_call
  time_of-seek o' fails now now' delta chat o j p g src ms other c h k l kj lp d gc gs sk z sum =
      let r =
        plain_method-reads (λ call. inl (call_elapsed now' call)) (ask_seek o' fails now delta) chat
          o j p (group_call g) other c h k l kj lp d in
      (r.0 ∙ ap inl (seek_by-elapsed stop_error o' delta g src ms gc gs sk z sum).0, r.1)
