-- ===== src/Wrtc/Params/Remote.antt =====
-- wrtc/jsonparams/decode.go: ParseRemote, from what encoding/json makes of the text on.
use gotgcall.Models.{invalid_params, unsupported_call_mode}
use gotgcall.Wrtc.Stack.{
  Parsed, bad_mode, bad_params, good_params, Blocking, Handshake, Stack, connect_parsed,
  connect_stack,
}
use gotgcall.Wrtc.Params.{RemoteParams}
use gotgcall.Base.{
  Bool, Bytes, Option, bytes_eq, codes, if◌then◌else◌, is_empty, none, not, some, ◌&&◌, ◌||◌, false,
  ◌≡◌, Bool-cases, arith, inl, inr, true, ◌↔◌, ◌≢◌, ◌⊎◌, refl, ap, sym, ◌∙◌, [], ◌∷◌, bytes_eq_iff,
}

-- What json.Unmarshal gives: `probe` the two raw fields of the probe, `none` for an error, and
-- `decoded` the parameters, `none` for an error. An absent field is empty.
pub record Decoded : Type 0 where
  pub probe : Option (Bytes × Bytes)
  pub decoded : Option RemoteParams

-- The errors of ParseRemote.
pub data RemoteError : Type 0 where
  rtmp_livestream broadcast_stream undecodable missing_creds missing_print : RemoteError

pub data RemoteResult : Type 0 where
  remote_ok : RemoteParams → RemoteResult
  remote_err : RemoteError → RemoteResult

-- jsonFieldPresent
unfoldable pub json_field_present : Bytes → Bool
json_field_present raw = not (is_empty raw) && not (bytes_eq raw (codes "null"))

-- The checks of the required fields.
unfoldable pub check_remote : Option RemoteParams → RemoteResult
check_remote none = remote_err undecodable
check_remote (some rp) =
    if is_empty rp.remote_ufrag || is_empty rp.remote_pwd
    then remote_err missing_creds
    else if is_empty rp.remote_prints
    then remote_err missing_print
    else remote_ok rp

abbrev pub probe_error : Option (Bytes × Bytes) → Option RemoteError
probe_error none = none
probe_error (some p) =
    if json_field_present p.0
    then some rtmp_livestream
    else if json_field_present p.1
    then some broadcast_stream
    else none

-- ParseRemote
unfoldable pub parse_remote : Decoded → RemoteResult
unfolding check_remote json_field_present
parse_remote d = elim (probe_error d.probe) [
  | some e ↦ remote_err e
  | none ↦ check_remote d.decoded
]

-- The branches of Stack.Connect on the error of parseRemoteJSON (`errors.Is`).
unfoldable pub parsed_of : RemoteResult → Parsed
parsed_of (remote_ok rp) = good_params
parsed_of (remote_err rtmp_livestream) = bad_mode
parsed_of (remote_err broadcast_stream) = bad_mode
parsed_of (remote_err undecodable) = bad_params
parsed_of (remote_err missing_creds) = bad_params
parsed_of (remote_err missing_print) = bad_params

-- The raw field is there and is not `null`.
abbrev pub IsGiven : Bytes → Type 0
IsGiven raw = (raw ≢ []) × (raw ≢ codes "null")

-- The probe finds a livestream or a broadcast stream.
abbrev pub Describes : Option (Bytes × Bytes) → Type 0
Describes none = ⊥
Describes (some p) = IsGiven p.0 ⊎ IsGiven p.1

abbrev pub IsUnsupported : Decoded → Type 0
IsUnsupported d = Describes d.probe

json_field_present-IsGiven :
    (raw : Bytes)
    → ((json_field_present raw ≡ true) × IsGiven raw)
      ⊎ ((json_field_present raw ≡ false) × ¬ (IsGiven raw))
unfolding json_field_present
json_field_present-IsGiven [] = inr (refl, λ g. g.0 refl)
json_field_present-IsGiven (b ∷ bs) = elim (Bool-cases (bytes_eq (b ∷ bs) (codes "null"))) [
  | inl y ↦ inr (ground arith, λ g. g.1 ((bytes_eq_iff (b ∷ bs) (codes "null")).0 y))
  | inr n ↦ inl (
    ground arith,
    (
      (λ e. ground arith),
      (λ e. let same = (bytes_eq_iff (b ∷ bs) (codes "null")).1 e in ground (arith, same, n)),
    ),
  )
]

-- The required fields are there.
abbrev pub IsComplete : RemoteParams → Type 0
IsComplete rp =
    (is_empty rp.remote_ufrag ≡ false)
    × (is_empty rp.remote_pwd ≡ false)
    × (is_empty rp.remote_prints ≡ false)

check_remote-ok :
    (o : Option RemoteParams) (rp : RemoteParams)
    → (check_remote o ≡ remote_ok rp) ↔ ((o ≡ some rp) × IsComplete rp)
unfolding check_remote
check_remote-ok none rp = ground arith
check_remote-ok (some r) rp = ground arith

check_remote-mode : (o : Option RemoteParams) → parsed_of (check_remote o) ≢ bad_mode
unfolding check_remote parsed_of
check_remote-mode none = ground arith
check_remote-mode (some r) = ground arith

probe_error-cases :
    (o : Option (Bytes × Bytes))
    → (Describes o
        × ((e : RemoteError) × (probe_error o ≡ some e) × (parsed_of (remote_err e) ≡ bad_mode)))
      ⊎ ((Describes o → ⊥) × (probe_error o ≡ none))
unfolding parsed_of
probe_error-cases none = inr (λ u. u, refl)
probe_error-cases (some p) = elim (json_field_present-IsGiven p.0) [
  | inl (y, g) ↦ inl (inl g, (rtmp_livestream, ground (arith, y), refl))
  | inr (n, no_stream) ↦ elim (json_field_present-IsGiven p.1) [
    | inl (y, g) ↦ inl (inr g, (broadcast_stream, ground (arith, n, y), refl))
    | inr (m, no_cast) ↦
        inr (λ u. elim u [ inl g ↦ no_stream g | inr g ↦ no_cast g ], ground (arith, n, m))
  ]
]

parse_remote-err :
    (d : Decoded) {e : RemoteError} → probe_error d.probe ≡ some e → parse_remote d ≡ remote_err e
unfolding parse_remote
parse_remote-err d h = rw (h, parse_remote)

parse_remote-check :
    (d : Decoded) → probe_error d.probe ≡ none → parse_remote d ≡ check_remote d.decoded
unfolding parse_remote check_remote
parse_remote-check d h = rw (h, parse_remote)

parse_remote-modes :
    (d : Decoded)
    → ((rp : RemoteParams)
        → (parse_remote d ≡ remote_ok rp)
          ↔ (¬ (IsUnsupported d) × (d.decoded ≡ some rp) × IsComplete rp))
      × ((parsed_of (parse_remote d) ≡ bad_mode) ↔ IsUnsupported d)
parse_remote-modes d = elim (probe_error-cases d.probe) [
  | inl (u, (e, h, m)) ↦ (
    λ rp. (λ q. ground (arith, parse_remote-err d h), λ q. absurd (q.0 u)),
    (λ q. u, λ q. rw (parse_remote-err d h) m),
  )
  | inr (u, h) ↦ (
    λ rp. (
      λ q.
          let c = (check_remote-ok d.decoded rp).0 (sym (parse_remote-check d h) ∙ q) in
          (u, c.0, c.1),
      λ q. parse_remote-check d h ∙ (check_remote-ok d.decoded rp).1 (q.1, q.2),
    ),
    (
      λ q. absurd (check_remote-mode d.decoded (ap parsed_of (sym (parse_remote-check d h)) ∙ q)),
      λ q. absurd (u q),
    ),
  )
]

-- What Connect, on an open stack, answers to what ParseRemote refused.
connect-refused :
    (h : Handshake) (others : Blocking → Stack → Stack) (s : Stack)
    → s.stack_closed ≡ false
    → ((h.parsed ≡ bad_mode) → connect_stack h others s ≡ (s, some unsupported_call_mode))
      × ((h.parsed ≡ bad_params) → connect_stack h others s ≡ (s, some invalid_params))
unfolding connect_stack connect_parsed
connect-refused h others s o = (λ e. ground arith, λ e. ground arith)

parsed_of-cases :
    (r : RemoteResult)
    → (parsed_of r ≡ bad_mode)
      ⊎ ((((rp : RemoteParams) × (r ≡ remote_ok rp)) ⊎ (parsed_of r ≡ bad_params))
          × (parsed_of r ≢ bad_mode))
unfolding parsed_of
parsed_of-cases (remote_ok rp) = inr (inl (rp, refl), ground arith)
parsed_of-cases (remote_err rtmp_livestream) = inl refl
parsed_of-cases (remote_err broadcast_stream) = inl refl
parsed_of-cases (remote_err undecodable) = inr (inr refl, ground arith)
parsed_of-cases (remote_err missing_creds) = inr (inr refl, ground arith)
parsed_of-cases (remote_err missing_print) = inr (inr refl, ground arith)

-- ParseRemote accepts exactly the decoded parameters that have both credentials and a fingerprint,
-- of a response whose fields for a livestream and a broadcast stream are absent or null. Connect on
-- an open stack, which gets what ParseRemote made of the response, leaves the stack alone where that
-- was refused: it returns ErrUnsupportedCallMode where the response describes one of the two,
-- whatever else is wrong, and ErrInvalidParams otherwise.
pub parse_remote-Accepts :
    (d : Decoded) (h : Handshake) (others : Blocking → Stack → Stack) (s : Stack)
    → s.stack_closed ≡ false
    → ((rp : RemoteParams)
        → (parse_remote d ≡ remote_ok rp)
          ↔ (¬ (IsUnsupported d) × (d.decoded ≡ some rp) × IsComplete rp))
      × (let r = connect_stack (record h { parsed = parsed_of (parse_remote d) }) others s in
          ((rp : RemoteParams) × (parse_remote d ≡ remote_ok rp))
          ⊎ (IsUnsupported d × (r ≡ (s, some unsupported_call_mode)))
          ⊎ (¬ (IsUnsupported d) × (r ≡ (s, some invalid_params))))
parse_remote-Accepts d h others s o =
    let h' : Handshake = record h { parsed = parsed_of (parse_remote d) } in
    let modes = parse_remote-modes d in
    let answer = connect-refused h' others s o in
    (
      modes.0,
      elim (parsed_of-cases (parse_remote d)) [
        | inl bad ↦ inr (inl (modes.1.0 bad, answer.0 bad))
        | inr (inl ok, other) ↦ inl ok
        | inr (inr wrong, other) ↦ inr (inr (λ u. other (modes.1.1 u), answer.1 wrong))
      ],
    )

-- What ParseRemote accepts has both credentials.
pub parse_remote-checked :
    (d : Decoded) (rp : RemoteParams)
    → parse_remote d ≡ remote_ok rp
    → (is_empty rp.remote_ufrag ≡ false) × (is_empty rp.remote_pwd ≡ false)
parse_remote-checked d rp h = let c = ((parse_remote-modes d).0 rp).0 h in (c.2.0, c.2.1)
