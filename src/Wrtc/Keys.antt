-- ===== src/Wrtc/Keys.antt =====
-- wrtc/native/keys.go: deriveSRTPContext and translateProfile. What DTLS and SRTP return are
-- parameters: `key_len` and `salt_len` of a profile, `export` the keying material of a length,
-- `create` the context of a key and a salt.
use gotgcall.Base.{
  Bool, Bytes, Option, ap, arith, drop, drop-append_ge, if◌then◌else◌, inl, inr, length, none, not,
  refl, some, take, take-append_eq, take-length, true, ℕ, ◌*◌, ◌++◌, ◌+◌, ◌==◌, ◌∙◌, ◌≡◌, ◌⊎◌,
  Bool-cases, ap₂, sym,
}

-- The profiles of SRTP that the code knows.
pub data Profile : Type 0 where
  aead_aes128_gcm aes128_cm_sha1_80 : Profile

pub data KeyError : Type 0 where
  no_handshake no_profile unsupported_profile no_key_len no_salt_len no_material no_context :
      KeyError

-- The IANA numbers of the profiles in dtls.
unfoldable pub translate_profile : ℕ → Option Profile
translate_profile p =
    if p == 7 then some aead_aes128_gcm else if p == 1 then some aes128_cm_sha1_80 else none

-- An absent result is an error; a present one goes on.
abbrev pub try {ℓ κ} :
    {A : Type ℓ} {B : Type κ} → Option A → KeyError → (A → B ⊎ KeyError) → B ⊎ KeyError
try none e k = inr e
try (some a) e k = k a

-- The slices that the code takes of the material.
unfoldable pub server_key : ℕ → Bytes → Bytes
server_key k material = take k (drop k material)

unfoldable pub server_salt : ℕ → ℕ → Bytes → Bytes
server_salt k s material = take s (drop (k + k + s) material)

module _ {Context : Type 0} (key_len salt_len : Profile → Option ℕ) (export : ℕ → Option Bytes)
    (create : Bytes → Bytes → Profile → Option Context) where
  -- From the profile on
  unfoldable pub derive_with : Profile → (Context × Profile) ⊎ KeyError
  unfolding server_key server_salt
  derive_with p = try (key_len p) no_key_len λ k. try (salt_len p) no_salt_len λ s.
      try (export (2 * (k + s))) no_material λ material.
        try (create (server_key k material) (server_salt k s material) p) no_context
          λ ctx. inl (ctx, p)

  -- deriveSRTPContext: whether the handshake is complete, and the profile that was negotiated.
  unfoldable pub derive_srtp : Bool → Option ℕ → (Context × Profile) ⊎ KeyError
  unfolding derive_with translate_profile
  derive_srtp complete selected =
      if not complete
      then inr no_handshake
      else try selected no_profile
          λ raw. try (translate_profile raw) unsupported_profile λ p. derive_with p

-- The slices of material that is laid out as RFC 5764 says.
server_key-layout :
    (ck sk rest : Bytes) → length ck ≡ length sk → server_key (length sk) (ck ++ (sk ++ rest)) ≡ sk
unfolding server_key
server_key-layout ck sk rest h =
    ap (take (length sk)) (drop-append_ge (length sk) 0 ck (sk ++ rest) (omega (arith, h)))
    ∙ take-append_eq (length sk) sk rest refl

server_salt-layout :
    (ck sk cs ss : Bytes) (k s : ℕ)
    → length ck ≡ k
    → length sk ≡ k
    → length cs ≡ s
    → length ss ≡ s
    → server_salt k s (ck ++ (sk ++ (cs ++ ss))) ≡ ss
unfolding server_salt
server_salt-layout ck sk cs ss k s a b c d =
    ap (take s) (
      drop-append_ge (k + k + s) (k + s) ck (sk ++ (cs ++ ss)) (omega (arith, a))
      ∙ drop-append_ge (k + s) s sk (cs ++ ss) (omega (arith, b))
      ∙ drop-append_ge s 0 cs ss (omega (arith, c)))
    ∙ take-length s ss (omega (arith, d))

try-some {ℓ κ} :
    {A : Type ℓ} {B : Type κ} {o : Option A} {a : A} (e : KeyError) (k : A → B ⊎ KeyError)
    → o ≡ some a
    → try o e k ≡ k a
try-some e k h = ap (λ x. try x e k) h

translate_profile-known :
    (raw : ℕ) (p : Profile) → translate_profile raw ≡ some p → (raw ≡ 7) ⊎ (raw ≡ 1)
unfolding translate_profile
translate_profile-known raw p h = elim (Bool-cases (raw == 7)) [
  | inl e ↦ inl (ground arith)
  | inr e ↦ elim (Bool-cases (raw == 1)) [
    | inl f ↦ inr (ground arith)
    | inr f ↦ absurd (ground arith)
  ]
]

-- After a complete handshake with one of the two profiles, where the exporter is asked for twice the
-- key and the salt and gives the client's and the server's key and then their salts, the context is
-- the one made of the server's key and salt; any other profile is refused.
pub derive_srtp-server :
    {Context : Type 0} (key_len salt_len : Profile → Option ℕ) (export : ℕ → Option Bytes)
    (create : Bytes → Bytes → Profile → Option Context) (raw k s : ℕ) (p : Profile)
    (ck sk cs ss : Bytes) (ctx : Context)
    → translate_profile raw ≡ some p
    → key_len p ≡ some k
    → salt_len p ≡ some s
    → length ck ≡ k
    → length sk ≡ k
    → length cs ≡ s
    → length ss ≡ s
    → export (2 * (k + s)) ≡ some (ck ++ (sk ++ (cs ++ ss)))
    → create sk ss p ≡ some ctx
    → (derive_srtp key_len salt_len export create true (some raw) ≡ inl (ctx, p))
      × ((raw ≡ 7) ⊎ (raw ≡ 1))
unfolding derive_srtp derive_with
derive_srtp-server key_len salt_len export create raw k s p ck sk cs ss ctx hp hk hs a b c d he hc =
    let material = ck ++ (sk ++ (cs ++ ss)) in
    let key : server_key k material ≡ sk =
      ap (λ n. server_key n material) (sym b)
      ∙ server_key-layout ck sk (cs ++ ss) (omega (arith, a, b)) in
    let salt = server_salt-layout ck sk cs ss k s a b c d in
    (
      try-some unsupported_profile (λ q. derive_with key_len salt_len export create q) hp
          ∙ try-some no_key_len _ hk
          ∙ try-some no_salt_len _ hs
          ∙ try-some no_material _ he
          ∙ try-some no_context _ (ap₂ (λ u v. create u v p) key salt ∙ hc),
      translate_profile-known raw p hp,
    )
