-- ===== src/Wrtc/Factory/Servers.antt =====
-- wrtc/peer_factory.go: translateICEServers. What stun.ParseURI makes of a
-- text is a parameter.
use gotgcall.Models.{Error}
use gotgcall.Base.{Bytes, List, [], inl, inr, ◌++◌, ◌∷◌, ◌⊎◌, refl, ◌≡◌, ap, sym, ◌∙◌}

-- ICEServer
pub record IceServer : Type 0 where
  pub server_user : Bytes
  pub credential : Bytes
  pub urls : List Bytes

-- The fields of a stun.URI that are overwritten; `parsed_from` stands for the others.
pub record Uri : Type 0 where
  pub uri_user : Bytes
  pub uri_password : Bytes
  pub parsed_from : Bytes

pub data UriResult : Type 0 where
  uris : List Uri → UriResult
  bad_uri : Error → UriResult

-- `if new != "" { old = new }`
abbrev pub override : Bytes → Bytes → Bytes
override old [] = old
override old (b ∷ bs) = b ∷ bs

abbrev pub with_login : IceServer → Uri → Uri
with_login srv u = record u {
  uri_user = override u.uri_user srv.server_user;
  uri_password = override u.uri_password srv.credential;
}

module _ (parse_uri : Bytes → Uri ⊎ Error) where
  -- The loop over the URLs of a server: `out` is what was appended so far.
  unfoldable pub add_urls : IceServer → List Bytes → List Uri → UriResult
  add_urls srv [] out = uris out
  add_urls srv (raw ∷ raws) out = elim (parse_uri raw) [
    | inl u ↦ add_urls srv raws (out ++ with_login srv u ∷ [])
    | inr e ↦ bad_uri e
  ]

  -- translateICEServers; the nil slice of no servers is the empty one.
  unfoldable pub add_servers : List IceServer → List Uri → UriResult
  unfolding add_urls
  add_servers [] out = uris out
  add_servers (srv ∷ srvs) out = elim (add_urls srv srv.urls out) [
    | uris out1 ↦ add_servers srvs out1
    | bad_uri e ↦ bad_uri e
  ]

  abbrev pub translate_ice_servers : List IceServer → UriResult
  translate_ice_servers srvs = add_servers srvs []

  -- What the servers list, each URL with its server.
  abbrev pub pairs_of : IceServer → List Bytes → List (IceServer × Bytes)
  pairs_of srv [] = []
  pairs_of srv (raw ∷ raws) = (srv, raw) ∷ pairs_of srv raws

  abbrev pub all_pairs : List IceServer → List (IceServer × Bytes)
  all_pairs [] = []
  all_pairs (srv ∷ srvs) = pairs_of srv srv.urls ++ all_pairs srvs

  -- Each URL in turn with the login of its server, up to the first that does not parse.
  unfoldable pub translated : List (IceServer × Bytes) → List Uri → UriResult
  translated [] out = uris out
  translated (p ∷ ps) out = elim (parse_uri p.1) [
    | inl u ↦ translated ps (out ++ with_login p.0 u ∷ [])
    | inr e ↦ bad_uri e
  ]

abbrev pub then_more : (List Uri → UriResult) → UriResult → UriResult
then_more k (uris out) = k out
then_more k (bad_uri e) = bad_uri e

more-eq :
    (f g : List Uri → UriResult)
    → ((out : List Uri) → f out ≡ g out)
    → (r : UriResult) → (elim r [ uris out ↦ f out | bad_uri e ↦ bad_uri e ]) ≡ then_more g r
more-eq f g h (uris out) = h out
more-eq f g h (bad_uri e) = refl

module _ (parse_uri : Bytes → Uri ⊎ Error) where
  translated-append :
      (ps qs : List (IceServer × Bytes)) (out : List Uri)
      → translated parse_uri (ps ++ qs) out
        ≡ then_more (translated parse_uri qs) (translated parse_uri ps out)
  unfolding translated
  translated-append [] qs out = refl
  translated-append (p ∷ ps) qs out =
      elim (parse_uri p.1)
        as (λ r.
          (elim r [
            | inl u ↦ translated parse_uri (ps ++ qs) (out ++ with_login p.0 u ∷ [])
            | inr e ↦ bad_uri e
          ])
          ≡ then_more (translated parse_uri qs) (elim r [
            | inl u ↦ translated parse_uri ps (out ++ with_login p.0 u ∷ [])
            | inr e ↦ bad_uri e
          ])) [ inl u ↦ translated-append ps qs (out ++ with_login p.0 u ∷ []) | inr e ↦ refl ]

  add_urls-translated :
      (srv : IceServer) (raws : List Bytes) (out : List Uri)
      → add_urls parse_uri srv raws out ≡ translated parse_uri (pairs_of parse_uri srv raws) out
  unfolding add_urls translated
  add_urls-translated srv [] out = refl
  add_urls-translated srv (raw ∷ raws) out =
      elim (parse_uri raw)
        as (λ r.
          (elim r [
            | inl u ↦ add_urls parse_uri srv raws (out ++ with_login srv u ∷ [])
            | inr e ↦ bad_uri e
          ])
          ≡ (elim r [
            | inl u ↦
                translated parse_uri (pairs_of parse_uri srv raws) (out ++ with_login srv u ∷ [])
            | inr e ↦ bad_uri e
          ])) [ inl u ↦ add_urls-translated srv raws (out ++ with_login srv u ∷ []) | inr e ↦ refl ]

  -- Translating the servers takes every URL of every server in the order in which they are listed,
  -- gives each the user name and the credential of its server where those are not empty, and fails
  -- with the error of the first URL that does not parse.
  pub add_servers-translated :
      (srvs : List IceServer) (out : List Uri)
      → add_servers parse_uri srvs out ≡ translated parse_uri (all_pairs parse_uri srvs) out
  unfolding add_servers translated
  add_servers-translated [] out = refl
  add_servers-translated (srv ∷ srvs) out =
      let urls = pairs_of parse_uri srv srv.urls in
      more-eq (add_servers parse_uri srvs) (translated parse_uri (all_pairs parse_uri srvs))
        (add_servers-translated srvs) (add_urls parse_uri srv srv.urls out)
      ∙ ap (then_more (translated parse_uri (all_pairs parse_uri srvs)))
          (add_urls-translated srv srv.urls out)
      ∙ sym (translated-append urls (all_pairs parse_uri srvs) out)
