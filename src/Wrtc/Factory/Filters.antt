-- ===== src/Wrtc/Factory/Filters.antt =====
-- wrtc/peer_factory.go: which interfaces and addresses ICE may use, and the network types.
use gotgcall.Base.{
  Bool, Bool-cases, Bytes, List, Option, [], ap, arith, bytes_eq, codes, drop, false, if◌then◌else◌,
  inl, inr, is_empty, length, none, not, refl, replicate, some, take, to_lower, true, ◌&&◌, ◌++◌,
  ◌==◌, ◌||◌, ◌∷◌, ◌≡◌, ap₂, lower_byte, to_upper, upper_byte, ℕ, ◌↔◌, ◌∙◌, ◌⊎◌,
}

-- strings.HasPrefix
unfoldable pub begins : Bytes → Bytes → Bool
begins s [] = true
begins [] (c ∷ cs) = false
begins (b ∷ s) (c ∷ cs) = b == c && begins s cs

-- strings.Contains
unfoldable pub contains : Bytes → Bytes → Bool
unfolding begins
contains [] sub = is_empty sub
contains (b ∷ s) sub = begins (b ∷ s) sub || contains s sub

abbrev pub skip_substrings : List Bytes
skip_substrings =
    codes "vethernet"
    ∷ codes "vmware"
    ∷ codes "virtualbox"
    ∷ codes "vbox"
    ∷ codes "hyper-v"
    ∷ codes "loopback"
    ∷ codes "teredo"
    ∷ codes "isatap"
    ∷ codes "tap-"
    ∷ codes "docker"
    ∷ codes "wsl"
    ∷ codes "tailscale"
    ∷ codes "zerotier"
    ∷ codes "openvpn"
    ∷ []

unfoldable pub skips : List Bytes → Bytes → Bool
unfolding contains
skips [] lower = false
skips (skip ∷ more) lower = contains lower skip || skips more lower

-- defaultInterfaceFilter
unfoldable pub default_interface_filter : Bytes → Bool
unfolding skips
default_interface_filter name = not (skips skip_substrings (to_lower name))

-- net.IP.To4: an address of 4 bytes, or the last 4 of one of 16 that maps one.
unfoldable pub to_four : Bytes → Option Bytes
to_four ip =
    if length ip == 4
    then some ip
    else if length ip == 16 && bytes_eq (take 12 ip) (replicate 10 0 ++ 255 ∷ 255 ∷ [])
    then some (drop 12 ip)
    else none

-- `icsNet.Contains` of 192.168.137.0/24: an address that is no IPv4 address is not in it.
unfoldable pub in_ics : Option Bytes → Bool
in_ics none = false
in_ics (some four) = bytes_eq (take 3 four) (192 ∷ 168 ∷ 137 ∷ [])

-- defaultIPFilter
unfoldable pub default_ip_filter : Bytes → Bool
unfolding in_ics to_four
default_ip_filter ip = not (in_ics (to_four ip))

-- The text holds the substring somewhere.
abbrev pub Holds : Bytes → Bytes → Type 0
Holds s sub = (front : Bytes) × (back : Bytes) × (s ≡ front ++ (sub ++ back))

begins-append : (sub back : Bytes) → begins (sub ++ back) sub ≡ true
unfolding begins
begins-append [] [] = refl
begins-append [] (b ∷ back) = refl
begins-append (c ∷ sub) back = ground (arith, begins-append sub back)

begins-split : (s sub : Bytes) → begins s sub ≡ true → (back : Bytes) × (s ≡ sub ++ back)
unfolding begins
begins-split s [] h = (s, refl)
begins-split [] (c ∷ cs) h = absurd (ground arith)
begins-split (b ∷ s) (c ∷ cs) h =
    let r = begins-split s cs (ground arith) in (r.0, ground (arith, r.1))

contains-Holds : (s sub : Bytes) → contains s sub ≡ true → Holds s sub
unfolding contains
contains-Holds [] [] h = ([], [], refl)
contains-Holds [] (c ∷ cs) h = absurd (ground arith)
contains-Holds (b ∷ s) sub h = elim (Bool-cases (begins (b ∷ s) sub)) [
  | inl e ↦ let r = begins-split (b ∷ s) sub e in ([], r.0, r.1)
  | inr e ↦ let r = contains-Holds s sub (ground arith) in (b ∷ r.0, r.1, ap (λ t. b ∷ t) r.2)
]

begins-contains : (s sub : Bytes) → begins s sub ≡ true → contains s sub ≡ true
unfolding contains begins
begins-contains [] [] h = refl
begins-contains [] (c ∷ cs) h = h
begins-contains (b ∷ s) sub h = ground arith

Holds-contains : (front sub back : Bytes) → contains (front ++ (sub ++ back)) sub ≡ true
unfolding contains
Holds-contains [] sub back = begins-contains (sub ++ back) sub (begins-append sub back)
Holds-contains (b ∷ front) sub back = ground (arith, Holds-contains front sub back)

-- One of the texts is held.
abbrev pub HoldsAny : Bytes → List Bytes → Type 0
HoldsAny s [] = ⊥
HoldsAny s (k ∷ ks) = Holds s k ⊎ HoldsAny s ks

skips-HoldsAny : (ks : List Bytes) (s : Bytes) → skips ks s ≡ true → HoldsAny s ks
unfolding skips
skips-HoldsAny [] s h = ground arith
skips-HoldsAny (k ∷ ks) s h = elim (Bool-cases (contains s k)) [
  | inl e ↦ inl (contains-Holds s k e)
  | inr e ↦ inr (skips-HoldsAny ks s (ground arith))
]

Holds-eq : (s sub : Bytes) → Holds s sub → contains s sub ≡ true
Holds-eq s sub h = ap (λ t. contains t sub) h.2 ∙ Holds-contains h.0 sub h.1

HoldsAny-skips : (ks : List Bytes) (s : Bytes) → HoldsAny s ks → skips ks s ≡ true
unfolding skips
HoldsAny-skips [] s h = absurd h
HoldsAny-skips (k ∷ ks) s (inl h) = ground (arith, Holds-eq s k h)
HoldsAny-skips (k ∷ ks) s (inr h) = ground (arith, HoldsAny-skips ks s h)

lower-upper : (b : ℕ) → lower_byte (upper_byte b) ≡ lower_byte b
unfolding lower_byte upper_byte
lower-upper b = ground arith

to_lower-to_upper : (s : Bytes) → to_lower (to_upper s) ≡ to_lower s
to_lower-to_upper [] = refl
to_lower-to_upper (b ∷ s) = ap₂ (λ x xs. x ∷ xs) (lower-upper b) (to_lower-to_upper s)

-- An interface is skipped exactly where its name in lower case holds one of the fourteen substrings
-- somewhere, and whether its name is written in capitals makes no difference.
pub default_interface_filter-Skips :
    (name : Bytes)
    → ((default_interface_filter name ≡ false) ↔ HoldsAny (to_lower name) skip_substrings)
      × (default_interface_filter (to_upper name) ≡ default_interface_filter name)
unfolding default_interface_filter
default_interface_filter-Skips name = (
  (
    λ h. skips-HoldsAny skip_substrings (to_lower name) (ground arith),
    λ h. ap not (HoldsAny-skips skip_substrings (to_lower name) h),
  ),
  ap (λ s. not (skips skip_substrings s)) (to_lower-to_upper name),
)

-- The filter judges an IPv4 address by its first three bytes, and the IPv6 form of one alike.
pub default_ip_filter-four :
    (a b c d : ℕ)
    → (default_ip_filter (a ∷ b ∷ c ∷ d ∷ []) ≡ not (a == 192 && b == 168 && c == 137))
      × (default_ip_filter ((replicate 10 0 ++ 255 ∷ 255 ∷ []) ++ a ∷ b ∷ c ∷ d ∷ [])
          ≡ default_ip_filter (a ∷ b ∷ c ∷ d ∷ []))
unfolding default_ip_filter in_ics to_four bytes_eq
default_ip_filter-four a b c d = (ground arith, refl)
