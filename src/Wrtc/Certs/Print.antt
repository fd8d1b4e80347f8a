-- ===== src/Wrtc/Certs/Print.antt =====
-- wrtc/native/certpool.go: CertFingerprintSHA256, from the hash of the certificate on.
use gotgcall.Base.{
  Bytes, Option, [], arith, if◌then◌else◌, length, ltb, none, refl, some, ℕ, ◌%◌, ◌*◌, ◌++◌, ◌+◌,
  ◌-◌, ◌/◌, ◌<◌, ◌∷◌, ◌≡◌, ap, ap₂,
}

-- The digit of encoding/hex, in upper case.
unfoldable pub hex_digit : ℕ → ℕ
hex_digit d = if ltb d 10 then b'0' + d else b'A' + (d - 10)

-- `strings.ToUpper(hexStr[i:i+2])`
abbrev pub hex_pair : ℕ → Bytes
hex_pair b = hex_digit (b / 16) ∷ hex_digit (b % 16) ∷ []

-- The loop behind its first round
unfoldable pub colon_pairs : Bytes → Bytes
unfolding hex_digit
colon_pairs [] = []
colon_pairs (b ∷ bs) = b':' ∷ (hex_pair b ++ colon_pairs bs)

-- The text of a hash; none where the certificate is empty.
unfoldable pub print_hash : Bytes → Bytes
unfolding colon_pairs hex_digit
print_hash [] = []
print_hash (b ∷ bs) = hex_pair b ++ colon_pairs bs

-- CertFingerprintSHA256, where `sha256` is the hash and the argument the certificate, if any.
unfoldable pub cert_fingerprint : (Bytes → Bytes) → Option Bytes → Option Bytes
unfolding print_hash
cert_fingerprint sha256 none = none
cert_fingerprint sha256 (some der) = some (print_hash (sha256 der))

-- The value of a digit, and the bytes of a text of pairs.
abbrev pub digit_value : ℕ → ℕ
digit_value c = if ltb c b'A' then c - b'0' else c - b'A' + 10

abbrev pub pair_value : ℕ → ℕ → ℕ
pair_value h l = digit_value h * 16 + digit_value l

-- A reader of fingerprints: every third byte is a separator.
unfoldable pub read_print : Bytes → Bytes
read_print [] = []
read_print (h ∷ []) = []
read_print (h ∷ l ∷ []) = pair_value h l ∷ []
read_print (h ∷ l ∷ sep ∷ rest) = pair_value h l ∷ read_print rest

abbrev pub AllBytes : Bytes → Type 0
AllBytes [] = Unit
AllBytes (b ∷ bs) = (b < 256) × AllBytes bs

hex_pair-value : (b : ℕ) → b < 256 → pair_value (hex_digit (b / 16)) (hex_digit (b % 16)) ≡ b
unfolding hex_digit
hex_pair-value b h = ground arith

read-pairs :
    (b : ℕ) (bs : Bytes)
    → b < 256
    → AllBytes bs
    → read_print (hex_pair b ++ colon_pairs bs) ≡ b ∷ bs
unfolding read_print colon_pairs
read-pairs b [] h k = ap (λ t. t ∷ []) (hex_pair-value b h)
read-pairs b (c ∷ bs) h k = ap₂ (λ t ts. t ∷ ts) (hex_pair-value b h) (read-pairs c bs k.0 k.1)

length-pairs : (bs : Bytes) → length (colon_pairs bs) ≡ 3 * length bs
unfolding colon_pairs
length-pairs [] = omega arith
length-pairs (b ∷ bs) = omega (arith, length-pairs bs)

length-print : (bs : Bytes) → 0 < length bs → length (print_hash bs) ≡ 3 * length bs - 1
unfolding print_hash
length-print [] h = absurd (omega arith)
length-print (b ∷ bs) h = omega (arith, length-pairs bs)

read-print : (bs : Bytes) → AllBytes bs → read_print (print_hash bs) ≡ bs
unfolding read_print print_hash
read-print [] k = refl
read-print (b ∷ bs) k = read-pairs b bs k.0 k.1

-- The fingerprint of a certificate whose hash is 32 bytes has 95 characters, and reading its pairs
-- of hexadecimal digits gives the hash back, so that two certificates with different hashes are
-- announced by different fingerprints.
pub cert_fingerprint-reads :
    (sha256 : Bytes → Bytes) (der : Bytes)
    → AllBytes (sha256 der)
    → length (sha256 der) ≡ 32
    → (text : Bytes) × (cert_fingerprint sha256 (some der) ≡ some text)
      × (length text ≡ 95)
      × (read_print text ≡ sha256 der)
unfolding cert_fingerprint
cert_fingerprint-reads sha256 der a h = (
  print_hash (sha256 der),
  refl,
  omega (arith, length-print (sha256 der) (omega arith)),
  read-print (sha256 der) a,
)
