-- ===== src/Examples/Crates.antt =====
-- Concrete crates: a base64 in unary, a JSON of lengths and texts, and a key that signs an input
-- with the input itself.
use ssh.Base.{
  ℕ, zero, suc, ◌+◌, ◌≡◌, refl, ap, ◌∙◌, Bytes, [], ◌∷◌, ◌++◌, All, Bool, true, Option, none, some,
  bytes_eq, bytes_eq_iff, length, take, drop, take-append, drop-append, codes, ◌==◌, if◌then◌else◌,
  ◌>>=◌, arith,
}
use ssh.Io.{ok}
use ssh.Text.{Text, is_whitespace}
use ssh.Text.Words.{HasNoSpace}
use ssh.Auth.{JwtHeader, JwtClaims, ed_dsa, ed25519, Crates}
use ssh.Auth.Signature.{verify_jwt_signature}
use ssh.Auth.RoundTrip.{AreFaithful}

unfoldable pub unary_number : ℕ → Text → Text
unary_number zero rest = b'b' ∷ rest
unary_number (suc n) rest = b'a' ∷ unary_number n rest

unfoldable pub unary_encode : Bytes → Text
unfolding unary_number
unary_encode [] = []
unary_encode (n ∷ ns) = unary_number n (unary_encode ns)

unfoldable pub unary_from : ℕ → Text → Option Bytes
unary_from k [] = if k == 0 then some [] else none
unary_from k (c ∷ cs) = elim (c == b'b') [
  | true ↦ (unary_from 0 cs >>= (λ ns. some (k ∷ ns)))
  | _ ↦ unary_from (suc k) cs
]

unfoldable pub unary_decode : Text → Option Bytes
unfolding unary_from
unary_decode text = unary_from 0 text

unary_from-unary_number :
    (k n : ℕ) (ns : Bytes) (rest : Text)
    → unary_from 0 rest ≡ some ns
    → unary_from k (unary_number n rest) ≡ some ((k + n) ∷ ns)
unfolding unary_number unary_from
unary_from-unary_number k zero ns rest h = rw (h) (ap (λ m. some (m ∷ ns)) (omega arith))
unary_from-unary_number k (suc n) ns rest h =
    unary_from-unary_number (suc k) n ns rest h ∙ ap (λ m. some (m ∷ ns)) (omega arith)

pub unary_decode-unary_encode : (ns : Bytes) → unary_decode (unary_encode ns) ≡ some ns
unfolding unary_decode unary_from unary_encode
unary_decode-unary_encode [] = refl
unary_decode-unary_encode (n ∷ ns) =
    unary_from-unary_number 0 n ns (unary_encode ns) (unary_decode-unary_encode ns)
    ∙ ap (λ m. some (m ∷ ns)) (omega arith)

module _ (P : ℕ → Type 0) (a : P b'a') (b : P b'b') where
  number-All : (n : ℕ) (rest : Text) → All P rest → All P (unary_number n rest)
  unfolding unary_number
  number-All zero rest h = (b, h)
  number-All (suc n) rest h = (a, number-All n rest h)

  pub unary_encode-All : (ns : Bytes) → All P (unary_encode ns)
  unfolding unary_encode
  unary_encode-All [] = tt
  unary_encode-All (n ∷ ns) = number-All n (unary_encode ns) (unary_encode-All ns)

abbrev pub write_text : Text → Bytes → Bytes
write_text text rest = length text ∷ text ++ rest

abbrev pub read_text : Bytes → Option (Text × Bytes)
read_text [] = none
read_text (n ∷ rest) = some (take n rest, drop n rest)

abbrev pub json_header : JwtHeader → Bytes
json_header header = write_text header.alg (write_text header.typ [])

abbrev pub parsed_header : Bytes → Option JwtHeader
parsed_header bytes = do
  (alg, rest) ← read_text bytes
  (typ, rest') ← read_text rest
  some (record { alg = alg; typ = typ })

parsed_header-json_header : (header : JwtHeader) → parsed_header (json_header header) ≡ some header
parsed_header-json_header header = rw (
  take-append header.alg (write_text header.typ []),
  drop-append header.alg (write_text header.typ []),
  take-append header.typ [],
)

abbrev pub write_claims : JwtClaims → Bytes
write_claims claims =
    claims.iat
    ∷ claims.exp
    ∷ write_text claims.iss (
        write_text claims.sub
          (write_text claims.aud (write_text claims.client_id (write_text claims.jti []))))

abbrev pub read_claims : Bytes → Option JwtClaims
read_claims (iat ∷ exp ∷ bytes) = do
  (iss, r1) ← read_text bytes
  (sub, r2) ← read_text r1
  (aud, r3) ← read_text r2
  (client_id, r4) ← read_text r3
  (jti, r5) ← read_text r4
  some (record {
    iss = iss;
    sub = sub;
    aud = aud;
    iat = iat;
    exp = exp;
    client_id = client_id;
    jti = jti;
  })
read_claims _ = none

read_claims-write_claims : (claims : JwtClaims) → read_claims (write_claims claims) ≡ some claims
read_claims-write_claims claims =
    let last : Bytes = write_text claims.jti [] in
    let fourth : Bytes = write_text claims.client_id last in
    let third : Bytes = write_text claims.aud fourth in
    let second : Bytes = write_text claims.sub third in
    rw (
      take-append claims.iss second,
      drop-append claims.iss second,
      take-append claims.sub third,
      drop-append claims.sub third,
      take-append claims.aud fourth,
      drop-append claims.aud fourth,
      take-append claims.client_id last,
      drop-append claims.client_id last,
      take-append claims.jti [],
    )

-- One key, of the type Ed25519.
unfoldable pub crates : Crates (Unit {0})
unfolding unary_encode unary_decode
crates = record {
  key_data = λ key. ed25519;
  algorithm = λ key. codes "ssh-ed25519";
  encode_url = unary_encode;
  decode_url = unary_decode;
  encode_standard = unary_encode;
  header_to_vec = λ header. some (json_header header);
  header_from_slice = parsed_header;
  claims_to_vec = λ claims. some (write_claims claims);
  claims_from_slice = read_claims;
  as_bytes = λ text. text;
  ed25519_signature = λ bytes. some bytes;
  ed25519_verify = λ key input signature. bytes_eq input signature;
  p256_point = λ key. [];
  p256_key = λ point. some point;
  p256_signature = λ bytes. some bytes;
  p256_verify = λ key input signature. bytes_eq signature (0 ∷ []);
  rsa_n = λ key. none;
  rsa_e = λ key. none;
  rsa_key = λ n e. none;
  rsa_signature = λ bytes. none;
  rsa_verify = λ key input signature. Bool.false;
}

pub crates-AreFaithful : AreFaithful crates
unfolding crates
crates-AreFaithful = record {
  no_dot = unary_encode-All (λ c. (c == b'.') ≡ Bool.false) refl refl;
  decode-encode = unary_decode-unary_encode;
  header_round_trip = λ header. (json_header header, refl, parsed_header-json_header header);
  claims_round_trip = λ claims. (write_claims claims, refl, read_claims-write_claims claims);
}

pub crates_sign : (input : Bytes) → verify_jwt_signature crates tt ed_dsa input input ≡ ok tt
unfolding crates verify_jwt_signature
crates_sign input = rw ((bytes_eq_iff input input).1 refl)

pub unary_encode-HasNoSpace : (ns : Bytes) → HasNoSpace (unary_encode ns)
unfolding is_whitespace
unary_encode-HasNoSpace = unary_encode-All (λ c. is_whitespace c ≡ Bool.false) refl refl
