-- ===== src/Auth/Identities.antt =====
-- The files of authorized identities: one OpenID Connect identity or SSH public key on a line.
use ssh.Base.{List, [], ◌∷◌, ◌++◌, Bool, ◌||◌, Option, none, some, bytes_eq, if◌then◌else◌, codes}
use ssh.Io.{IoError, not_found, Result, ok, err}
use ssh.Io.Fallible.{◌>>=◌}
use ssh.Text.{Text, trim, lines, starts_with, split_whitespace}
use ssh.Auth.{AuthError, io, OidcIdentity, AuthorizedIdentity, public_key, oidc}

abbrev pub is_empty : Text → Bool
is_empty [] = Bool.true
is_empty (x ∷ xs) = Bool.false

abbrev pub of_fields : List Text → Option OidcIdentity
of_fields (kind ∷ client_id ∷ issuer_url ∷ email ∷ []) =
    if bytes_eq kind (codes "oidc")
    then some (record { client_id = client_id; issuer_url = issuer_url; email = email })
    else none
of_fields _ = none

unfoldable pub parse_oidc_identity : Text → Option OidcIdentity
unfolding split_whitespace
parse_oidc_identity line = of_fields (split_whitespace line)

module _ {ℓ} {PublicKey : Type ℓ} (parse_entry : Text → Option PublicKey) where
  -- `parse_entry` is `AuthorizedKeyEntry::from_str` of the ssh_key crate, and the entry's key.
  abbrev pub identity_of :
      Option OidcIdentity → Option PublicKey → Option (AuthorizedIdentity PublicKey)
  identity_of (some identity) key = some (oidc identity)
  identity_of none (some key) = some (public_key key)
  identity_of none none = none

  unfoldable pub parse_line : Text → Option (AuthorizedIdentity PublicKey)
  unfolding trim starts_with parse_oidc_identity
  parse_line line =
      let trimmed = trim line in
      if is_empty trimmed || starts_with b'#' trimmed
      then none
      else identity_of (parse_oidc_identity trimmed) (parse_entry trimmed)

  -- `filter_map`
  abbrev pub push_some {κ} : {A : Type κ} → Option A → List A → List A
  push_some none xs = xs
  push_some (some x) xs = x ∷ xs

  unfoldable pub parse_lines : List Text → List (AuthorizedIdentity PublicKey)
  unfolding parse_line
  parse_lines [] = []
  parse_lines (line ∷ rest) = push_some (parse_line line) (parse_lines rest)

  unfoldable pub parse_authorized_identities : Text → List (AuthorizedIdentity PublicKey)
  unfolding lines parse_lines
  parse_authorized_identities contents = parse_lines (lines contents)

  abbrev pub key_of : AuthorizedIdentity PublicKey → Option PublicKey
  key_of (public_key key) = some key
  key_of (oidc identity) = none

  unfoldable pub keys_of : List (AuthorizedIdentity PublicKey) → List PublicKey
  keys_of [] = []
  keys_of (identity ∷ rest) = push_some (key_of identity) (keys_of rest)

  unfoldable pub parse_authorized_public_keys : Text → List PublicKey
  unfolding keys_of parse_authorized_identities
  parse_authorized_public_keys contents = keys_of (parse_authorized_identities contents)

  -- `identities.extend` with a file, unless it is missing; any other error ends the loop.
  unfoldable pub extend_identities :
      Result IoError Text
      → List (AuthorizedIdentity PublicKey)
      → Result AuthError (List (AuthorizedIdentity PublicKey))
  unfolding parse_authorized_identities
  extend_identities (ok contents) identities =
      ok (identities ++ parse_authorized_identities contents)
  extend_identities (err not_found) identities = ok identities
  extend_identities (err e) identities = err (io e)

  unfoldable pub load_loop :
      (Text → Result IoError Text)
      → List Text
      → List (AuthorizedIdentity PublicKey)
      → Result AuthError (List (AuthorizedIdentity PublicKey))
  unfolding extend_identities
  load_loop read_to_string [] identities = ok identities
  load_loop read_to_string (path ∷ paths) identities = do
    extended ← extend_identities (read_to_string path) identities
    load_loop read_to_string paths extended

  unfoldable pub load_authorized_identities_from_paths :
      (Text → Result IoError Text)
      → List Text
      → Result AuthError (List (AuthorizedIdentity PublicKey))
  unfolding load_loop
  load_authorized_identities_from_paths read_to_string paths = load_loop read_to_string paths []

  unfoldable pub load_authorized_public_keys_from_paths :
      (Text → Result IoError Text) → List Text → Result AuthError (List PublicKey)
  unfolding load_authorized_identities_from_paths keys_of
  load_authorized_public_keys_from_paths read_to_string paths = do
    identities ← load_authorized_identities_from_paths read_to_string paths
    ok (keys_of identities)
