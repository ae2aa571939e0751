-- ===== src/Auth/Listed/Files.antt =====
-- Which identities are loaded from several files, and when the loading fails.
use ssh.Base.{◌≢◌, subst, ◌≡◌, refl, ◌↔◌, ◌⊎◌, inl, inr, List, [], ◌∷◌, ◌++◌, Memᴰ, Option, All}
use mathlib.Core.List.Memᴰ.{
  head, tail, cases_cons, not-nil, append_left, append_right, append_cases,
}
use ssh.Io.{IoError, not_found, Result, ok, err}
use ssh.Io.Fallible.{>>=-inv}
use ssh.Text.{Text}
use ssh.Auth.{io, AuthorizedIdentity}
use ssh.Auth.Identities.{
  parse_authorized_identities, extend_identities, load_loop, load_authorized_identities_from_paths,
}
use ssh.Auth.Listed.{Says, parse_authorized_identities_iff}

module _ {ℓ} {PublicKey : Type ℓ} (parse_entry : Text → Option PublicKey) where
  module _ (read_to_string : Text → Result IoError Text) where
    -- A file at one of the paths says the identity.
    abbrev pub IsListed : AuthorizedIdentity PublicKey → List Text → Type ℓ
    IsListed identity paths =
        (path : Text) × (contents : Text) × Memᴰ path paths
        × (read_to_string path ≡ ok contents)
        × Says parse_entry identity contents

    -- A file that is there or missing, and no other error.
    abbrev pub IsUsable : Text → Type 0
    IsUsable path =
        ((contents : Text) × (read_to_string path ≡ ok contents))
        ⊎ (read_to_string path ≡ err not_found)

    abbrev Added : AuthorizedIdentity PublicKey → Text → Type ℓ
    Added identity path =
        (contents : Text) × (read_to_string path ≡ ok contents) × Says parse_entry identity contents

    extend_identities_failed :
        (e : IoError) (before : List (AuthorizedIdentity PublicKey))
        → e ≢ not_found
        → extend_identities parse_entry (err e) before ≡ err (io e)
    unfolding extend_identities parse_authorized_identities
    extend_identities_failed not_found before h = absurd (h refl)
    extend_identities_failed _ before h = refl

    extended :
        (identity : AuthorizedIdentity PublicKey) (path : Text) (read : Result IoError Text)
        (before after : List (AuthorizedIdentity PublicKey))
        → read_to_string path ≡ read
        → extend_identities parse_entry read before ≡ ok after
        → Memᴰ identity after ↔ (Memᴰ identity before ⊎ Added identity path)
    unfolding extend_identities parse_authorized_identities
    extended identity path (ok contents) before after e h =
        let joined : before ++ parse_authorized_identities parse_entry contents ≡ after = cc in
        rw (← joined) (
          (λ place. elim (append_cases before place) [
            | inl early ↦ inl early
            | inr late ↦ inr (
              contents,
              e,
              (parse_authorized_identities_iff parse_entry identity contents).0 late,
            )
          ]),
          (λ place. elim place [
            | inl early ↦ append_left _ early
            | inr (found, read, says) ↦
                let same : found ≡ contents = cc in
                append_right before (
                  (parse_authorized_identities_iff parse_entry identity contents).1
                    (subst (λ c. Says parse_entry identity c) same says))
          ]),
        )
    extended identity path (err not_found) before after e h =
        let same : before ≡ after = cc in
        rw (← same)
          (inl, (λ place. elim place [ inl early ↦ early | inr (found, read, says) ↦ absurd cc ]))
    extended identity path (err _) before after e h = absurd cc

    -- The identities of a first file, and of the others.
    IsListed-cons :
        (identity : AuthorizedIdentity PublicKey) (path : Text) (paths : List Text)
        → IsListed identity (path ∷ paths) ↔ (Added identity path ⊎ IsListed identity paths)
    IsListed-cons identity path paths = (
      (λ (found, contents, place, read, says). elim (cases_cons place) [
        | inl e ↦ inl (contents, subst (λ p. read_to_string p ≡ ok contents) e read, says)
        | inr later ↦ inr (found, contents, later, read, says)
      ]),
      (λ place. elim place [
        | inl (contents, read, says) ↦ (path, contents, head refl, read, says)
        | inr (found, contents, later, read, says) ↦ (found, contents, tail later, read, says)
      ]),
    )

    load_loop-mem :
        (identity : AuthorizedIdentity PublicKey) (paths : List Text)
        (before after : List (AuthorizedIdentity PublicKey))
        → load_loop parse_entry read_to_string paths before ≡ ok after
        → Memᴰ identity after ↔ (Memᴰ identity before ⊎ IsListed identity paths)
    unfolding load_loop
    load_loop-mem identity [] before after h =
        let same : before ≡ after = cc in
        rw (← same) (
          inl,
          (λ place. elim place [
            | inl early ↦ early
            | inr (path, contents, place', read, says) ↦ absurd (not-nil place')
          ]),
        )
    load_loop-mem identity (path ∷ paths) before after h =
        let (middle, e, rest) =
          >>=-inv _ _ (extend_identities parse_entry (read_to_string path) before) h in
        let first = extended identity path (read_to_string path) before middle refl e in
        let others = load_loop-mem identity paths middle after rest in
        let listed = IsListed-cons identity path paths in
        (
          (λ place. elim (others.0 place) [
            | inl early ↦ elim (first.0 early) [
              | inl earlier ↦ inl earlier
              | inr here ↦ inr (listed.1 (inl here))
            ]
            | inr later ↦ inr (listed.1 (inr later))
          ]),
          (λ place. elim place [
            | inl early ↦ others.1 (inl (first.1 (inl early)))
            | inr found ↦ elim (listed.0 found) [
              | inl here ↦ others.1 (inl (first.1 (inr here)))
              | inr later ↦ others.1 (inr later)
            ]
          ]),
        )

    -- The identities that are loaded are those that some file at one of the paths says.
    pub load_authorized_identities_from_paths-mem :
        (identity : AuthorizedIdentity PublicKey) (paths : List Text)
        (identities : List (AuthorizedIdentity PublicKey))
        → load_authorized_identities_from_paths parse_entry read_to_string paths ≡ ok identities
        → Memᴰ identity identities ↔ IsListed identity paths
    unfolding load_authorized_identities_from_paths
    load_authorized_identities_from_paths-mem identity paths identities h =
        let found = load_loop-mem identity paths [] identities h in
        (
          (λ place. elim (found.0 place) [
            | inl early ↦ absurd (not-nil early)
            | inr listed ↦ listed
          ]),
          (λ listed. found.1 (inr listed)),
        )

    load_loop_failed :
        (before : List Text) (path : Text) (after : List Text) (e : IoError)
        (identities : List (AuthorizedIdentity PublicKey))
        → All IsUsable before
        → read_to_string path ≡ err e
        → e ≢ not_found
        → load_loop parse_entry read_to_string (before ++ path ∷ after) identities ≡ err (io e)
    unfolding load_loop extend_identities parse_authorized_identities
    load_loop_failed [] path after e identities usable failed other =
        rw (failed, extend_identities_failed e identities other)
    load_loop_failed (first ∷ before) path after e identities (inl (contents, read), usable) failed
          other =
        rw (read) (load_loop_failed before path after e _ usable failed other)
    load_loop_failed (first ∷ before) path after e identities (inr missing, usable) failed other =
        rw (missing) (load_loop_failed before path after e identities usable failed other)

    -- The first file that is not missing and cannot be read ends the loading with its error.
    pub load_authorized_identities_from_paths_failed :
        (before : List Text) (path : Text) (after : List Text) (e : IoError)
        → All IsUsable before
        → read_to_string path ≡ err e
        → e ≢ not_found
        → load_authorized_identities_from_paths parse_entry read_to_string (before ++ path ∷ after)
          ≡ err (io e)
    unfolding load_authorized_identities_from_paths
    load_authorized_identities_from_paths_failed before path after e usable failed other =
        load_loop_failed before path after e [] usable failed other

    load_loop_usable :
        (paths : List Text) (before : List (AuthorizedIdentity PublicKey))
        → All IsUsable paths
        → (after : List (AuthorizedIdentity PublicKey)) × (load_loop parse_entry read_to_string
              paths before
            ≡ ok after)
    unfolding load_loop extend_identities parse_authorized_identities
    load_loop_usable [] before usable = (before, refl)
    load_loop_usable (path ∷ paths) before (inl (contents, read), usable) =
        rw (read) (load_loop_usable paths _ usable)
    load_loop_usable (path ∷ paths) before (inr missing, usable) =
        rw (missing) (load_loop_usable paths before usable)

    -- Where every file is there or missing, the loading succeeds.
    pub load_authorized_identities_from_paths_usable :
        (paths : List Text)
        → All IsUsable paths
        → (identities : List (AuthorizedIdentity PublicKey))
          × (load_authorized_identities_from_paths parse_entry read_to_string paths ≡ ok identities)
    unfolding load_authorized_identities_from_paths
    load_authorized_identities_from_paths_usable paths usable = load_loop_usable paths [] usable
