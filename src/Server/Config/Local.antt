-- ===== src/Server/Config/Local.antt =====
-- Who reaches the server without authentication.
use ssh.Base.{◌≢◌, sym, ◌≡◌, refl, Bool, true, false, not, ◌&&◌, ◌||◌, Option, none, some}
use ssh.Io.{IoError, Result, ok, err}
use ssh.Io.Fallible.{check_passed}
use ssh.Server.Config.{
  IpAddr, SocketAddr, ServerConfig, is_loopback_ip, is_some_and, should_authenticate,
  validate_server_config, validate_connection_addresses, admission, admit_connection, Admission,
  admitted, refused, closed,
}

-- A local address that is known is a loopback address.
abbrev pub IsLocal : Option IpAddr → Type 0
IsLocal none = Unit {0}
IsLocal (some ip) = is_loopback_ip ip ≡ true

admission-inv :
    (r : Result IoError (Unit {0})) (on_error : IoError → Admission) (next : Admission)
    → ((e : IoError) → on_error e ≢ admitted)
    → admission r on_error next ≡ admitted
    → (r ≡ ok tt) × (next ≡ admitted)
admission-inv (ok tt) on_error next apart h = (refl, h)
admission-inv (err e) on_error next apart h = absurd (apart e h)

IsLocal-checked :
    (remote : Bool) (local_ip : Option IpAddr)
    → not remote || is_some_and (λ ip. not (is_loopback_ip ip)) local_ip ≡ false
    → (remote ≡ true) × IsLocal local_ip
IsLocal-checked true none h = (refl, tt)
IsLocal-checked true (some ip) h = (refl, not-false (is_loopback_ip ip) h)
  where
    not-false : (b : Bool) → not b ≡ false → b ≡ true
    not-false true e = refl
    not-false false e = sym e
IsLocal-checked false local_ip h = absurd cc

unguarded :
    (guarded insecure far : Bool)
    → not (not guarded && not insecure && far) ≡ true
    → guarded ≡ false
    → insecure ≡ false
    → far ≡ false
unguarded false false false h g i = refl
unguarded false false true h g i = sym h
unguarded false true far h g i = absurd cc
unguarded true insecure far h g i = absurd cc

-- A connection is served without authentication only if its peer, and the local address where it is
-- known, are loopback addresses, or the insecure development flag is set.
pub admit_connection-IsLocal :
    (config : ServerConfig) (local_ip : Option IpAddr) (remote_addr : SocketAddr)
    → admit_connection config local_ip remote_addr ≡ admitted
    → should_authenticate config ≡ false
    → config.allow_insecure_unauthenticated_remote ≡ false
    → (is_loopback_ip remote_addr.ip ≡ true) × IsLocal local_ip
unfolding admit_connection validate_connection_addresses
admit_connection-IsLocal config local_ip remote_addr h open_to_all secure =
    let (valid, h1) = admission-inv (validate_server_config config) refused _ (λ e same. cc) h in
    let (passed, _) = admission-inv _ closed admitted (λ e same. cc) h1 in
    IsLocal-checked (is_loopback_ip remote_addr.ip) local_ip (
      unguarded (should_authenticate config) config.allow_insecure_unauthenticated_remote _
        (check_passed _ _ passed) open_to_all secure)
