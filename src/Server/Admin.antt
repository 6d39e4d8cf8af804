-- ===== src/Server/Admin.antt =====
-- internal/server/admin.go: who reaches the admin API, and what it answers.
-- net.SplitHostPort and net.ParseIP with IsLoopback are parameters. `uptime` is what the clock gives.
use vlgr.Prelude.{
  ℕ, ◌≡◌, Bool, true, false, ◌&&◌, ◌||◌, List, [], Option, none, some, arith, length, drop, ltb,
  bytes_eq, bytes_eq_iff, if◌then◌else◌,
}
use vlgr.Prelude.Bytes.{codes}
use vlgr.Server.Registry.{Registry, snapshot}

pub record Net : Type 0 where
  pub split_host_port : List ℕ → Option (List ℕ)
  pub is_loopback_ip : List ℕ → Bool

pub record Call : Type 0 where
  pub remote_addr : List ℕ
  pub host : List ℕ
  pub authorization : List ℕ

unfoldable pub peer_is_loopback : Net → List ℕ → Bool
peer_is_loopback net remote_addr =
    net.is_loopback_ip (elim (net.split_host_port remote_addr) [ none ↦ remote_addr | some h ↦ h ])

unfoldable pub host_is_loopback : Net → List ℕ → Bool
unfolding bytes_eq
host_is_loopback net host =
    let h : List ℕ = elim (net.split_host_port host) [ none ↦ host | some h ↦ h ] in
    bytes_eq h (codes "localhost") || net.is_loopback_ip h

-- Seven bytes are cut off whatever they are.
unfoldable pub token_ok : List ℕ → Call → Bool
unfolding bytes_eq
token_ok token r =
    if bytes_eq token []
    then false
    else ltb (length (codes "Bearer ")) (length r.authorization)
      && bytes_eq (drop (length (codes "Bearer ")) r.authorization) token

unfoldable pub guard : Net → List ℕ → Call → Bool
unfolding peer_is_loopback host_is_loopback token_ok
guard net token r =
    (peer_is_loopback net r.remote_addr && host_is_loopback net r.host) || token_ok token r

pub record Status : Type 0 where
  pub version : List ℕ
  pub uptime_sec : ℕ
  pub tunnels : ℕ

unfoldable pub handle_status : List ℕ → ℕ → Registry → Status
unfolding snapshot
handle_status version uptime registry = record {
  version = version;
  uptime_sec = uptime;
  tunnels = length (snapshot registry);
}

-- Whoever reaches the admin API without being a peer on loopback that names a host on loopback has
-- sent a header that is seven bytes and then the token, and the token is not empty: a server without
-- a token is reached from loopback only.
pub guard-token :
    (net : Net) (token : List ℕ) (r : Call)
    → guard net token r ≡ true
    → (peer_is_loopback net r.remote_addr && host_is_loopback net r.host) ≡ false
    → (bytes_eq token [] ≡ false) × (drop 7 r.authorization ≡ token)
unfolding guard token_ok
guard-token net token r h far = (
  ground (arith, h, far),
  (bytes_eq_iff (drop 7 r.authorization) token).0 (ground (arith, h, far)),
)
