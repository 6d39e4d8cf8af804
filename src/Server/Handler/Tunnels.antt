-- ===== src/Server/Handler/Tunnels.antt =====
-- internal/server/handler.go and registry.go: handleRegister, handleRegisterTLS,
-- handleRegisterTCP, handleUnregister and the generated names.
use vlgr.Prelude.{
  ℕ, zero, suc, ◌+◌, ◌-◌, ◌/◌, ◌%◌, not, List, [], ◌∷◌, ◌++◌, Option, none, some, length, ltb, leb,
  ◌==◌, if◌then◌else◌,
}
use vlgr.Prelude.Assoc.{nat_key, lookup, insert, erase}
use vlgr.Prelude.Bytes.{put_be, get_be}
use vlgr.Prelude.Outcome.{Outcome, ok, err}
use vlgr.Protocol.{
  Error, Frame, max_tunnels_per_client, msg_register_ok, msg_unregister_ok, msg_unregister_err,
}
use vlgr.Protocol.Register.{decode_register, decode_register_tcp, encode_register_ok}
use vlgr.Server.PortAllocator as PortAllocator
use vlgr.Server.PortAllocator.{PortAllocator, allocate, release}
use vlgr.Server.Registry as Registry
use vlgr.Server.Registry.{Tunnel, Registry, register, unregister}
use vlgr.Server.Subdomain.{valid_subdomain}
use vlgr.Server.Handler.State.{
  World, Env, TcpTunnel, invalid_port, invalid_subdomain, url_too_long, too_many_tunnels,
  tls_disabled, tcp_disabled, listen_failed, unknown_tunnel, protocol_error, registry_error,
  port_error, bytes, text, write_message, register_err,
}
use vlgr.Server.Handler.Cleanup.{close_tcp_tunnel}

abbrev hex_digit : ℕ → ℕ
hex_digit d = if ltb d 10 then b'0' + d else b'a' + (d - 10)

-- fmt's %x of a byte string
unfoldable pub hex : List ℕ → List ℕ
hex [] = []
hex (b ∷ bs) = hex_digit (b / 16) ∷ hex_digit (b % 16) ∷ hex bs

-- Without random bytes the clock is printed with %016x, which is the hex of its eight bytes.
unfoldable pub generate_subdomain : Env → List ℕ
unfolding hex
generate_subdomain env = elim env.random_name [ some b ↦ hex b | none ↦ hex (put_be 8 env.now) ]

unfoldable pub generate_tunnel_id : Env → ℕ
generate_tunnel_id env = elim env.random_id [ some b ↦ get_be 0 b | none ↦ env.now ]

-- strconv of a number in decimal, for ports: at most five digits
unfoldable pub decimal : ℕ → ℕ → List ℕ
decimal zero n = []
decimal (suc fuel) n =
    let front = decimal fuel (n / 10) in
    if ltb n 10 then (b'0' + n) ∷ [] else front ++ (b'0' + n % 10) ∷ []

abbrev pub or_nil : Outcome Error (List ℕ) → List ℕ
or_nil (ok b) = b
or_nil (err e) = []

unfoldable pub requested_name : Env → List ℕ → List ℕ
unfolding generate_subdomain
requested_name env [] = generate_subdomain env
requested_name env (c ∷ cs) = c ∷ cs

unfoldable pub public_name : World → List ℕ → List ℕ
public_name w subdomain = subdomain ++ b'.' ∷ w.base_domain

-- What handleRegister does with the answer of the registry.
unfoldable pub add_registered : World → List ℕ → Registry × Outcome Registry.Error Tunnel → World
unfolding write_message register_err insert
add_registered w subdomain (registry, err e) =
    register_err (record w { registry = registry }) (registry_error e)
add_registered w subdomain (registry, ok tunnel) =
    write_message
      (record w {
        registry = registry;
        handler = record w.handler {
          tunnels = insert tunnel.id tunnel w.tunnels;
          tunnel_count = w.tunnel_count + 1;
        };
      })
      msg_register_ok tunnel.id 0
      (bytes (or_nil (encode_register_ok (public_name w subdomain) tunnel.id)))

-- The end of handleRegister, from the lock on.
unfoldable pub add_tunnel : World → Env → List ℕ → World
unfolding add_registered register register_err
add_tunnel w env subdomain =
    if leb max_tunnels_per_client w.tunnel_count
    then register_err w too_many_tunnels
    else add_registered w subdomain (register w.registry subdomain w.me env.random_id)

unfoldable pub handle_register : World → Env → Frame → World
unfolding add_tunnel register_err requested_name
handle_register w env frame = elim (decode_register frame.payload) [
  | err e ↦ register_err w (protocol_error e)
  | ok (local_port, requested) ↦
      if local_port == 0
      then register_err w invalid_port
      else if not (valid_subdomain requested)
      then register_err w invalid_subdomain
      else let subdomain = requested_name env requested in
        if ltb 255 (length (public_name w subdomain))
        then register_err w url_too_long
        else add_tunnel w env subdomain
]

-- Only h.tunnels is looked at.
unfoldable pub handle_unregister : World → Frame → World
unfolding write_message unregister lookup erase
handle_unregister w frame = elim (lookup frame.tunnel_id w.tunnels) [
  | none ↦ write_message w msg_unregister_err frame.tunnel_id 0 (text unknown_tunnel)
  | some tunnel ↦
      write_message
        (record w {
          registry = unregister w.registry tunnel.subdomain;
          handler = record w.handler {
            tunnels = erase frame.tunnel_id w.tunnels;
            tunnel_count = w.tunnel_count - 1;
          };
        })
        msg_unregister_ok frame.tunnel_id 0 (bytes [])
]

-- What handleRegisterTLS does with the answer of h.tlsRegistry.
unfoldable pub add_tls_registered :
    World → List ℕ → Registry × Outcome Registry.Error Tunnel → World
unfolding write_message register_err insert
add_tls_registered w subdomain (tls, err e) =
    register_err (record w { tls_registry = some tls }) (registry_error e)
add_tls_registered w subdomain (tls, ok tunnel) =
    write_message
      (record w {
        tls_registry = some tls;
        handler = record w.handler {
          tls_tunnels = insert tunnel.id tunnel w.tls_tunnels;
          tunnel_count = w.tunnel_count + 1;
        };
      })
      msg_register_ok tunnel.id 0
      (bytes (or_nil (encode_register_ok (public_name w subdomain) tunnel.id)))

-- The end of handleRegisterTLS, from the lock on; `tls` is h.tlsRegistry.
unfoldable pub add_tls_tunnel : World → Env → Registry → List ℕ → World
unfolding add_tls_registered register register_err
add_tls_tunnel w env tls subdomain =
    if leb max_tunnels_per_client w.tunnel_count
    then register_err w too_many_tunnels
    else add_tls_registered w subdomain (register tls subdomain w.me env.random_id)

-- From the test of h.tlsRegistry on.
unfoldable pub register_tls_in : World → Env → List ℕ → Option Registry → World
unfolding add_tls_tunnel register_err requested_name
register_tls_in w env requested none = register_err w tls_disabled
register_tls_in w env requested (some tls) =
    if not (valid_subdomain requested)
    then register_err w invalid_subdomain
    else let subdomain = requested_name env requested in
      if ltb 255 (length (public_name w subdomain))
      then register_err w url_too_long
      else add_tls_tunnel w env tls subdomain

unfoldable pub handle_register_tls : World → Env → Frame → World
unfolding register_tls_in register_err
handle_register_tls w env frame = elim (decode_register frame.payload) [
  | err e ↦ register_err w (protocol_error e)
  | ok (local_port, requested) ↦
      if local_port == 0
      then register_err w invalid_port
      else register_tls_in w env requested w.tls_registry
]

-- From the reserved port on: the listener, the tunnel and the reply.
unfoldable pub open_tcp_tunnel : World → Env → PortAllocator → ℕ → ℕ → World
unfolding write_message register_err release insert generate_tunnel_id close_tcp_tunnel decimal
open_tcp_tunnel w env alloc local_port public_port =
    if not env.listens
    then register_err (record w { tcp_alloc = some (release alloc public_port) }) listen_failed
    else let tt : TcpTunnel = record {
      id = generate_tunnel_id env;
      public_port = public_port;
      local_port = local_port;
    } in
      let w' : World = record w {
        tcp_alloc = some alloc;
        handler = record w.handler {
          tcp_tunnels = insert tt.id tt w.tcp_tunnels;
          tunnel_count = w.tunnel_count + 1;
        };
      } in
      elim (encode_register_ok (w.tcp_host ++ b':' ∷ decimal 5 public_port) tt.id) [
        | ok payload ↦ write_message w' msg_register_ok tt.id 0 (bytes payload)
        | err e ↦
            register_err (record w' { tcp_alloc = close_tcp_tunnel tt w'.tcp_alloc })
              (protocol_error e)
      ]

-- From the allocator's answer on.
unfoldable pub allocated : World → Env → ℕ → PortAllocator × Outcome PortAllocator.Error ℕ → World
unfolding register_err open_tcp_tunnel
allocated w env local_port (alloc, err e) =
    register_err (record w { tcp_alloc = some alloc }) (port_error e)
allocated w env local_port (alloc, ok public_port) =
    open_tcp_tunnel w env alloc local_port public_port

-- From the test of h.tcpAlloc on.
unfoldable pub register_tcp_in : World → Env → ℕ → ℕ → Option PortAllocator → World
unfolding register_err allocate allocated
register_tcp_in w env local_port remote_port none = register_err w tcp_disabled
register_tcp_in w env local_port remote_port (some alloc) =
    if leb max_tunnels_per_client w.tunnel_count
    then register_err w too_many_tunnels
    else allocated w env local_port (allocate alloc remote_port)

unfoldable pub handle_register_tcp : World → Env → Frame → World
unfolding register_err register_tcp_in
handle_register_tcp w env frame = elim (decode_register_tcp frame.payload) [
  | err e ↦ register_err w (protocol_error e)
  | ok (local_port, remote_port) ↦
      if local_port == 0
      then register_err w invalid_port
      else register_tcp_in w env local_port remote_port w.tcp_alloc
]
