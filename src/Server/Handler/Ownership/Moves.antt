-- ===== src/Server/Handler/Ownership/Moves.antt =====
-- What one frame does to the tunnels of its handler and to the registries.
use vlgr.Prelude.{
  ℕ, ◌≡◌, refl, Bool, true, false, not, ◌&&◌, List, [], Option, none, some, arith, length, ltb, leb,
  ◌==◌, Option-cases, inl, inr, if◌then◌else◌,
}
use vlgr.Prelude.Assoc.{nat_key, bytes_key, lookup, insert, erase}
use vlgr.Prelude.Bytes.{get_be}
use vlgr.Prelude.Outcome.{Outcome, ok, err, Outcome-cases}
use vlgr.Protocol.{Frame}
use vlgr.Protocol.Auth.{decode_auth}
use vlgr.Protocol.Register.{decode_register, decode_register_tcp}
use vlgr.Server.PortAllocator as PortAllocator
use vlgr.Server.PortAllocator.{PortAllocator, allocate}
use vlgr.Server.Registry.{Tunnel, Registry, Error}
use vlgr.Server.Registry.Laws.{Registers, refused, added, register-Registers}
use vlgr.Server.Subdomain.{valid_subdomain}
use vlgr.Server.Handler.State.{World, Env, Payload, Reason, write_message, register_err}
use vlgr.Server.Handler.Handshake.{token_ok, handle_auth}
use vlgr.Server.Handler.Cleanup.{cleanup}
use vlgr.Server.Handler.Tunnels.{
  requested_name, public_name, add_registered, add_tunnel, handle_register, handle_unregister,
  add_tls_registered, handle_register_tls, open_tcp_tunnel, handle_register_tcp, register_tls_in,
  register_tcp_in, allocated,
}
use vlgr.Server.Handler.Requests.{
  handle_tcp_ready, handle_http_res, handle_stream_data, handle_stream_close,
}
use vlgr.Server.Handler.Dispatch.{dispatch, handle_frame}

-- The change of one map of tunnels and one registry.
pub data Move (env : Env) (me : ℕ) (ts ts' : List (ℕ × Tunnel)) (r r' : Registry) : Type 0 where
  keep : ts' ≡ ts → r' ≡ r → Move env me ts ts' r r'
  add :
      (t : Tunnel) (b : List ℕ)
      → env.random_id ≡ some b
      → t.id ≡ get_be 0 b
      → t.handler ≡ me
      → lookup t.subdomain r ≡ none
      → ts' ≡ insert t.id t ts
      → r' ≡ insert t.subdomain t r
      → Move env me ts ts' r r'
  remove :
      (id : ℕ) (t : Tunnel)
      → lookup id ts ≡ some t
      → ts' ≡ erase id ts
      → r' ≡ erase t.subdomain r
      → Move env me ts ts' r r'

abbrev pub or_empty : Option Registry → Registry
or_empty none = []
or_empty (some r) = r

-- What no frame but a registration or a close changes.
pub record Quiet (w w' : World) : Type 0 where
  pub me : w'.me ≡ w.me
  pub closed : w'.closed ≡ w.closed
  pub tunnels : w'.tunnels ≡ w.tunnels
  pub registry : w'.registry ≡ w.registry
  pub tls_tunnels : w'.tls_tunnels ≡ w.tls_tunnels
  pub tls_registry : w'.tls_registry ≡ w.tls_registry

-- A frame goes on with at most one tunnel more or less, or ends the connection.
pub data Step (env : Env) (w w' : World) : Type 0 where
  goes_on :
      w'.me ≡ w.me
      → w'.closed ≡ w.closed
      → Move env w.me w.tunnels w'.tunnels w.registry w'.registry
      → Move env w.me w.tls_tunnels w'.tls_tunnels
          (or_empty w.tls_registry)
          (or_empty w'.tls_registry)
      → Step env w w'
  ends : (v : World) → Quiet w v → w' ≡ cleanup v → Step env w w'

Step-of_Quiet : {env : Env} {w w' : World} → Quiet w w' → Step env w w'
Step-of_Quiet q =
    goes_on q.me q.closed (keep q.tunnels q.registry)
      (keep q.tls_tunnels (ground (arith, q.tls_registry)))

register_err-Step : {env : Env} (w : World) (reason : Reason) → Step env w (register_err w reason)
unfolding register_err
register_err-Step w reason = goes_on refl refl (keep refl refl) (keep refl refl)

add_registered-Step :
    (w : World) (env : Env) (s : List ℕ) (r' : Registry) (res : Outcome Error Tunnel)
    → Registers w.registry r' s w.me env.random_id res
    → Step env w (add_registered w s (r', res))
unfolding add_registered
add_registered-Step w env s r' _ (refused e same) =
    goes_on refl refl (keep refl same) (keep refl refl)
add_registered-Step w env s r' _ (added t b random id name mine free r_eq) =
    goes_on refl refl
      (add t b random id mine (ground (arith, free, name)) refl (ground (arith, name, r_eq)))
      (keep refl refl)

add_tls_registered-Step :
    (w : World) (env : Env) (s : List ℕ) (r r' : Registry) (res : Outcome Error Tunnel)
    → w.tls_registry ≡ some r
    → Registers r r' s w.me env.random_id res
    → Step env w (add_tls_registered w s (r', res))
unfolding add_tls_registered
add_tls_registered-Step w env s r r' _ there (refused e same) =
    goes_on refl refl (keep refl refl) (keep refl (ground arith))
add_tls_registered-Step w env s r r' _ there (added t b random id name mine free r_eq) =
    goes_on refl refl (keep refl refl)
      (add t b random id mine (ground (arith, free, name)) refl (ground (arith, name, r_eq)))

Quiet-refl : (w : World) → Quiet w w
Quiet-refl w = ground arith

written : (w : World) (type : ℕ) (p : Payload) → Quiet w (write_message w type 0 0 p)
unfolding write_message
written w type p = ground arith

if-Quiet :
    {w : World} (b : Bool) (x y : World) → Quiet w x → Quiet w y → Quiet w (if b then x else y)
if-Quiet true x y qx qy = qx
if-Quiet false x y qx qy = qy

handle_tcp_ready-Quiet : (w : World) (frame : Frame) → Quiet w (handle_tcp_ready w frame)
unfolding handle_tcp_ready
handle_tcp_ready-Quiet w frame = ground arith

handle_http_res-Quiet :
    (w : World) (env : Env) (frame : Frame) → Quiet w (handle_http_res w env frame)
unfolding handle_http_res
handle_http_res-Quiet w env frame = ground arith

handle_stream_data-Quiet :
    (w : World) (env : Env) (frame : Frame) → Quiet w (handle_stream_data w env frame)
unfolding handle_stream_data
handle_stream_data-Quiet w env frame = ground arith

handle_stream_close-Quiet : (w : World) (frame : Frame) → Quiet w (handle_stream_close w frame)
unfolding handle_stream_close
handle_stream_close-Quiet w frame = ground arith

if-Step :
    {env : Env} {w : World} (b : Bool) (x y : World)
    → Step env w x
    → Step env w y
    → Step env w (if b then x else y)
if-Step true x y sx sy = sx
if-Step false x y sx sy = sy

add_tunnel-Step : (w : World) (env : Env) (s : List ℕ) → Step env w (add_tunnel w env s)
unfolding add_tunnel
add_tunnel-Step w env s =
    if-Step (leb 20 w.tunnel_count) _ _ (register_err-Step w _)
      (add_registered-Step w env s _ _ (register-Registers w.registry s w.me env.random_id))

handle_register-Step :
    (w : World) (env : Env) (frame : Frame) → Step env w (handle_register w env frame)
unfolding handle_register
handle_register-Step w env frame = elim (Outcome-cases (decode_register frame.payload)) [
  | inr (e, d) ↦ rw (d, handle_register) (register_err-Step w _)
  | inl ((port, name), d) ↦
      rw (d, handle_register)
        (if-Step (port == 0) _ _ (register_err-Step w _) (
          if-Step (not (valid_subdomain name)) _ _ (register_err-Step w _) (
            if-Step (ltb 255 (length (public_name w (requested_name env name)))) _ _
              (register_err-Step w _) (add_tunnel-Step w env (requested_name env name)))))
]

register_tls_in-Step :
    (w : World) (env : Env) (name : List ℕ) (o : Option Registry)
    → w.tls_registry ≡ o
    → Step env w (register_tls_in w env name o)
unfolding register_tls_in
register_tls_in-Step w env name none there = register_err-Step w _
register_tls_in-Step w env name (some tls) there =
    let s = requested_name env name in
    if-Step (not (valid_subdomain name)) _ _ (register_err-Step w _) (
      if-Step (ltb 255 (length (public_name w s))) _ _ (register_err-Step w _) (
        if-Step (leb 20 w.tunnel_count) _ _ (register_err-Step w _) (
          add_tls_registered-Step w env s tls _ _ there
            (register-Registers tls s w.me env.random_id))))

handle_register_tls-Step :
    (w : World) (env : Env) (frame : Frame) → Step env w (handle_register_tls w env frame)
unfolding handle_register_tls
handle_register_tls-Step w env frame = elim (Outcome-cases (decode_register frame.payload)) [
  | inr (e, d) ↦ rw (d, handle_register_tls) (register_err-Step w _)
  | inl ((port, name), d) ↦
      rw (d, handle_register_tls)
        (if-Step (port == 0) _ _ (register_err-Step w _)
          (register_tls_in-Step w env name w.tls_registry refl))
]

handle_unregister-Step :
    (w : World) (env : Env) (frame : Frame) → Step env w (handle_unregister w frame)
unfolding handle_unregister
handle_unregister-Step w env frame = elim (Option-cases (lookup frame.tunnel_id w.tunnels)) [
  | inl e ↦ rw (e, handle_unregister) (goes_on refl refl (keep refl refl) (keep refl refl))
  | inr (t, e) ↦
      rw (e, handle_unregister)
        (goes_on refl refl (remove frame.tunnel_id t e refl refl) (keep refl refl))
]

open_tcp_tunnel-Quiet :
    (w : World) (env : Env) (alloc : PortAllocator) (local_port public_port : ℕ)
    → Quiet w (open_tcp_tunnel w env alloc local_port public_port)
unfolding open_tcp_tunnel
open_tcp_tunnel-Quiet w env alloc local_port public_port = ground arith

register_err-Quiet : (w : World) (reason : Reason) → Quiet w (register_err w reason)
unfolding register_err
register_err-Quiet w reason = ground arith

allocated-Quiet :
    (w : World) (env : Env) (local_port : ℕ) (a : PortAllocator)
    (res : Outcome PortAllocator.Error ℕ)
    → Quiet w (allocated w env local_port (a, res))
unfolding allocated
allocated-Quiet w env local_port a (ok port) = open_tcp_tunnel-Quiet w env a local_port port
allocated-Quiet w env local_port a (err e) = ground arith

register_tcp_in-Quiet :
    (w : World) (env : Env) (local_port remote_port : ℕ) (o : Option PortAllocator)
    → Quiet w (register_tcp_in w env local_port remote_port o)
unfolding register_tcp_in
register_tcp_in-Quiet w env local_port remote_port none = register_err-Quiet w _
register_tcp_in-Quiet w env local_port remote_port (some a) =
    if-Quiet (leb 20 w.tunnel_count) _ _ (register_err-Quiet w _)
      (allocated-Quiet w env local_port _ _)

handle_register_tcp-Quiet :
    (w : World) (env : Env) (frame : Frame) → Quiet w (handle_register_tcp w env frame)
unfolding handle_register_tcp
handle_register_tcp-Quiet w env frame = elim (Outcome-cases (decode_register_tcp frame.payload)) [
  | inr (e, d) ↦ rw (d, handle_register_tcp) (register_err-Quiet w _)
  | inl ((local_port, remote_port), d) ↦
      rw (d, handle_register_tcp)
        (if-Quiet (local_port == 0) _ _ (register_err-Quiet w _)
          (register_tcp_in-Quiet w env local_port remote_port w.tcp_alloc))
]

handle_auth-Step : (w : World) (env : Env) (frame : Frame) → Step env w (handle_auth w env frame)
unfolding handle_auth
handle_auth-Step w env frame = elim (Outcome-cases (decode_auth frame.payload)) [
  | inr (e, d) ↦ rw (d, handle_auth) (ends (write_message w _ 0 0 _) (written w _ _) refl)
  | inl ((token, v), d) ↦
      rw (d, handle_auth)
        (if-Step (token_ok env w.expected_token token) _ _
          (goes_on refl refl (keep refl refl) (keep refl refl))
          (ends (write_message w _ 0 0 _) (written w _ _) refl))
]

dispatch-Step : (w : World) (env : Env) (frame : Frame) → Step env w (dispatch w env frame)
unfolding dispatch
dispatch-Step w env frame = if-Step (frame.type == 0x01) _ _ (handle_auth-Step w env frame) (
    if-Step (frame.type == 0x04) _ _ (handle_register-Step w env frame) (
      if-Step (frame.type == 0x0D) _ _ (handle_unregister-Step w env frame) (
        if-Step (frame.type == 0x10) _ _ (Step-of_Quiet (handle_register_tcp-Quiet w env frame)) (
          if-Step (frame.type == 0x12) _ _ (handle_register_tls-Step w env frame) (
            if-Step (frame.type == 0x11) _ _ (Step-of_Quiet (handle_tcp_ready-Quiet w frame)) (
              if-Step (frame.type == 0x08) _ _ (Step-of_Quiet (handle_http_res-Quiet w env frame)) (
                if-Step (frame.type == 0x0B) _ _
                  (Step-of_Quiet (handle_stream_data-Quiet w env frame))
                  (if-Step (frame.type == 0x0C) _ _
                    (Step-of_Quiet (handle_stream_close-Quiet w frame))
                    (if-Step (frame.type == 0x09) _ _ (ends w (Quiet-refl w) refl)
                      (Step-of_Quiet (Quiet-refl w)))))))))))

pub handle_frame-Step :
    (w : World) (env : Env) (frame : Frame) → Step env w (handle_frame w env frame)
unfolding handle_frame
handle_frame-Step w env frame =
    if-Step (not w.authenticated && not (frame.type == 0x01)) _ _
      (goes_on refl refl (keep refl refl) (keep refl refl)) (dispatch-Step w env frame)
