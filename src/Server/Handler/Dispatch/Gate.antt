-- ===== src/Server/Handler/Dispatch/Gate.antt =====
-- What a connection can do before it shows the token.
use vlgr.Prelude.{
  ℕ, ◌≡◌, refl, Bool, true, false, not, ◌&&◌, List, [], ◌∷◌, Option, none, some, arith, ◌==◌, all,
  Bool-cases, inl, inr, if◌then◌else◌,
}
use mathlib.Core.Option
use vlgr.Prelude.Outcome.{ok, err, Outcome-cases}
use vlgr.Protocol.{Frame, msg_auth}
use vlgr.Protocol.Frames.{decode_frame}
use vlgr.Protocol.Auth.{decode_auth}
use vlgr.Server.Registry.{Registry}
use vlgr.Server.Handler.State.{World, Env, write_message, Payload}
use vlgr.Server.Handler.Handshake.{token_ok, handle_auth}
use vlgr.Server.Handler.Cleanup.{unregister_all, close_tcp_tunnels, cleanup}
use vlgr.Server.Handler.Dispatch.{dispatch, handle_frame, handle_message, run}

-- Whether a frame, or a message, is an authentication with a token that the handler takes.
abbrev frame_bears_token : List ℕ → Env → Frame → Bool
frame_bears_token expected env frame = elim (decode_auth frame.payload) [
  | err e ↦ false
  | ok (token, v) ↦ frame.type == msg_auth && token_ok env expected token
]

abbrev pub bears_token : List ℕ → Env × List ℕ → Bool
bears_token expected (env, msg) = elim (decode_frame msg) [
  | err e ↦ false
  | ok frame ↦ frame_bears_token expected env frame
]

-- The handler is not authenticated and owns nothing, and what it shares is that of `w`.
pub record Locked (w w' : World) : Type 0 where
  pub authenticated : w'.authenticated ≡ false
  pub expected_token : w'.expected_token ≡ w.expected_token
  pub tunnels : w'.tunnels ≡ []
  pub tls_tunnels : w'.tls_tunnels ≡ []
  pub tcp_tunnels : w'.tcp_tunnels ≡ []
  pub registry : w'.registry ≡ w.registry
  pub tls_registry : w'.tls_registry ≡ w.tls_registry
  pub tcp_alloc : w'.tcp_alloc ≡ w.tcp_alloc

if-Locked :
    {w : World} (b : Bool) (x y : World) → Locked w x → Locked w y → Locked w (if b then x else y)
if-Locked true x y lx ly = lx
if-Locked false x y lx ly = ly

Locked-if_true :
    {w : World} (b : Bool) (x y : World) → b ≡ true → Locked w x → Locked w (if b then x else y)
Locked-if_true true x y e l = l
Locked-if_true false x y e l = absurd (cc e)

map-unregister_all-nil : (o : Option Registry) → Option.map (unregister_all []) o ≡ o
unfolding unregister_all
map-unregister_all-nil none = refl
map-unregister_all-nil (some r) = refl

Locked-cleanup : {w v : World} → Locked w v → Locked w (cleanup v)
unfolding cleanup unregister_all close_tcp_tunnels
Locked-cleanup {w} {v} l = if-Locked v.closed _ _ l (record {
  authenticated = l.authenticated;
  expected_token = l.expected_token;
  tunnels = l.tunnels;
  tls_tunnels = l.tls_tunnels;
  tcp_tunnels = l.tcp_tunnels;
  registry = rw l.tunnels l.registry;
  tls_registry = rw (l.tls_tunnels, map-unregister_all-nil v.tls_registry) l.tls_registry;
  tcp_alloc = rw l.tcp_tunnels l.tcp_alloc;
})

Locked-write_message :
    {w v : World} (type : ℕ) (p : Payload) → Locked w v → Locked w (write_message v type 0 0 p)
unfolding write_message
Locked-write_message type p l = ground arith

handle_auth-Locked :
    {w v : World} (env : Env) (frame : Frame)
    → Locked w v
    → frame.type ≡ msg_auth
    → frame_bears_token w.expected_token env frame ≡ false
    → Locked w (handle_auth v env frame)
unfolding handle_auth
handle_auth-Locked {w} {v} env frame l is_auth bad =
    elim (Outcome-cases (decode_auth frame.payload)) [
      | inr (e, d) ↦ rw (d, handle_auth) (Locked-cleanup (Locked-write_message _ _ l))
      | inl ((token, version), d) ↦
          let wrong : token_ok env v.expected_token token ≡ false =
            rw l.expected_token (ground (arith, bad, d, is_auth)) in
          rw (d, wrong, handle_auth) (Locked-cleanup (Locked-write_message _ _ l))
    ]

handle_frame-Locked :
    {w v : World} (env : Env) (frame : Frame)
    → Locked w v
    → frame_bears_token w.expected_token env frame ≡ false
    → Locked w (handle_frame v env frame)
unfolding handle_frame dispatch
handle_frame-Locked {w} {v} env frame l bad = elim (Bool-cases (frame.type == msg_auth)) [
  | inr e ↦
      Locked-if_true (not v.authenticated && not (frame.type == msg_auth)) _ _
        (ground (arith, l.authenticated, e)) (Locked-write_message _ _ l)
  | inl e ↦
      rw (e, handle_frame, dispatch)
        (if-Locked _ _ _ (Locked-write_message _ _ l)
          (handle_auth-Locked env frame l (ground arith) bad))
]

handle_message-Locked :
    {w v : World} (env : Env) (msg : List ℕ)
    → Locked w v
    → bears_token w.expected_token (env, msg) ≡ false
    → Locked w (handle_message v env msg)
unfolding handle_message
handle_message-Locked {w} {v} env msg l bad = elim (Outcome-cases (decode_frame msg)) [
  | inr (e, d) ↦ rw (d, handle_message) l
  | inl (frame, d) ↦
      rw (d, handle_message) (handle_frame-Locked env frame l (ground (arith, bad, d)))
]

run-from :
    (w v : World) (msgs : List (Env × List ℕ))
    → Locked w v
    → all (λ m. not (bears_token w.expected_token m)) msgs ≡ true
    → Locked w (run v msgs)
unfolding run
run-from w v [] l bad = Locked-cleanup l
run-from w v ((env, msg) ∷ rest) l bad =
    run-from w (handle_message v env msg) rest
      (handle_message-Locked env msg l (ground (arith, bad))) (ground (arith, bad))

-- A new connection none of whose messages is an authentication with the right token stays
-- unauthenticated to its end, and leaves both registries and the pool of ports as they were.
pub run-Locked :
    (w : World) (msgs : List (Env × List ℕ))
    → Locked w w
    → all (λ m. not (bears_token w.expected_token m)) msgs ≡ true
    → Locked w (run w msgs)
run-Locked w msgs l bad = run-from w w msgs l bad
