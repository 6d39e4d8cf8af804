-- ===== src/Client/Session/Connected.antt =====
-- What Connect leaves behind when it ends, with or without an error.
use vlgr.Prelude.{
  ℕ, suc, ◌≤◌, ◌≡◌, refl, sym, ◌∙◌, List, [], ◌∷◌, ◌++◌, Option, none, some, arith, length, take,
  drop, Bool-cases, List-cases, inl, inr, ◌==◌, if◌then◌else◌,
}
use mathlib.Core.List.{append_assoc, append-nil}
use vlgr.Prelude.Bytes.{codes}
use vlgr.Prelude.Outcome.{ok, err, Outcome-cases}
use vlgr.Protocol.{Frame, msg_auth, msg_register_ok}
use vlgr.Protocol.Auth.{encode_auth}
use vlgr.Protocol.Frames.{decode_frame}
use vlgr.Protocol.Register.{decode_register_ok}
use vlgr.Client.{Forward, Tunnel, set_mapping, write_frame}
use vlgr.Client.Session.{
  TcpForward, TlsForward, Config, Conn, ConnectError, next_write, send, receive, check_register,
  register_one, stop_on, Registration, port_registrations, tcp_registrations, tls_registrations,
  register, register_all, registrations, authenticate, connect,
}

-- What is asked for: a local port, and the scheme that goes before the URL of the answer.
abbrev plain : List ℕ → List (ℕ × List ℕ)
plain [] = []
plain (p ∷ ps) = (p, []) ∷ plain ps

abbrev over_tcp : List TcpForward → List (ℕ × List ℕ)
over_tcp [] = []
over_tcp (f ∷ fs) = (f.local_port, codes "tcp://") ∷ over_tcp fs

abbrev over_tls : List TlsForward → List (ℕ × List ℕ)
over_tls [] = []
over_tls (f ∷ fs) = (f.local_port, codes "tls://") ∷ over_tls fs

abbrev pub wanted : Config → List (ℕ × List ℕ)
wanted config = plain config.ports ++ (over_tcp config.tcp_forwards ++ over_tls config.tls_forwards)

abbrev asked : List Registration → List (ℕ × List ℕ)
asked [] = []
asked (r ∷ rs) = (r.port, r.scheme) ∷ asked rs

-- The URL and the id that a message of the server grants, if it is a MsgRegisterOK.
unfoldable pub granted : List ℕ → Option (List ℕ × ℕ)
granted msg = elim (decode_frame msg) [
  | err e ↦ none
  | ok frame ↦
      if frame.type == msg_register_ok
      then elim (decode_register_ok frame.payload) [ err e ↦ none | ok r ↦ some r ]
      else none
]

-- The forwards that the messages of the server grant, in order, up to one that does not.
abbrev pub granted_forwards : List (ℕ × List ℕ) → List (List ℕ) → List Forward
granted_forwards [] msgs = []
granted_forwards (w ∷ ws) [] = []
granted_forwards ((port, scheme) ∷ ws) (msg ∷ msgs) =
    let rest = granted_forwards ws msgs in
    elim (granted msg) [
      | none ↦ []
      | some (url, id) ↦ record { tunnel_id = id; port = port; url = scheme ++ url } ∷ rest
    ]

-- The messages after the answer to MsgAuth.
abbrev pub after_auth : Option Conn → List (List ℕ)
after_auth none = []
after_auth (some conn) = drop 1 conn.incoming

-- All `n` without an error, at most `n` with one.
abbrev Count : Option ConnectError → ℕ → ℕ → Type 0
Count none k n = k ≡ n
Count (some e) k n = k ≤ n

suc-Count :
    (failure : Option ConnectError) (k n : ℕ) → Count failure k n → Count failure (suc k) (suc n)
suc-Count none k n h = omega (arith, h)
suc-Count (some e) k n h = omega (arith, h)

-- The forwards after a call: those before it, and the first k that the messages grant.
pub record Progress (before after : Tunnel) (failure : Option ConnectError) (ws : List (ℕ × List ℕ))
    (msgs : List (List ℕ)) : Type 0 where
  k : ℕ
  forwards : after.forwards ≡ before.forwards ++ take k (granted_forwards ws msgs)
  are_granted : k ≤ length (granted_forwards ws msgs)
  count : Count failure k (length ws)

Progress-stopped :
    (t t' : Tunnel) (e : ConnectError) (ws : List (ℕ × List ℕ)) (msgs : List (List ℕ))
    → t'.forwards ≡ t.forwards
    → Progress t t' (some e) ws msgs
Progress-stopped t t' e ws msgs same = record {
  k = 0;
  forwards = rw same (sym (append-nil t.forwards));
  are_granted = omega arith;
  count = omega arith;
}

send-forwards :
    (t : Tunnel) (conn : Conn) (frame : Frame) → (send t conn frame).0.forwards ≡ t.forwards
unfolding send write_frame
send-forwards t conn frame = elim (Bool-cases (next_write conn.writes).0) [
  | inl e ↦ rw e refl
  | inr e ↦ rw e refl
]

register_one-forwards :
    (t : Tunnel) (conn : Conn) (msg_type : ℕ) (payload : List ℕ)
    → (register_one t conn msg_type payload).0.forwards ≡ t.forwards
unfolding register_one send write_frame
register_one-forwards t conn msg_type payload = elim (Bool-cases (next_write conn.writes).0) [
  | inl e ↦ rw e refl
  | inr e ↦ rw e refl
]

check_register-granted :
    (msg : List ℕ) (frame : Frame) (url : List ℕ) (id : ℕ)
    → decode_frame msg ≡ ok frame
    → check_register frame ≡ ok (url, id)
    → granted msg ≡ some (url, id)
unfolding check_register granted
check_register-granted msg frame url id d h =
    elim (Outcome-cases (decode_register_ok frame.payload)) [
      | inl (r, e) ↦ ground (arith, d, h, e)
      | inr (f, e) ↦ absurd (ground (arith, h, e))
    ]

-- An answer that registerOne takes is the first message that is left.
register_one-granted :
    (t : Tunnel) (conn : Conn) (msg_type : ℕ) (payload url : List ℕ) (id : ℕ)
    → (register_one t conn msg_type payload).2 ≡ ok (url, id)
    → (msg : List ℕ) × (conn.incoming ≡ msg ∷ (register_one t conn msg_type payload).1.incoming)
      × (granted msg ≡ some (url, id))
unfolding register_one send receive
register_one-granted t conn msg_type payload url id h =
    elim (Bool-cases (next_write conn.writes).0) [
      | inr e ↦ absurd (ground (arith, h, e))
      | inl e ↦ elim (List-cases conn.incoming) [
        | inl none_left ↦ absurd (ground (arith, h, e, none_left))
        | inr (msg, msgs, there) ↦ elim (Outcome-cases (decode_frame msg)) [
          | inr (f, d) ↦ absurd (ground (arith, h, e, there, d))
          | inl (frame, d) ↦ (
            msg,
            ground (arith, e, there),
            check_register-granted msg frame url id d (ground (arith, h, e, there, d)),
          )
        ]
      ]
    ]

-- What one round does: it stops with an error, or adds the forward that the next message grants.
data Registered (t : Tunnel) (conn : Conn) (w : ℕ × List ℕ)
    : Tunnel × Conn × Option ConnectError → Type 0 where
  stops :
      (t' : Tunnel) (conn' : Conn) (e : ConnectError)
      → t'.forwards ≡ t.forwards
      → Registered t conn w (t', conn', some e)
  goes :
      (t' : Tunnel) (conn' : Conn) (msg url : List ℕ) (id : ℕ)
      → conn.incoming ≡ msg ∷ conn'.incoming
      → granted msg ≡ some (url, id)
      → t'.forwards ≡ t.forwards ++ record { tunnel_id = id; port = w.0; url = w.1 ++ url } ∷ []
      → Registered t conn w (t', conn', none)

register-Registered :
    (t : Tunnel) (conn : Conn) (r : Registration)
    → Registered t conn (r.port, r.scheme) (register t conn r)
unfolding register set_mapping
register-Registered t conn r = elim (Outcome-cases r.payload) [
  | inr (e, d) ↦ rw (d, register) (stops t conn _ refl)
  | inl (payload, d) ↦
      let kept = register_one-forwards t conn r.msg_type payload in
      elim (Outcome-cases (register_one t conn r.msg_type payload).2) [
        | inr (e, d') ↦ rw (d, register) (rw (d', register) (stops _ _ e kept))
        | inl ((url, id), d') ↦
            let (msg, first, grants) = register_one-granted t conn r.msg_type payload url id d' in
            rw (d, register)
              (rw (d', register)
                (goes _ (register_one t conn r.msg_type payload).1 msg url id first grants
                  (rw kept refl)))
      ]
]

granted_forwards-first :
    (w : ℕ × List ℕ) (ws : List (ℕ × List ℕ)) (msg : List ℕ) (msgs : List (List ℕ)) (url : List ℕ)
    (id : ℕ)
    → granted msg ≡ some (url, id)
    → granted_forwards (w ∷ ws) (msg ∷ msgs)
      ≡ record { tunnel_id = id; port = w.0; url = w.1 ++ url } ∷ granted_forwards ws msgs
granted_forwards-first (port, scheme) ws msg msgs url id grants = rw (grants, granted_forwards) refl

-- The round that comes before the others.
then-Progress :
    (t : Tunnel) (conn : Conn) (w : ℕ × List ℕ) (ws : List (ℕ × List ℕ))
    (now rest : Tunnel × Conn × Option ConnectError)
    → Registered t conn w now
    → Progress now.0 rest.0 rest.2 ws now.1.incoming
    → Progress t
        (stop_on now.2 now.0 now.1 rest).0
        (stop_on now.2 now.0 now.1 rest).2
        (w ∷ ws)
        conn.incoming
then-Progress t conn w ws _ rest (stops t' conn' e same) next =
    Progress-stopped t t' e (w ∷ ws) conn.incoming same
then-Progress t conn w ws _ rest (goes t' conn' msg url id first grants added) next =
    let f : Forward = record { tunnel_id = id; port = w.0; url = w.1 ++ url } in
    let more = granted_forwards ws conn'.incoming in
    let all : granted_forwards (w ∷ ws) conn.incoming ≡ f ∷ more =
      rw first (granted_forwards-first w ws msg conn'.incoming url id grants) in
    record {
      k = suc next.k;
      forwards =
          next.forwards ∙ rw (added, all) (append_assoc t.forwards (f ∷ []) (take next.k more));
      are_granted = rw all (omega (arith, next.are_granted));
      count = suc-Count rest.2 next.k (length ws) next.count;
    }

register_all-Progress :
    (rs : List Registration) (t : Tunnel) (conn : Conn)
    → Progress t (register_all t conn rs).0 (register_all t conn rs).2 (asked rs) conn.incoming
unfolding register_all
register_all-Progress [] t conn = record {
  k = 0;
  forwards = sym (append-nil t.forwards);
  are_granted = omega arith;
  count = refl;
}
register_all-Progress (r ∷ rs) t conn =
    then-Progress t conn (r.port, r.scheme) (asked rs) (register t conn r) _
      (register-Registered t conn r)
      (register_all-Progress rs (register t conn r).0 (register t conn r).1)

asked-append : (rs qs : List Registration) → asked (rs ++ qs) ≡ asked rs ++ asked qs
asked-append [] qs = refl
asked-append (r ∷ rs) qs = rw (asked-append rs qs)

asked-plain :
    (ports : List ℕ) (subs : List (List ℕ)) → asked (port_registrations ports subs) ≡ plain ports
unfolding port_registrations
asked-plain [] subs = refl
asked-plain (p ∷ ports) [] = rw (asked-plain ports [])
asked-plain (p ∷ ports) (s ∷ subs) = rw (asked-plain ports subs)

asked-over_tcp : (fs : List TcpForward) → asked (tcp_registrations fs) ≡ over_tcp fs
unfolding tcp_registrations
asked-over_tcp [] = refl
asked-over_tcp (f ∷ fs) = rw (asked-over_tcp fs)

asked-over_tls : (fs : List TlsForward) → asked (tls_registrations fs) ≡ over_tls fs
unfolding tls_registrations
asked-over_tls [] = refl
asked-over_tls (f ∷ fs) = rw (asked-over_tls fs)

asked-wanted : (config : Config) → asked (registrations config) ≡ wanted config
unfolding registrations
asked-wanted config =
    asked-append (port_registrations config.ports config.subdomains) _
    ∙ rw (asked-plain config.ports config.subdomains) (
        rw
          (asked-append (tcp_registrations config.tcp_forwards)
            (tls_registrations config.tls_forwards))
          (rw (asked-over_tcp config.tcp_forwards, asked-over_tls config.tls_forwards) refl))

abbrev frame_of_auth : List ℕ → Frame
frame_of_auth payload = record { type = msg_auth; tunnel_id = 0; request_id = 0; payload = payload }

-- The registrations come after what leaves the forwards as they are.
stop_on-Progress :
    (t t' : Tunnel) (conn' : Conn) (failure : Option ConnectError)
    (rest : Tunnel × Conn × Option ConnectError) (ws : List (ℕ × List ℕ)) (msgs : List (List ℕ))
    → t'.forwards ≡ t.forwards
    → (failure ≡ none → conn'.incoming ≡ msgs)
    → Progress t' rest.0 rest.2 ws conn'.incoming
    → Progress t (stop_on failure t' conn' rest).0 (stop_on failure t' conn' rest).2 ws msgs
stop_on-Progress t t' conn' (some e) rest ws msgs kept left h = Progress-stopped t t' e ws msgs kept
stop_on-Progress t t' conn' none rest ws msgs kept left h = rw (← left refl) (record {
  k = h.k;
  forwards = rw (← kept) h.forwards;
  are_granted = h.are_granted;
  count = h.count;
})

authenticate-forwards :
    (version : List ℕ) (config : Config) (t : Tunnel) (conn : Conn)
    → (authenticate version config t conn).0.forwards ≡ t.forwards
unfolding authenticate
authenticate-forwards version config t conn =
    elim (Outcome-cases (encode_auth config.token version)) [
      | inr (e, d) ↦ rw (d, authenticate) refl
      | inl (payload, d) ↦ rw (d, authenticate) (send-forwards t conn (frame_of_auth payload))
    ]

authenticate-incoming :
    (version : List ℕ) (config : Config) (t : Tunnel) (conn : Conn)
    → (authenticate version config t conn).2 ≡ none
    → (authenticate version config t conn).1.incoming ≡ drop 1 conn.incoming
unfolding authenticate send receive
authenticate-incoming version config t conn h =
    elim (Outcome-cases (encode_auth config.token version)) [
      | inr (e, d) ↦ absurd (ground (arith, h, d))
      | inl (payload, d) ↦ elim (Bool-cases (next_write conn.writes).0) [
        | inr e ↦ absurd (ground (arith, h, d, e))
        | inl e ↦ elim (List-cases conn.incoming) [
          | inl none_left ↦ ground (arith, d, e, none_left)
          | inr (msg, msgs, there) ↦ ground (arith, d, e, there)
        ]
      ]
    ]

-- After Connect, in whatever way it ends, the client has the forwards that it had before and then
-- the first of those that the server granted, in the order of the ports, of the TCP forwards and of
-- the TLS forwards: each with the port that was asked for, and with the id and the URL, behind its
-- scheme, of the answer to it; those of all that was asked for when Connect gives no error.
pub connect-Progress :
    (version : List ℕ) (config : Config) (t : Tunnel) (conn : Option Conn)
    → Progress t
        (connect version config t conn).0
        (connect version config t conn).1
        (wanted config)
        (after_auth conn)
unfolding connect
connect-Progress version config t none = Progress-stopped t t _ (wanted config) [] refl
connect-Progress version config t (some conn) = rw (← asked-wanted config) (
    stop_on-Progress t _ (authenticate version config t conn).1
      (authenticate version config t conn).2 _ _ (drop 1 conn.incoming)
      (authenticate-forwards version config t conn) (authenticate-incoming version config t conn)
      (register_all-Progress (registrations config) (authenticate version config t conn).0
        (authenticate version config t conn).1))
