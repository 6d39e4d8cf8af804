-- ===== src/Client.antt =====
-- internal/client/tunnel.go: the forwards of the client, and how they are added and removed while
-- it runs.
-- A channel that AddPort or RemovePort waits on is a number, `next_channel` the first that is not
-- in use; `results` and `del_results` are what was sent on the channels.
-- A relay and the body of an upload are named by the id of their request: `relay_store` and
-- `body_store` hold all that were made, and `relays`, `body_streams` and `resp_cancels` the ids that
-- the maps of those names still have. `local_requests` and `relay_count` are the places that are
-- taken in localReqSem and relaySem.
pub mod Ports
pub mod Streams
pub mod Serve
pub mod Session
pub mod Run
pub mod Dashboard
pub mod Control
use vlgr.Prelude.{
  ℕ, ◌+◌, Bool, true, false, List, [], ◌∷◌, ◌++◌, Option, none, some, ◌==◌, if◌then◌else◌,
}
use vlgr.Prelude.Outcome.{Outcome, ok, err}
use vlgr.Protocol as Protocol
use vlgr.Protocol.{Frame, msg_register, msg_unregister}
use vlgr.Protocol.Register.{encode_register, decode_register_ok}

pub record Forward : Type 0 where
  pub tunnel_id : ℕ
  pub port : ℕ
  pub url : List ℕ

-- What the server answers in place of a RegisterOK, or how a call fails.
pub data Error : Type 0 where
  refused : List ℕ → Error
  bad_payload : Protocol.Error → Error
  busy write_error timeout no_forward : Error

-- A connection to a local port: what was written to it, and whether it is closed.
pub record StreamRelay : Type 0 where
  pub written : List (List ℕ)
  pub conn_closed : Bool
  pub done : Bool

-- The channel of a bodyStream with what it holds.
pub record BodyStream : Type 0 where
  pub ch : List (List ℕ)
  pub ch_closed : Bool
  pub aborted : Bool

pub record Tunnel : Type 0 where
  pub forwards : List Forward
  pub add_ch : Option ℕ
  pub add_port : ℕ
  pub del_ch : Option ℕ
  pub del_id : ℕ
  pub next_channel : ℕ
  pub results : List (ℕ × Outcome Error (List ℕ))
  pub del_results : List (ℕ × Option Error)
  pub sent : List Frame
  pub relays : List ℕ
  pub relay_store : List (ℕ × StreamRelay)
  pub body_streams : List ℕ
  pub body_store : List (ℕ × BodyStream)
  pub resp_cancels : List ℕ
  pub cancelled : List ℕ
  pub local_requests : ℕ
  pub relay_count : ℕ
  pub done : Bool

-- writeFrame, where the caller does not look at its error
unfoldable pub write_frame : Tunnel → Frame → Tunnel
write_frame t frame = record t { sent = t.sent ++ frame ∷ [] }

unfoldable pub set_mapping : Tunnel → ℕ → ℕ → List ℕ → Tunnel
set_mapping t tunnel_id port url = record t {
  forwards = t.forwards ++ record { tunnel_id = tunnel_id; port = port; url = url } ∷ [];
}

-- The loop of removeMapping: the first forward with the id is taken out.
unfoldable pub without_first : ℕ → List Forward → List Forward
without_first id [] = []
without_first id (f ∷ fs) =
    let rest = without_first id fs in if f.tunnel_id == id then fs else f ∷ rest

unfoldable pub remove_mapping : Tunnel → ℕ → Tunnel
unfolding without_first
remove_mapping t id = record t { forwards = without_first id t.forwards }

unfoldable pub find_port : ℕ → List Forward → Option ℕ
find_port id [] = none
find_port id (f ∷ fs) =
    let rest = find_port id fs in if f.tunnel_id == id then some f.port else rest

unfoldable pub port_for : Tunnel → ℕ → Option ℕ
unfolding find_port
port_for t id = find_port id t.forwards

-- The loop of RemovePort: the id of the first forward of the port.
unfoldable pub id_of_port : ℕ → List Forward → Option ℕ
id_of_port port [] = none
id_of_port port (f ∷ fs) =
    let rest = id_of_port port fs in if f.port == port then some f.tunnel_id else rest

abbrev frame_of : ℕ → ℕ → List ℕ → Frame
frame_of type tunnel_id payload = record {
  type = type;
  tunnel_id = tunnel_id;
  request_id = 0;
  payload = payload;
}

-- AddPort up to its select: the channel it waits on.
unfoldable pub begin_add : Tunnel → Bool → ℕ → List ℕ → Tunnel × Outcome Error ℕ
begin_add t writes port subdomain = elim t.add_ch [
  | some ch ↦ (t, err busy)
  | none ↦ elim (encode_register port subdomain) [
    | err e ↦ (t, err (bad_payload e))
    | ok payload ↦
        let ch = t.next_channel in
        if writes
        then (
          record t {
            add_ch = some ch;
            add_port = port;
            next_channel = ch + 1;
            sent = t.sent ++ frame_of msg_register 0 payload ∷ [];
          },
          ok ch,
        )
        else (record t { add_ch = none; add_port = port; next_channel = ch + 1 }, err write_error)
  ]
]

-- The timer of AddPort fires.
unfoldable pub time_out_add : Tunnel → Tunnel × Outcome Error (List ℕ)
time_out_add t = (record t { add_ch = none }, err timeout)

-- handleAddResponse; `failure` is the err argument, and the Bool whether an add was pending.
unfoldable pub handle_add_response : Tunnel → List ℕ → Option Error → Tunnel × Bool
unfolding set_mapping
handle_add_response t payload failure = elim t.add_ch [
  | none ↦ (record t { add_ch = none }, false)
  | some ch ↦ elim failure [
    | some e ↦ (record t { add_ch = none; results = t.results ++ (ch, err e) ∷ [] }, true)
    | none ↦ elim (decode_register_ok payload) [
      | err e ↦
          (record t { add_ch = none; results = t.results ++ (ch, err (bad_payload e)) ∷ [] }, true)
      | ok (url, tunnel_id) ↦ (
        record (set_mapping t tunnel_id t.add_port url) {
          add_ch = none;
          results = t.results ++ (ch, ok url) ∷ [];
        },
        true,
      )
    ]
  ]
]

-- RemovePort up to its select.
unfoldable pub begin_remove : Tunnel → Bool → ℕ → Tunnel × Outcome Error ℕ
unfolding id_of_port
begin_remove t writes port = elim (id_of_port port t.forwards) [
  | none ↦ (t, err no_forward)
  | some id ↦ elim t.del_ch [
    | some ch ↦ (t, err busy)
    | none ↦
        let ch = t.next_channel in
        if writes
        then (
          record t {
            del_ch = some ch;
            del_id = id;
            next_channel = ch + 1;
            sent = t.sent ++ frame_of msg_unregister id [] ∷ [];
          },
          ok ch,
        )
        else (record t { del_ch = none; del_id = id; next_channel = ch + 1 }, err write_error)
  ]
]

unfoldable pub time_out_remove : Tunnel → Tunnel × Error
time_out_remove t = (record t { del_ch = none }, timeout)

unfoldable pub handle_del_response : Tunnel → Option Error → Tunnel
unfolding remove_mapping
handle_del_response t failure = elim t.del_ch [
  | none ↦ record t { del_ch = none }
  | some ch ↦ elim failure [
    | none ↦ record (remove_mapping t t.del_id) {
      del_ch = none;
      del_results = t.del_results ++ (ch, none) ∷ [];
    }
    | some e ↦ record t { del_ch = none; del_results = t.del_results ++ (ch, some e) ∷ [] }
  ]
]
