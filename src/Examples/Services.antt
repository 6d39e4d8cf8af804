-- ===== src/Examples/Services.antt =====
-- The parts of the server and the client that keep little state, at concrete inputs.
use vlgr.Prelude.{
  All, ℕ, ◌≡◌, refl, true, false, List, [], ◌∷◌, none, some, arith, ◌==◌, bytes_eq, ◌&&◌,
  if◌then◌else◌,
}
use vlgr.Prelude.Assoc.{bytes_key}
use vlgr.Prelude.Bytes.{get_be, put_be}
use vlgr.Prelude.Int.{pos}
use vlgr.Prelude.Outcome.{ok, err}
use vlgr.Prelude.Text.{trim_space, trim_with, space_width, last_space_width, contains_byte}
use vlgr.Server.PortAllocator.{
  PortAllocator, no_free_ports, new_port_allocator, is_used, advance, scan, allocate, release,
}
use vlgr.Server.PortAllocator.Invariant.{
  IsPool, Reserves, new_port_allocator-IsPool, allocate-Reserves, allocate-release,
}
use vlgr.Server.PortAllocator.Scan.{allocate_any_full}
use vlgr.Server.Registry.{new_registry, register}
use vlgr.Server.Registry.Laws.{Registers, register-Registers}
use vlgr.Server.Protect.{
  Net, Request, allowed, unauthorized, Protector, new_protector, client_ip, allow,
}
use vlgr.Server.Protect.Forwarded.{client_ip-appended, allow-new_protector}
use vlgr.Server.Subdomain.{extract_subdomain}
use vlgr.Protocol.{Headers}
use vlgr.Server.Proxy.{copy_valid_headers}
use vlgr.Server.Proxy.Splitting.{IsOneLine, copy_valid_headers-IsOneLine}
use vlgr.Server.Subdomain.Hosts.{Names, extract_subdomain-Names}
use vlgr.SelfUpdate.{newer}
use vlgr.SelfUpdate.Order.{newer-asymmetric}
use vlgr.Client as Client
use vlgr.Client.{Forward, port_for, id_of_port, find_port}
use vlgr.Client.Ports.{added, removed, removed-added}
use vlgr.Protocol.Register.{encode_register, decode_register_ok}

abbrev pool : PortAllocator
pool = new_port_allocator 10 12

pool-IsPool : IsPool pool
pool-IsPool = new_port_allocator-IsPool 10 12 (omega arith) (omega arith)

allocate-Reserves_example : Reserves pool (allocate pool 0).0 (allocate pool 0).1
allocate-Reserves_example = allocate-Reserves pool 0 pool-IsPool

allocate-release_example :
    (is_used 12 (release pool 11).used ≡ (if 11 == 12 then false else is_used 12 pool.used))
    × ((allocate (release pool 11) 11).1 ≡ ok 11)
unfolding new_port_allocator
allocate-release_example =
    allocate-release pool 11 12 pool-IsPool (omega arith) (omega arith) (omega arith)

abbrev full_pool : PortAllocator
full_pool = record { start = 10; end = 11; used = 11 ∷ 10 ∷ []; next = 10 }

full_pool-IsPool : IsPool full_pool
unfolding is_used
full_pool-IsPool = record {
  low = omega arith;
  high = omega arith;
  width = omega arith;
  within = ((omega arith, omega arith), ((omega arith, omega arith), tt));
  distinct = (refl, (refl, tt));
}

full_pool-fails : (allocate full_pool 0).1 ≡ err no_free_ports
unfolding allocate scan advance is_used
full_pool-fails = refl

allocate_any_full_example : is_used 11 full_pool.used ≡ true
allocate_any_full_example =
    allocate_any_full full_pool no_free_ports 11 full_pool-IsPool full_pool-fails (omega arith)
      (omega arith)

register-Registers_example :
    Registers new_registry
      (register new_registry (b'a' ∷ []) 3 (some (5 ∷ []))).0
      (b'a' ∷ [])
      3
      (some (5 ∷ []))
      (register new_registry (b'a' ∷ []) 3 (some (5 ∷ []))).1
register-Registers_example = register-Registers new_registry (b'a' ∷ []) 3 (some (5 ∷ []))

-- A net in which no text is an address; the hash of a password is the password.
abbrev no_net : Net
no_net = record {
  Ip = ℕ;
  IpNet = ℕ;
  parse_ip = λ s. none;
  is_v4 = λ ip. true;
  parse_cidr = λ s. none;
  contains = λ cidr ip. cidr == ip;
  split_host_port = λ s. none;
  sha256 = λ s. s;
}

abbrev one_hop : Protector no_net
one_hop = record { user = b'u' ∷ []; pass_hash = b'p' ∷ []; allow_list = []; trusted_hops = pos 1 }

abbrev spoofing : Request
spoofing = record {
  remote_addr = b'r' ∷ [];
  forwarded_for = (b'9' ∷ []) ∷ (b'8' ∷ b',' ∷ 32 ∷ b'4' ∷ []) ∷ [];
  basic = some (b'u' ∷ [], b'q' ∷ []);
}

client_ip-appended_example : client_ip no_net one_hop spoofing ≡ b'4' ∷ []
unfolding contains_byte trim_space trim_with space_width last_space_width bytes_eq
client_ip-appended_example =
    client_ip-appended no_net one_hop spoofing ((b'9' ∷ []) ∷ []) (b'8' ∷ []) (b'4' ∷ []) []
      (record { no_comma = refl; trimmed = refl; not_empty = refl }, tt) refl refl

one_hop-made : new_protector no_net (b'u' ∷ b':' ∷ b'p' ∷ []) [] (pos 1) ≡ ok one_hop
unfolding new_protector
one_hop-made = refl

allow-new_protector_example : allow no_net (some one_hop) spoofing ≡ (
    if bytes_eq (b'u' ∷ []) (b'u' ∷ []) && bytes_eq (b'q' ∷ []) (b'p' ∷ [])
    then allowed
    else unauthorized)
unfolding bytes_eq contains_byte
allow-new_protector_example =
    allow-new_protector no_net (b'u' ∷ []) (b'p' ∷ []) 1 one_hop spoofing refl refl one_hop-made

abbrev host : List ℕ
host = b'a' ∷ b'.' ∷ b'd' ∷ b':' ∷ b'8' ∷ []

abbrev base : List ℕ
base = b'd' ∷ []

host-found : extract_subdomain host base ≡ b'a' ∷ []
unfolding extract_subdomain
host-found = refl

extract_subdomain-Names_example : Names host base (extract_subdomain host base)
extract_subdomain-Names_example = extract_subdomain-Names host base (λ e. cc (e, host-found))

newer_versions : newer (b'v' ∷ b'9' ∷ []) (b'v' ∷ b'1' ∷ b'0' ∷ []) ≡ true
unfolding newer
newer_versions = refl

newer-asymmetric_example : newer (b'v' ∷ b'1' ∷ b'0' ∷ []) (b'v' ∷ b'9' ∷ []) ≡ false
newer-asymmetric_example =
    newer-asymmetric (b'v' ∷ b'9' ∷ []) (b'v' ∷ b'1' ∷ b'0' ∷ []) newer_versions

abbrev pub client : Client.Tunnel
client = record {
  forwards = record { tunnel_id = 4; port = 80; url = [] } ∷ [];
  add_ch = none;
  add_port = 0;
  del_ch = none;
  del_id = 0;
  next_channel = 0;
  results = [];
  del_results = [];
  sent = [];
  relays = [];
  relay_store = [];
  body_streams = [];
  body_store = [];
  resp_cancels = [];
  cancelled = [];
  local_requests = 0;
  relay_count = 0;
  done = false;
}

abbrev registered : List ℕ
registered = 1 ∷ b'u' ∷ 0 ∷ 0 ∷ 0 ∷ 0 ∷ 0 ∷ 0 ∷ 0 ∷ 7 ∷ []

registered-decodes : decode_register_ok registered ≡ ok (b'u' ∷ [], 7)
unfolding decode_register_ok get_be
registered-decodes = refl

sent_register : encode_register 81 [] ≡ ok (0 ∷ 81 ∷ [])
unfolding encode_register put_be
sent_register = refl

removed-added_example :
    (port_for (added client 81 [] registered (0 ∷ 81 ∷ []) (b'u' ∷ []) 7) 7 ≡ some 81)
    × ((removed client 81 [] registered (0 ∷ 81 ∷ []) (b'u' ∷ []) 7).forwards ≡ client.forwards)
unfolding id_of_port find_port
removed-added_example =
    removed-added client 81 [] registered (0 ∷ 81 ∷ []) (b'u' ∷ []) 7
      (record { no_add = refl; no_del = refl }) sent_register registered-decodes refl refl

-- The header X: a CR b, and the header Y: c.
abbrev split_headers : Headers
split_headers = (b'X' ∷ [], (b'a' ∷ 13 ∷ 10 ∷ b'b' ∷ []) ∷ []) ∷ (b'Y' ∷ [], (b'c' ∷ []) ∷ []) ∷ []

abbrev log_header : List (List ℕ × List ℕ) → List ℕ → List ℕ → List (List ℕ × List ℕ)
log_header w k v = (k, v) ∷ w

abbrev AllOneLine : List (List ℕ × List ℕ) → Type 0
AllOneLine = All (λ e. IsOneLine e.0 × IsOneLine e.1)

copy_valid_headers-IsOneLine_example : AllOneLine (copy_valid_headers log_header [] split_headers)
copy_valid_headers-IsOneLine_example =
    copy_valid_headers-IsOneLine AllOneLine log_header (λ w k v lk lv p. ((lk, lv), p))
      split_headers [] tt
