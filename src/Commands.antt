-- ===== src/Commands.antt =====
-- cmd/client/main.go, cmd/server/main.go and internal/client/tray.go: what the flags say.
-- strconv.Atoi, the regular expression of the server address and net.SplitHostPort are parameters. A
-- flag that is set is its name.
pub mod Ports
pub mod Reconnect
use vlgr.Prelude.{
  ℕ, zero, suc, ◌+◌, ◌*◌, ◌≤◌, Bool, true, false, not, ◌&&◌, ◌||◌, List, [], ◌∷◌, ◌++◌, Option,
  none, some, length, ltb, ◌==◌, bytes_eq, if◌then◌else◌,
}
use vlgr.Prelude.Bytes.{codes}
use vlgr.Prelude.Int.{ℤ, pos, negsuc}
use vlgr.Prelude.Outcome.{Outcome, ok, err}
use vlgr.Prelude.Text.{split, trim_space, before_byte, contains_byte}
use vlgr.Server.Protect.{after_byte}
use vlgr.Client.Session.{TcpForward, TlsForward}

pub data Error : Type 0 where
  not_a_number out_of_range bad_local_port bad_remote_port : Error
  empty_address bad_address bad_address_port : Error
  bad_range bad_start bad_end reversed_range : Error
  combined_with_others both_add_and_del subdomain_count : Error

module _ (atoi : List ℕ → Option ℤ) where
  -- `1 <= p && p <= 65535`, as a number.
  unfoldable pub port_number : List ℕ → Option ℕ
  port_number s = elim (atoi s) [
    | none ↦ none
    | some n ↦ elim n [
      | negsuc m ↦ none
      | pos zero ↦ none
      | pos (suc m) ↦ if ltb 65535 (suc m) then none else some (suc m)
    ]
  ]

  -- parsePort of the tray.
  unfoldable pub parse_port : List ℕ → Outcome Error ℕ
  unfolding port_number
  parse_port s = elim (port_number s) [ none ↦ err out_of_range | some p ↦ ok p ]

  -- The loop of parsePorts.
  unfoldable pub ports_of_parts : List (List ℕ) → Outcome Error (List ℕ)
  unfolding port_number trim_space bytes_eq
  ports_of_parts [] = ok []
  ports_of_parts (part ∷ parts) =
      let rest = ports_of_parts parts in
      if bytes_eq (trim_space part) [] then rest else elim (atoi (trim_space part)) [
        | none ↦ err not_a_number
        | some n ↦ elim (port_number (trim_space part)) [
          | none ↦ err out_of_range
          | some p ↦ elim rest [ err e ↦ err e | ok ps ↦ ok (p ∷ ps) ]
        ]
      ]

  unfoldable pub parse_ports : List ℕ → Outcome Error (List ℕ)
  unfolding ports_of_parts split
  parse_ports s = ports_of_parts (split b',' s)

  -- A remote port may be 0, and is 0 where there is no colon.
  unfoldable pub remote_port : List ℕ → Option ℕ
  unfolding contains_byte after_byte trim_space
  remote_port part =
      if not (contains_byte b':' part)
      then some 0
      else elim (atoi (trim_space (after_byte b':' part))) [
        | none ↦ none
        | some n ↦ elim n [ negsuc m ↦ none | pos m ↦ if ltb 65535 m then none else some m ]
      ]

  unfoldable pub tcp_of_parts : List (List ℕ) → Outcome Error (List TcpForward)
  unfolding port_number remote_port trim_space before_byte bytes_eq
  tcp_of_parts [] = ok []
  tcp_of_parts (raw ∷ parts) =
      let rest = tcp_of_parts parts in
      let part = trim_space raw in
      if bytes_eq part [] then rest else elim (port_number (trim_space (before_byte b':' part))) [
        | none ↦ err bad_local_port
        | some local ↦ elim (remote_port part) [
          | none ↦ err bad_remote_port
          | some remote ↦ elim rest [
            | err e ↦ err e
            | ok fs ↦ ok (record { local_port = local; remote_port = remote } ∷ fs)
          ]
        ]
      ]

  unfoldable pub parse_tcp_forwards : List ℕ → Outcome Error (List TcpForward)
  unfolding tcp_of_parts split
  parse_tcp_forwards s = tcp_of_parts (split b',' s)

  unfoldable pub tls_of_parts : List (List ℕ) → Outcome Error (List TlsForward)
  unfolding port_number trim_space before_byte after_byte bytes_eq
  tls_of_parts [] = ok []
  tls_of_parts (raw ∷ parts) =
      let rest = tls_of_parts parts in
      let part = trim_space raw in
      if bytes_eq part [] then rest else elim (port_number (trim_space (before_byte b':' part))) [
        | none ↦ err bad_local_port
        | some local ↦ elim rest [
          | err e ↦ err e
          | ok fs ↦
              ok (record { local_port = local; subdomain = trim_space (after_byte b':' part) } ∷ fs)
        ]
      ]

  unfoldable pub parse_tls_forwards : List ℕ → Outcome Error (List TlsForward)
  unfolding tls_of_parts split
  parse_tls_forwards s = tls_of_parts (split b',' s)

  unfoldable pub validate_server_addr : (List ℕ → Bool) → List ℕ → Option Error
  unfolding port_number after_byte bytes_eq
  validate_server_addr matches s =
      if bytes_eq s []
      then some empty_address
      else if not (matches s)
      then some bad_address
      else elim (port_number (after_byte b':' s)) [ none ↦ some bad_address_port | some p ↦ none ]

  -- strings.SplitN(s, "-", 2) has two parts where there is a dash.
  unfoldable pub parse_port_range : List ℕ → Outcome Error (ℕ × ℕ)
  unfolding port_number contains_byte before_byte after_byte trim_space
  parse_port_range s =
      if not (contains_byte b'-' s)
      then err bad_range
      else elim (port_number (trim_space (before_byte b'-' s))) [
        | none ↦ err bad_start
        | some start ↦ elim (port_number (trim_space (after_byte b'-' s))) [
          | none ↦ err bad_end
          | some end ↦ if ltb end start then err reversed_range else ok (start, end)
        ]
      ]

abbrev is_set : List ℕ → List (List ℕ) → Bool
is_set name [] = false
is_set name (f ∷ fs) = bytes_eq f name || is_set name fs

abbrev others_set : List (List ℕ) → Bool
others_set [] = false
others_set (f ∷ fs) =
    (not (bytes_eq f (codes "add")) && not (bytes_eq f (codes "del"))) || others_set fs

-- `none` where it returns; the log.Fatal otherwise.
unfoldable pub check_exclusive_flags : List (List ℕ) → Option Error
unfolding bytes_eq
check_exclusive_flags visited =
    if not (is_set (codes "add") visited) && not (is_set (codes "del") visited)
    then none
    else if others_set visited
    then some combined_with_others
    else if is_set (codes "add") visited && is_set (codes "del") visited
    then some both_add_and_del
    else none

-- The subdomains that main takes from their flag, and its test of their number.
unfoldable pub non_empty_parts : List (List ℕ) → List (List ℕ)
unfolding trim_space bytes_eq
non_empty_parts [] = []
non_empty_parts (raw ∷ parts) =
    let rest = non_empty_parts parts in
    if bytes_eq (trim_space raw) [] then rest else trim_space raw ∷ rest

unfoldable pub parse_subdomains : List ℕ → List (List ℕ)
unfolding non_empty_parts split bytes_eq
parse_subdomains s = if bytes_eq s [] then [] else non_empty_parts (split b',' s)

unfoldable pub check_subdomains : List (List ℕ) → List ℕ → Option Error
check_subdomains subs ports =
    if ltb 0 (length subs) && not (length subs == length ports) then some subdomain_count else none

-- The wait of runLoop after one more failure, in seconds.
unfoldable pub next_backoff : ℕ → ℕ
next_backoff backoff = if ltb 30 (backoff * 2) then 30 else backoff * 2

unfoldable pub host_only : (List ℕ → Option (List ℕ)) → List ℕ → List ℕ
host_only split_host_port domain = elim (split_host_port domain) [ none ↦ domain | some h ↦ h ]

-- CheckOrigin of the server's upgrader; `url_host` is what url.Parse finds.
unfoldable pub check_origin : (List ℕ → Option (List ℕ)) → List ℕ → List ℕ → Bool
unfolding bytes_eq
check_origin url_host origin host =
    if bytes_eq origin []
    then true
    else elim (url_host origin) [ none ↦ false | some h ↦ bytes_eq h host ]
