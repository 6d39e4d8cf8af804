-- ===== src/Commands/Ports.antt =====
-- The ports that the flags give.
use vlgr.Prelude.{
  ℕ, ◌≤◌, ◌≡◌, List, [], ◌∷◌, Option, some, arith, All, bytes_eq, Option-cases, Bool-cases, inl,
  inr,
}
use vlgr.Prelude.Int.{ℤ}
use vlgr.Prelude.Outcome.{ok, Outcome-cases}
use vlgr.Prelude.Text.{split, trim_space, before_byte}
use vlgr.Server.Protect.{after_byte}
use vlgr.Client.Session.{TcpForward}
use vlgr.Server.PortAllocator.{new_port_allocator}
use vlgr.Server.PortAllocator.Invariant.{IsPool, new_port_allocator-IsPool}
use vlgr.Commands.{
  port_number, ports_of_parts, parse_ports, remote_port, tcp_of_parts, parse_tcp_forwards,
  parse_port_range,
}

abbrev IsPort : ℕ → Type 0
IsPort p = (1 ≤ p) × (p ≤ 65535)

abbrev IsTcpForward : TcpForward → Type 0
IsTcpForward f = IsPort f.local_port × (f.remote_port ≤ 65535)

module _ (atoi : List ℕ → Option ℤ) where
  port_number-IsPort : (s : List ℕ) (p : ℕ) → port_number atoi s ≡ some p → IsPort p
  unfolding port_number
  port_number-IsPort s p h = ground (arith, h)

  remote_port-small : (part : List ℕ) (p : ℕ) → remote_port atoi part ≡ some p → p ≤ 65535
  unfolding remote_port
  remote_port-small part p h = ground (arith, h)

  ports_of_parts-IsPort :
      (parts : List (List ℕ)) (ps : List ℕ) → ports_of_parts atoi parts ≡ ok ps → All IsPort ps
  unfolding ports_of_parts
  ports_of_parts-IsPort [] [] h = tt
  ports_of_parts-IsPort [] (p ∷ ps) h = absurd (cc (h))
  ports_of_parts-IsPort (part ∷ parts) ps h = elim (Bool-cases (bytes_eq (trim_space part) [])) [
    | inl e ↦ ports_of_parts-IsPort parts ps (rw (e, ports_of_parts) at h)
    | inr e ↦ elim (Option-cases (atoi (trim_space part))) [
      | inl a ↦ absurd (ground (arith, h, e, a))
      | inr (n, a) ↦ elim (Option-cases (port_number atoi (trim_space part))) [
        | inl b ↦ absurd (ground (arith, h, e, a, b))
        | inr (p, b) ↦ elim (Outcome-cases (ports_of_parts atoi parts)) [
          | inr (why, c) ↦ absurd (ground (arith, h, e, a, b, c))
          | inl (qs, c) ↦
              let same : p ∷ qs ≡ ps = ground (arith, h, e, a, b, c) in
              rw (← same)
                (port_number-IsPort (trim_space part) p b, ports_of_parts-IsPort parts qs c)
        ]
      ]
    ]
  ]

  tcp_of_parts-IsTcpForward :
      (parts : List (List ℕ)) (fs : List TcpForward)
      → tcp_of_parts atoi parts ≡ ok fs
      → All IsTcpForward fs
  unfolding tcp_of_parts
  tcp_of_parts-IsTcpForward [] [] h = tt
  tcp_of_parts-IsTcpForward [] (f ∷ fs) h = absurd (cc (h))
  tcp_of_parts-IsTcpForward (part ∷ parts) fs h =
      elim (Bool-cases (bytes_eq (trim_space part) [])) [
        | inl e ↦ tcp_of_parts-IsTcpForward parts fs (rw (e, tcp_of_parts) at h)
        | inr e ↦
            elim (Option-cases
              (port_number atoi (trim_space (before_byte b':' (trim_space part))))) [
                | inl a ↦ absurd (ground (arith, h, e, a))
                | inr (local, a) ↦ elim (Option-cases (remote_port atoi (trim_space part))) [
                  | inl b ↦ absurd (ground (arith, h, e, a, b))
                  | inr (remote, b) ↦ elim (Outcome-cases (tcp_of_parts atoi parts)) [
                    | inr (why, c) ↦ absurd (ground (arith, h, e, a, b, c))
                    | inl (gs, c) ↦
                        let same : record { local_port = local; remote_port = remote } ∷ gs ≡ fs =
                          ground (arith, h, e, a, b, c) in
                        rw (← same) (
                          (
                            port_number-IsPort _ local a,
                            remote_port-small (trim_space part) remote b,
                          ),
                          tcp_of_parts-IsTcpForward parts gs c,
                        )
                  ]
                ]
              ]
      ]

-- Every port that is accepted on the command line, of the HTTP and of the TCP forwards, can be a local
-- port: it is between 1 and 65535, so that no uint16 is cut; a remote port is at most 65535.
parse_ports-IsPort :
    (atoi : List ℕ → Option ℤ) (s t : List ℕ) (ps : List ℕ) (fs : List TcpForward)
    → parse_ports atoi s ≡ ok ps
    → parse_tcp_forwards atoi t ≡ ok fs
    → All IsPort ps × All IsTcpForward fs
unfolding parse_ports parse_tcp_forwards
parse_ports-IsPort atoi s t ps fs h h' = (
  ports_of_parts-IsPort atoi (split b',' s) ps h,
  tcp_of_parts-IsTcpForward atoi (split b',' t) fs h',
)

module _ (atoi : List ℕ → Option ℤ) where
  -- A range of ports that is accepted is one that the allocator of the server is well formed with.
  parse_port_range-IsPool :
      (s : List ℕ) (start end : ℕ)
      → parse_port_range atoi s ≡ ok (start, end)
      → IsPool (new_port_allocator start end)
  unfolding parse_port_range
  parse_port_range-IsPool s start end h =
      elim (Option-cases (port_number atoi (trim_space (before_byte b'-' s)))) [
        | inl e ↦ absurd (ground (arith, h, e))
        | inr (a, e) ↦ elim (Option-cases (port_number atoi (trim_space (after_byte b'-' s)))) [
          | inl e' ↦ absurd (ground (arith, h, e, e'))
          | inr (b, e') ↦
              let first = port_number-IsPort atoi _ a e in
              let last = port_number-IsPort atoi _ b e' in
              let same : a ≡ start = ground (arith, h, e, e') in
              let same' : b ≡ end = ground (arith, h, e, e') in
              new_port_allocator-IsPool start end (ground (arith, h, e, e'))
                (omega (arith, last, same'))
        ]
      ]
