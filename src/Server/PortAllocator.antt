-- ===== src/Server/PortAllocator.antt =====
-- internal/server/tcp.go: the pool of public TCP ports.
-- The mutex makes each method one step. A uint16 is a number below 2 ^ 16; `used` holds the keys
-- of the map, whose values are all true.
pub mod Invariant
pub mod Scan
use vlgr.Prelude.{
  ℕ, zero, suc, ◌+◌, ◌-◌, ◌%◌, ◌^◌, Bool, true, false, not, ◌||◌, List, [], ◌∷◌, ltb, ◌==◌,
  if◌then◌else◌,
}
use vlgr.Prelude.Outcome.{Outcome, ok, err}

pub record PortAllocator : Type 0 where
  pub start : ℕ
  pub end : ℕ
  pub used : List ℕ
  pub next : ℕ

pub data Error : Type 0 where
  out_of_range in_use no_free_ports : Error

unfoldable pub new_port_allocator : ℕ → ℕ → PortAllocator
new_port_allocator start end = record { start = start; end = end; used = []; next = start }

-- a.used[p]
unfoldable pub is_used : ℕ → List ℕ → Bool
is_used p [] = false
is_used p (q ∷ qs) = q == p || is_used p qs

-- delete(a.used, p)
unfoldable pub remove_used : ℕ → List ℕ → List ℕ
remove_used p [] = []
remove_used p (q ∷ qs) = let rest = remove_used p qs in if q == p then rest else q ∷ rest

-- the step of `next` in the loop, with uint16 wrap-around
unfoldable pub advance : PortAllocator → PortAllocator
advance a = record a { next = if a.next == a.end then a.start else (a.next + 1) % 2 ^ 16 }

-- the loop: `n` rounds are left
unfoldable pub scan : ℕ → PortAllocator → PortAllocator × Outcome Error ℕ
unfolding is_used advance
scan zero a = (a, err no_free_ports)
scan (suc n) a =
    let rest = scan n (advance a) in
    if is_used a.next a.used
    then rest
    else (record (advance a) { used = a.next ∷ a.used }, ok a.next)

-- `total` is negative or zero, and the loop is not entered, where the range is empty.
unfoldable pub allocate : PortAllocator → ℕ → PortAllocator × Outcome Error ℕ
unfolding scan
allocate a preferred =
    if not (preferred == 0)
    then if ltb preferred a.start || ltb a.end preferred
      then (a, err out_of_range)
      else if is_used preferred a.used
      then (a, err in_use)
      else (record a { used = preferred ∷ a.used }, ok preferred)
    else scan (a.end + 1 - a.start) a

unfoldable pub release : PortAllocator → ℕ → PortAllocator
unfolding remove_used
release a port = record a { used = remove_used port a.used }
