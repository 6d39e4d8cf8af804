-- ===== src/Sshtun/Pool.antt =====
-- internal/server/tcp.go behind the interface of internal/sshtun/server.go.
use vlgr.Prelude.{ℕ, ◌≡◌, refl, Bool, false, not, ◌&&◌, ◌||◌, Option, none, some, arith, ◌==◌}
use vlgr.Prelude.Outcome.{Outcome, ok, err}
use vlgr.Server.PortAllocator as Server
use vlgr.Server.PortAllocator.{Error, is_used, allocate, release}
use vlgr.Server.PortAllocator.Invariant.{
  IsPool, Reserves, refused, reserved, allocate-IsPool, release-IsPool, allocate-Reserves,
  is_used-remove_used,
}
use vlgr.Sshtun.{PortAllocator}
use vlgr.Sshtun.Ports.{Laws}

abbrev without_error : Outcome Error ℕ → Option ℕ
without_error (ok p) = some p
without_error (err e) = none

-- Allocate and Release of the server's allocator.
unfoldable pub server_pool : PortAllocator Server.PortAllocator
unfolding allocate release
server_pool = record {
  allocate = λ a p. ((allocate a p).0, without_error (allocate a p).1);
  release = λ a p. release a p;
}

abbrev server_held : Server.PortAllocator → ℕ → Bool
server_held a q = is_used q a.used

pub refuses-held :
    {a a' : Server.PortAllocator} {r : Outcome Error ℕ} (q : ℕ)
    → Reserves a a' r
    → without_error r ≡ none
    → server_held a' q ≡ server_held a q
refuses-held q (refused e same) h = rw same refl
refuses-held q (reserved p lo hi free new) h = absurd (cc (h))

pub grants-held :
    {a a' : Server.PortAllocator} {r : Outcome Error ℕ} (port q : ℕ)
    → Reserves a a' r
    → without_error r ≡ some port
    → (server_held a port ≡ false) × (server_held a' q ≡ (port == q || server_held a q))
unfolding is_used
grants-held port q (refused e same) h = absurd (cc (h))
grants-held port q (reserved p lo hi free new) h =
    let e : p ≡ port = cc (h) in rw (← e) (free, rw new refl)

pub release-held :
    (a : Server.PortAllocator) (p q : ℕ)
    → server_held (release a p) q ≡ (not (p == q) && server_held a q)
unfolding release
release-held a p q = ground (arith, is_used-remove_used p q a.used)

unfoldable pub server_pool_laws : Laws server_pool
unfolding server_pool
server_pool_laws = record {
  Valid = IsPool;
  held = server_held;
  allocate-Valid = λ a p h. allocate-IsPool {a = a} p h;
  release-Valid = λ a p h. release-IsPool {a = a} p h;
  refuses = λ a p q h e. refuses-held q (allocate-Reserves a p h) e;
  grants = λ a p port q h e. grants-held port q (allocate-Reserves a p h) e;
  releases = λ a p q h. release-held a p q;
}
