-- ===== src/Server/PortAllocator/Scan.antt =====
-- The scan of Allocate for a free port.
use vlgr.Prelude.{
  ℕ, zero, suc, ◌+◌, ◌-◌, ◌≤◌, ◌<◌, ◌≡◌, ◌⊎◌, refl, ltb, true, false, arith, Bool-cases, inl, inr,
}
use vlgr.Prelude.Outcome.{ok, err}
use vlgr.Server.PortAllocator.{PortAllocator, Error, is_used, advance, scan, allocate}
use vlgr.Server.PortAllocator.Invariant.{IsPool, advance-IsPool}

-- The ports that `n` rounds from `next` visit: up to the end first, then from the start.
abbrev Visits : ℕ → PortAllocator → ℕ → Type 0
Visits n a p =
    ((a.next ≤ p) × (p ≤ a.end) × (p < a.next + n))
    ⊎ ((a.start ≤ p) × (p < a.next) × (p + a.end + 1 < n + a.start + a.next))

Visits-on :
    (n : ℕ) (a : PortAllocator) (p : ℕ)
    → IsPool a
    → Visits (suc n) a p
    → (p ≡ a.next) ⊎ Visits n (advance a) p
unfolding advance
Visits-on n a p h v = ground arith

scan_failed :
    (n : ℕ) (a : PortAllocator) (e : Error) (p : ℕ)
    → IsPool a
    → (scan n a).1 ≡ err e
    → Visits n a p
    → is_used p a.used ≡ true
unfolding scan
scan_failed zero a e p h f v = absurd (omega arith)
scan_failed (suc n) a e p h f v = elim (Bool-cases (is_used a.next a.used)) [
  | inl old ↦ elim (Visits-on n a p h v) [
    | inl here ↦ rw here old
    | inr later ↦ scan_failed n (advance a) e p (advance-IsPool h) (rw old at f) later
  ]
  | inr new ↦ absurd (cc (rw new at f))
]

scan_found :
    (n : ℕ) (a : PortAllocator) (p : ℕ)
    → IsPool a
    → Visits n a p
    → is_used p a.used ≡ false
    → (q : ℕ) × ((scan n a).1 ≡ ok q)
unfolding scan
scan_found zero a p h v free = absurd (omega arith)
scan_found (suc n) a p h v free = elim (Bool-cases (is_used a.next a.used)) [
  | inl old ↦ elim (Visits-on n a p h v) [
    | inl here ↦ absurd (cc (rw here at free))
    | inr later ↦ rw old (scan_found n (advance a) p (advance-IsPool h) later free)
  ]
  | inr new ↦ rw new (a.next, refl)
]

visited :
    {a : PortAllocator} (p : ℕ)
    → IsPool a
    → a.start ≤ p
    → p ≤ a.end
    → Visits (a.end + 1 - a.start) a p
visited {a} p h lo hi = elim (Bool-cases (ltb p a.next)) [
  | inl behind ↦ inr (ground arith)
  | inr ahead ↦ inl (ground arith)
]

-- When asking for any port fails, every port of the range is held.
pub allocate_any_full :
    (a : PortAllocator) (e : Error) (p : ℕ)
    → IsPool a
    → (allocate a 0).1 ≡ err e
    → a.start ≤ p
    → p ≤ a.end
    → is_used p a.used ≡ true
unfolding allocate
allocate_any_full a e p h f lo hi = scan_failed (a.end + 1 - a.start) a e p h f (visited p h lo hi)

-- One free port in the range, wherever `next` stands, is enough for asking for any port to
-- succeed.
pub allocate_any_free :
    (a : PortAllocator) (p : ℕ)
    → IsPool a
    → a.start ≤ p
    → p ≤ a.end
    → is_used p a.used ≡ false
    → (q : ℕ) × ((allocate a 0).1 ≡ ok q)
unfolding allocate
allocate_any_free a p h lo hi free = scan_found (a.end + 1 - a.start) a p h (visited p h lo hi) free
