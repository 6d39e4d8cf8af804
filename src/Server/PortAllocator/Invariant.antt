-- ===== src/Server/PortAllocator/Invariant.antt =====
-- The ports that Allocate hands out and Release takes back.
use vlgr.Prelude.{
  ℕ, zero, suc, ◌+◌, ◌-◌, ◌^◌, ◌≤◌, ◌<◌, ◌≡◌, refl, false, ◌||◌, List, [], ◌∷◌, arith, ltb, ◌==◌,
  if◌then◌else◌, All, Bool-cases, inl, inr,
}
use vlgr.Prelude.Outcome.{Outcome, ok, err}
use vlgr.Server.PortAllocator.{
  PortAllocator, Error, out_of_range, in_use, no_free_ports, new_port_allocator, is_used,
  remove_used, advance, scan, allocate, release,
}

-- No port stands twice.
abbrev pub Distinct : List ℕ → Type 0
Distinct [] = Unit {0}
Distinct (p ∷ ps) = (is_used p ps ≡ false) × Distinct ps

pub record IsPool (a : PortAllocator) : Type 0 where
  pub low : a.start ≤ a.next
  pub high : a.next ≤ a.end
  pub width : a.end < 2 ^ 16
  pub within : All (λ p. (a.start ≤ p) × (p ≤ a.end)) a.used
  pub distinct : Distinct a.used

pub is_used-remove_used :
    (p q : ℕ) (us : List ℕ)
    → is_used q (remove_used p us) ≡ (if p == q then false else is_used q us)
unfolding is_used remove_used
is_used-remove_used p q [] = ground arith
is_used-remove_used p q (u ∷ us) = ground (arith, is_used-remove_used p q us)

All-remove_used : (P : ℕ → Type 0) (p : ℕ) (us : List ℕ) → All P us → All P (remove_used p us)
unfolding remove_used
All-remove_used P p [] h = tt
All-remove_used P p (u ∷ us) h = ground (arith, All-remove_used P p us h.1)

Distinct-remove_used : (p : ℕ) (us : List ℕ) → Distinct us → Distinct (remove_used p us)
unfolding remove_used
Distinct-remove_used p [] h = tt
Distinct-remove_used p (u ∷ us) h =
    ground (arith, is_used-remove_used p u us, Distinct-remove_used p us h.1)

pub new_port_allocator-IsPool :
    (start end : ℕ) → start ≤ end → end < 2 ^ 16 → IsPool (new_port_allocator start end)
unfolding new_port_allocator
new_port_allocator-IsPool start end h w = ground arith

pub advance-IsPool : {a : PortAllocator} → IsPool a → IsPool (advance a)
unfolding advance
advance-IsPool h = ground arith

take-IsPool :
    {a : PortAllocator} (p : ℕ)
    → IsPool a
    → a.start ≤ p
    → p ≤ a.end
    → is_used p a.used ≡ false
    → IsPool (record a { used = p ∷ a.used })
take-IsPool p h lo hi free = record {
  low = h.low;
  high = h.high;
  width = h.width;
  within = ((lo, hi), h.within);
  distinct = (free, h.distinct);
}

-- What a call may do: fail and change no reservation, or reserve one port that was free.
pub data Reserves (a a' : PortAllocator) : Outcome Error ℕ → Type 0 where
  refused : (e : Error) → a'.used ≡ a.used → Reserves a a' (err e)
  reserved :
      (p : ℕ)
      → a.start ≤ p
      → p ≤ a.end
      → is_used p a.used ≡ false
      → a'.used ≡ p ∷ a.used
      → Reserves a a' (ok p)

scan-IsPool : (n : ℕ) (a : PortAllocator) → IsPool a → IsPool (scan n a).0
unfolding scan
scan-IsPool zero a h = h
scan-IsPool (suc n) a h = elim (Bool-cases (is_used a.next a.used)) [
  | inl old ↦ rw old (scan-IsPool n (advance a) (advance-IsPool h))
  | inr new ↦ rw new (take-IsPool {a = advance a} a.next (advance-IsPool h) h.low h.high new)
]

-- A call keeps the pool well formed, whatever port is asked for.
pub allocate-IsPool :
    {a : PortAllocator} (preferred : ℕ) → IsPool a → IsPool (allocate a preferred).0
unfolding allocate
allocate-IsPool {a} zero h = scan-IsPool (a.end + 1 - a.start) a h
allocate-IsPool {a} (suc p) h = ground (arith, take-IsPool {a = a} (suc p) h)

pub release-IsPool : {a : PortAllocator} (port : ℕ) → IsPool a → IsPool (release a port)
unfolding release
release-IsPool {a} port h = record {
  low = h.low;
  high = h.high;
  width = h.width;
  within = All-remove_used (λ p. (a.start ≤ p) × (p ≤ a.end)) port a.used h.within;
  distinct = Distinct-remove_used port a.used h.distinct;
}

Reserves-advance :
    {a a' : PortAllocator} {r : Outcome Error ℕ} → Reserves (advance a) a' r → Reserves a a' r
unfolding advance
Reserves-advance (refused e same) = refused e same
Reserves-advance (reserved p lo hi free new) = reserved p lo hi free new

scan-Reserves : (n : ℕ) (a : PortAllocator) → IsPool a → Reserves a (scan n a).0 (scan n a).1
unfolding scan
scan-Reserves zero a h = refused no_free_ports refl
scan-Reserves (suc n) a h = elim (Bool-cases (is_used a.next a.used)) [
  | inl old ↦ rw old (Reserves-advance (scan-Reserves n (advance a) (advance-IsPool h)))
  | inr new ↦ rw new (reserved a.next h.low h.high new refl)
]

-- A call either fails and changes no reservation, or returns a port in range that nobody held and
-- reserves that port only.
pub allocate-Reserves :
    (a : PortAllocator) (preferred : ℕ)
    → IsPool a
    → Reserves a (allocate a preferred).0 (allocate a preferred).1
unfolding allocate
allocate-Reserves a zero h = scan-Reserves (a.end + 1 - a.start) a h
allocate-Reserves a (suc p) h =
    let set : (suc p == 0) ≡ false = ground arith in
    elim (Bool-cases (ltb (suc p) a.start || ltb a.end (suc p))) [
      | inl out ↦ rw (set, out) (refused out_of_range refl)
      | inr inside ↦ elim (Bool-cases (is_used (suc p) a.used)) [
        | inl old ↦ rw (set, inside, old) (refused in_use refl)
        | inr new ↦ rw (set, inside, new) (reserved (suc p) (ground arith) (ground arith) new refl)
      ]
    ]

-- A released port is free, every other port is held as before, and asking for the released port
-- succeeds.
pub allocate-release :
    (a : PortAllocator) (port q : ℕ)
    → IsPool a
    → 0 < port
    → a.start ≤ port
    → port ≤ a.end
    → (is_used q (release a port).used ≡ (if port == q then false else is_used q a.used))
      × ((allocate (release a port) port).1 ≡ ok port)
unfolding allocate release
allocate-release a port q h pos lo hi =
    (is_used-remove_used port q a.used, ground (arith, is_used-remove_used port port a.used))
