-- ===== src/Server/Handler/Ownership.antt =====
-- The tunnels of a client connection against the registry that they are in.
pub mod Moves
pub mod Ends
use vlgr.Prelude.{
  ℕ, ◌≡◌, ◌≢◌, refl, Bool, true, false, ◌||◌, List, [], ◌∷◌, Option, none, some, arith, bytes_eq,
  bytes_eq_iff, bytes_eq_refl, Bool-cases, inl, inr, if◌then◌else◌,
}
use vlgr.Prelude.Assoc.{nat_key, bytes_key, lookup, insert, erase, lookup-erase, IsMap}
use vlgr.Prelude.Bytes.{get_be}
use vlgr.Server.Registry.{Tunnel, Registry, unregister}
use vlgr.Server.Registry.Laws.{Owns, Owns-add, Owns-remove, Owns-add_ne, Owns-remove_ne}
use vlgr.Server.Handler.State.{World, Env}
use vlgr.Server.Handler.Cleanup.{unregister_all}
use mathlib.Core.Option

-- Whether one of the tunnels has the name.
abbrev pub names : List ℕ → List (ℕ × Tunnel) → Bool
names s [] = false
names s ((id, t) ∷ ts) = bytes_eq t.subdomain s || names s ts

pub lookup-unregister_all :
    (s : List ℕ) (ts : List (ℕ × Tunnel)) (r : Registry)
    → lookup s (unregister_all ts r) ≡ (if names s ts then none else lookup s r)
unfolding unregister_all unregister
lookup-unregister_all s [] r = refl
lookup-unregister_all s ((id, t) ∷ ts) r =
    ground (arith, lookup-unregister_all s ts (erase t.subdomain r), lookup-erase t.subdomain s r)

names_of_lookup :
    (id : ℕ) (t : Tunnel) (ts : List (ℕ × Tunnel))
    → lookup id ts ≡ some t
    → names t.subdomain ts ≡ true
unfolding lookup
names_of_lookup id t [] h = cc
names_of_lookup id t ((j, u) ∷ ts) h =
    ground (arith, names_of_lookup id t ts, bytes_eq_refl t.subdomain)

lookup_of_names :
    (s : List ℕ) (ts : List (ℕ × Tunnel))
    → IsMap ts
    → names s ts ≡ true
    → (id : ℕ) × (t : Tunnel) × (lookup id ts ≡ some t) × (t.subdomain ≡ s)
unfolding lookup
lookup_of_names s [] m h = absurd (cc h)
lookup_of_names s ((j, u) ∷ ts) m h = elim (Bool-cases (bytes_eq u.subdomain s)) [
  | inl e ↦ (j, u, ground arith, (bytes_eq_iff u.subdomain s).0 e)
  | inr e ↦
      let (id, t, there, same) = lookup_of_names s ts m.1 (rw e at h) in
      (id, t, ground (arith, m.0), same)
]

-- After the removal of all its tunnels a handler has no entry left.
pub unregister_all-none :
    (me : ℕ) (ts : List (ℕ × Tunnel)) (r : Registry) (s : List ℕ) (t : Tunnel)
    → Owns me ts r
    → lookup s (unregister_all ts r) ≡ some t
    → t.handler ≢ me
unregister_all-none me ts r s t o h mine =
    ground (arith, lookup-unregister_all s ts r, o.known s t, names_of_lookup t.id t ts)

-- The entries of the other handlers stay.
pub unregister_all-others :
    (me : ℕ) (ts : List (ℕ × Tunnel)) (r : Registry) (s : List ℕ) (t : Tunnel)
    → Owns me ts r
    → lookup s r ≡ some t
    → t.handler ≢ me
    → lookup s (unregister_all ts r) ≡ some t
unregister_all-others me ts r s t o h other = elim (Bool-cases (names s ts)) [
  | inl e ↦
      let (id, u, there, same) = lookup_of_names s ts o.keys e in
      let (entry, mine, _) = o.held id u there in
      let twice : lookup s r ≡ some u = rw (← same) entry in absurd (other (ground (arith, twice)))
  | inr e ↦ rw (lookup-unregister_all s ts r, e) h
]

pub Owns-unregister_all :
    {me you : ℕ} {ms ts : List (ℕ × Tunnel)} {r : Registry}
    → Owns me ms r
    → Owns you ts r
    → me ≢ you
    → Owns you ts (unregister_all ms r)
Owns-unregister_all {me} {you} {ms} {ts} {r} m o ne = record {
  keys = o.keys;
  held = λ id t h.
      let (entry, mine, same) = o.held id t h in
      (unregister_all-others me ms r t.subdomain t m entry (λ e. ne (cc)), mine, same);
  known = λ s t h mine. ground (arith, lookup-unregister_all s ms r, o.known s t);
}
