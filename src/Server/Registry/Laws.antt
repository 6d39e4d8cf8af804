-- ===== src/Server/Registry/Laws.antt =====
-- Which handler owns which names, and how one registration or removal changes that.
use vlgr.Prelude.{
  ℕ, ◌≡◌, ◌≢◌, refl, List, Option, none, some, arith, bytes_eq, bytes_eq_iff, Option-cases, inl,
  inr, if◌then◌else◌,
}
use vlgr.Prelude.Assoc.{
  nat_key, bytes_key, lookup, insert, erase, lookup-insert, lookup-erase, IsMap, insert-IsMap,
  erase-IsMap,
}
use vlgr.Prelude.Bytes.{get_be}
use vlgr.Prelude.Outcome.{Outcome, ok, err}
use vlgr.Server.Registry.{Tunnel, Registry, Error, already_taken, rand_failed, register, get}

-- The tunnels of the handler `me` and the entries of the registry that name it are the same.
pub record Owns (me : ℕ) (tunnels : List (ℕ × Tunnel)) (r : Registry) : Type 0 where
  pub keys : IsMap tunnels
  pub held :
      (id : ℕ) (t : Tunnel)
      → lookup id tunnels ≡ some t
      → (lookup t.subdomain r ≡ some t) × (t.handler ≡ me) × (t.id ≡ id)
  pub known :
      (s : List ℕ) (t : Tunnel)
      → lookup s r ≡ some t
      → t.handler ≡ me
      → (lookup t.id tunnels ≡ some t) × (t.subdomain ≡ s)

pub Owns-add :
    {me : ℕ} {ts : List (ℕ × Tunnel)} {r : Registry} (t : Tunnel)
    → Owns me ts r
    → t.handler ≡ me
    → lookup t.subdomain r ≡ none
    → lookup t.id ts ≡ none
    → Owns me (insert t.id t ts) (insert t.subdomain t r)
Owns-add {me} {ts} {r} t o mine free fresh = record {
  keys = insert-IsMap t.id t ts o.keys;
  held = λ id u h. ground (
    arith,
    lookup-insert t.id id t ts,
    lookup-insert t.subdomain u.subdomain t r,
    o.held id u,
    bytes_eq_iff t.subdomain u.subdomain,
  );
  known = λ s u h mine'. ground (
    arith,
    lookup-insert t.id u.id t ts,
    lookup-insert t.subdomain s t r,
    o.known s u,
    bytes_eq_iff t.subdomain s,
  );
}

pub Owns-remove :
    {me : ℕ} {ts : List (ℕ × Tunnel)} {r : Registry} (id : ℕ) (t : Tunnel)
    → Owns me ts r
    → lookup id ts ≡ some t
    → Owns me (erase id ts) (erase t.subdomain r)
Owns-remove {me} {ts} {r} id t o there = record {
  keys = erase-IsMap id ts o.keys;
  held = λ j u h. ground (
    arith,
    lookup-erase id j ts,
    lookup-erase t.subdomain u.subdomain r,
    o.held j u,
    o.held id t there,
    bytes_eq_iff t.subdomain u.subdomain,
  );
  known = λ s u h mine. ground (
    arith,
    lookup-erase id u.id ts,
    lookup-erase t.subdomain s r,
    o.known s u,
    o.held id t there,
    bytes_eq_iff t.subdomain s,
  );
}

-- A registration of another handler.
pub Owns-add_ne :
    {you : ℕ} {ts : List (ℕ × Tunnel)} {r : Registry} (t : Tunnel)
    → Owns you ts r
    → t.handler ≢ you
    → lookup t.subdomain r ≡ none
    → Owns you ts (insert t.subdomain t r)
Owns-add_ne {you} {ts} {r} t o other free = record {
  keys = o.keys;
  held = λ id u h. ground (
    arith,
    lookup-insert t.subdomain u.subdomain t r,
    o.held id u,
    bytes_eq_iff t.subdomain u.subdomain,
  );
  known = λ s u h mine.
      ground (arith, lookup-insert t.subdomain s t r, o.known s u, bytes_eq_iff t.subdomain s);
}

pub Owns-remove_ne :
    {me you : ℕ} {ms ts : List (ℕ × Tunnel)} {r : Registry} (id : ℕ) (t : Tunnel)
    → Owns me ms r
    → Owns you ts r
    → me ≢ you
    → lookup id ms ≡ some t
    → Owns you ts (erase t.subdomain r)
Owns-remove_ne {me} {you} {ms} {ts} {r} id t m o ne there = record {
  keys = o.keys;
  held = λ j u h. ground (
    arith,
    lookup-erase t.subdomain u.subdomain r,
    o.held j u,
    m.held id t there,
    bytes_eq_iff t.subdomain u.subdomain,
  );
  known = λ s u h mine.
      ground (arith, lookup-erase t.subdomain s r, o.known s u, bytes_eq_iff t.subdomain s);
}

-- The outcomes of a registration: it fails and changes nothing, or adds one entry under a free
-- name.
pub data Registers (r r' : Registry) (s : List ℕ) (me : ℕ) (random : Option (List ℕ))
    : Outcome Error Tunnel → Type 0 where
  refused : (e : Error) → r' ≡ r → Registers r r' s me random (err e)
  added :
      (t : Tunnel) (b : List ℕ)
      → random ≡ some b
      → t.id ≡ get_be 0 b
      → t.subdomain ≡ s
      → t.handler ≡ me
      → lookup s r ≡ none
      → r' ≡ insert s t r
      → Registers r r' s me random (ok t)

-- A registration fails and leaves the registry as it was, or adds an entry for the handler under a
-- name that nobody had; a name that is taken is never taken over.
pub register-Registers :
    (r : Registry) (s : List ℕ) (me : ℕ) (random : Option (List ℕ))
    → Registers r (register r s me random).0 s me random (register r s me random).1
unfolding register
register-Registers r s me random = elim (Option-cases (lookup s r)) [
  | inr (t, e) ↦ rw (e, register) (refused already_taken refl)
  | inl e ↦ elim (Option-cases random) [
    | inl f ↦ rw (e, f, register) (refused rand_failed refl)
    | inr (b, f) ↦
        rw (e, f, register)
          (added (record { id = get_be 0 b; subdomain = s; handler = me }) b refl refl refl refl e
            refl)
  ]
]

-- What the handler of a name returns for it.
pub get-register :
    (r : Registry) (s : List ℕ) (me : ℕ) (b other : List ℕ)
    → get r s ≡ none
    → get (register r s me (some b)).0 other ≡ (
        if bytes_eq s other
        then some (record { id = get_be 0 b; subdomain = s; handler = me })
        else get r other)
unfolding get register
get-register r s me b other free =
    let t : Tunnel = record { id = get_be 0 b; subdomain = s; handler = me } in
    ground (arith, lookup-insert s other t r)
