-- ===== src/Server/Registry.antt =====
-- internal/server/registry.go: the tunnels by subdomain.
-- A handler is named by a number in place of its pointer. The eight random bytes that
-- crypto/rand yields, or its failure, are an argument.
pub mod Laws
use vlgr.Prelude.{ℕ, List, [], ◌∷◌, map, Option, none, some}
use vlgr.Prelude.Assoc.{bytes_key, lookup, insert, erase}
use vlgr.Prelude.Bytes.{get_be}
use vlgr.Prelude.Outcome.{Outcome, ok, err}

pub record Tunnel : Type 0 where
  pub id : ℕ
  pub subdomain : List ℕ
  pub handler : ℕ

abbrev pub Registry : Type 0
Registry = List (List ℕ × Tunnel)

pub data Error : Type 0 where
  already_taken rand_failed : Error

unfoldable pub new_registry : Registry
new_registry = []

-- `idBytes` is read after the test for the name, so a failure of the generator changes nothing.
unfoldable pub register : Registry → List ℕ → ℕ → Option (List ℕ) → Registry × Outcome Error Tunnel
unfolding lookup insert
register r subdomain handler random = elim (lookup subdomain r) [
  | some t ↦ (r, err already_taken)
  | none ↦ elim random [
    | none ↦ (r, err rand_failed)
    | some id_bytes ↦
        let t : Tunnel = record {
          id = get_be 0 id_bytes;
          subdomain = subdomain;
          handler = handler;
        } in
        (insert subdomain t r, ok t)
  ]
]

unfoldable pub unregister : Registry → List ℕ → Registry
unfolding erase
unregister r subdomain = erase subdomain r

unfoldable pub get : Registry → List ℕ → Option Tunnel
unfolding lookup
get r subdomain = lookup subdomain r

pub record TunnelInfo : Type 0 where
  pub id : ℕ
  pub subdomain : List ℕ

unfoldable pub snapshot : Registry → List TunnelInfo
snapshot = map (λ e. record { id = e.1.id; subdomain = e.1.subdomain })
