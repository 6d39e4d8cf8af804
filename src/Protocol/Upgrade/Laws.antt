-- ===== src/Protocol/Upgrade/Laws.antt =====
-- The two tests for an upgrade, and how values are cut at commas.
use vlgr.Prelude.{
  ℕ, ◌≡◌, refl, false, ◌||◌, List, [], ◌∷◌, ◌++◌, arith, Bool-cases, All, none, inl, inr, bytes_eq,
  bytes_eq→eq,
}
use vlgr.Prelude.Assoc.{bytes_key, lookup, IsMap}
use vlgr.Prelude.Bytes.{codes}
use vlgr.Prelude.Text.{split, split-join, equal_fold}
use vlgr.Protocol.{Headers}
use vlgr.Protocol.Upgrade.{
  any_websocket, contains_websocket, is_websocket_upgrade, is_websocket_upgrade_req,
}

any_websocket-append :
    (ps qs : List (List ℕ)) → any_websocket (ps ++ qs) ≡ (any_websocket ps || any_websocket qs)
unfolding any_websocket
any_websocket-append [] qs = refl
any_websocket-append (p ∷ ps) qs = ground (arith, any_websocket-append ps qs)

-- Several header lines and one line with the values behind commas are the same.
pub contains_websocket-join :
    (a b : List ℕ) (values : List (List ℕ))
    → contains_websocket ((a ++ b',' ∷ b) ∷ values) ≡ contains_websocket (a ∷ b ∷ values)
unfolding contains_websocket
contains_websocket-join a b values =
    rw (split-join b',' a b, any_websocket-append (split b',' a) (split b',' b)) (ground arith)

-- No key but `Upgrade` itself reads as `upgrade` when case is ignored, which holds of the
-- canonical keys of net/http.
abbrev pub IsCanonical : Headers → Type 0
IsCanonical = All (λ h. equal_fold h.0 (codes "Upgrade") ≡ bytes_eq h.0 (codes "Upgrade"))

req_without_upgrade :
    (h : Headers)
    → IsCanonical h
    → lookup (codes "Upgrade") h ≡ none
    → is_websocket_upgrade_req h ≡ false
unfolding is_websocket_upgrade_req lookup
req_without_upgrade [] c e = refl
req_without_upgrade ((k, vs) ∷ h) c e = elim (Bool-cases (bytes_eq k (codes "Upgrade"))) [
  | inl same ↦ absurd (cc (rw same at e))
  | inr other ↦ rw (c.0, other) (req_without_upgrade h c.1 (rw other at e))
]

-- With canonical keys, each at most once, the client's test on the forwarded headers agrees with
-- the server's test on the request: both ends see an upgrade, or neither does.
pub is_websocket_upgrade_req-eq-is_websocket_upgrade :
    (h : Headers) → IsCanonical h → IsMap h → is_websocket_upgrade_req h ≡ is_websocket_upgrade h
unfolding is_websocket_upgrade is_websocket_upgrade_req lookup
is_websocket_upgrade_req-eq-is_websocket_upgrade [] c m = refl
is_websocket_upgrade_req-eq-is_websocket_upgrade ((k, vs) ∷ h) c m =
    elim (Bool-cases (bytes_eq k (codes "Upgrade"))) [
      | inl same ↦
          rw
            (
              c.0,
              same,
              req_without_upgrade h c.1 (rw (bytes_eq→eq k (codes "Upgrade") same) at m.0),
            )
            (ground arith)
      | inr other ↦
          ground (arith, other, is_websocket_upgrade_req-eq-is_websocket_upgrade h c.1 m.1)
    ]
