-- ===== src/Server/Proxy/Serving/Recognised.antt =====
-- Upgrades as the two ends see them: isWebSocketUpgrade of the proxy on the request that came, and
-- IsWebSocketUpgradeReq of the client on the request that was forwarded.
use vlgr.Prelude.{
  ℕ, ◌≡◌, refl, ◌∙◌, Bool, false, List, [], ◌∷◌, Option, none, some, List-cases, inl, inr, bytes_eq,
}
use vlgr.Prelude.Assoc.{bytes_key, lookup, insert, IsMap, insert-IsMap, All-insert}
use vlgr.Prelude.Bytes.{codes}
use vlgr.Prelude.Text.{equal_fold, fold_letters, lower}
use vlgr.Protocol.{Headers}
use vlgr.Protocol.Upgrade.{is_websocket_upgrade, is_websocket_upgrade_req}
use vlgr.Protocol.Upgrade.Laws.{IsCanonical, is_websocket_upgrade_req-eq-is_websocket_upgrade}
use vlgr.Server.Proxy.Serving.{InRequest, header_values, with_proto, with_peer, forwarded_headers}
use vlgr.Server.Proxy.Serving.Injected.{is_added, lookup-forwarded_headers}

-- A map whose keys are canonical.
record IsHeader (h : Headers) : Type 0 where
  canonical : IsCanonical h
  map : IsMap h

insert-IsHeader :
    (key : List ℕ) (vs : List (List ℕ)) (h : Headers)
    → equal_fold key (codes "Upgrade") ≡ bytes_eq key (codes "Upgrade")
    → IsHeader h
    → IsHeader (insert key vs h)
insert-IsHeader key vs h e i = record {
  canonical = All-insert _ key vs h e i.canonical;
  map = insert-IsMap key vs h i.map;
}

names_canonical :
    (equal_fold (codes "Host") (codes "Upgrade") ≡ bytes_eq (codes "Host") (codes "Upgrade"))
    × (equal_fold (codes "X-Forwarded-Host") (codes "Upgrade")
        ≡ bytes_eq (codes "X-Forwarded-Host") (codes "Upgrade"))
    × (equal_fold (codes "X-Forwarded-Proto") (codes "Upgrade")
        ≡ bytes_eq (codes "X-Forwarded-Proto") (codes "Upgrade"))
    × (equal_fold (codes "X-Forwarded-For") (codes "Upgrade")
        ≡ bytes_eq (codes "X-Forwarded-For") (codes "Upgrade"))
unfolding equal_fold bytes_eq fold_letters lower
names_canonical = (refl, refl, refl, refl)

with_proto-IsHeader : (has_tls : Bool) (h : Headers) → IsHeader h → IsHeader (with_proto has_tls h)
unfolding with_proto
with_proto-IsHeader has_tls h i = elim (List-cases (header_values (codes "X-Forwarded-Proto") h)) [
  | inl e ↦ rw (e, with_proto) (insert-IsHeader _ _ h names_canonical.2 i)
  | inr (v, vs, e) ↦ rw (e, with_proto) i
]

with_peer-IsHeader :
    (peer : Option (List ℕ)) (h : Headers) → IsHeader h → IsHeader (with_peer peer h)
unfolding with_peer
with_peer-IsHeader none h i = i
with_peer-IsHeader (some peer) h i = insert-IsHeader _ _ h names_canonical.3 i

forwarded_headers-IsHeader :
    (r : InRequest) (peer : Option (List ℕ))
    → IsHeader r.header
    → IsHeader (forwarded_headers r peer)
unfolding forwarded_headers
forwarded_headers-IsHeader r peer i = with_peer-IsHeader peer _ (
    with_proto-IsHeader r.has_tls _ (
      insert-IsHeader (codes "X-Forwarded-Host") (r.host ∷ []) _ names_canonical.1
        (insert-IsHeader (codes "Host") (r.host ∷ []) r.header names_canonical.0 i)))

same_test :
    (h h' : Headers)
    → lookup (codes "Upgrade") h ≡ lookup (codes "Upgrade") h'
    → is_websocket_upgrade h ≡ is_websocket_upgrade h'
unfolding is_websocket_upgrade
same_test h h' e = rw (e, is_websocket_upgrade) refl

upgrade_is_other : is_added (codes "Upgrade") ≡ false
unfolding bytes_eq
upgrade_is_other = refl

-- Where the request comes with canonical keys, each at most once, the client's test on the headers
-- that the proxy forwards agrees with the server's test on the headers that came: both ends see an
-- upgrade, or neither does.
pub is_websocket_upgrade_req-forwarded_headers :
    (r : InRequest) (peer : Option (List ℕ))
    → IsCanonical r.header
    → IsMap r.header
    → is_websocket_upgrade_req (forwarded_headers r peer) ≡ is_websocket_upgrade r.header
is_websocket_upgrade_req-forwarded_headers r peer canonical map =
    let i = forwarded_headers-IsHeader r peer (record { canonical = canonical; map = map }) in
    is_websocket_upgrade_req-eq-is_websocket_upgrade (forwarded_headers r peer) i.canonical i.map
    ∙ same_test (forwarded_headers r peer) r.header
        (lookup-forwarded_headers r peer (codes "Upgrade") upgrade_is_other).4
