-- ===== src/Client/Dashboard/Guard.antt =====
-- Who reaches the inspector.
use vlgr.Prelude.{◌≡◌, true, ◌||◌, [], some, bytes_eq}
use vlgr.Prelude.Bytes.{codes}
use vlgr.Client.Dashboard.{Net, Call}

-- A method that changes nothing, no origin, or an origin with the host that the request names.
pub data IsHarmless (net : Net) (r : Call) : Type 0 where
  reads :
      (bytes_eq r.method (codes "GET") || bytes_eq r.method (codes "HEAD")) ≡ true
      → IsHarmless net r
  no_origin : r.origin ≡ [] → IsHarmless net r
  same_origin : net.url_host r.origin ≡ some r.host → IsHarmless net r
