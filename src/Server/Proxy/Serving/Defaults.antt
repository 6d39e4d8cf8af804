-- ===== src/Server/Proxy/Serving/Defaults.antt =====
-- The hardening headers of a response.
use vlgr.Prelude.{ℕ, ◌≡◌, false, List, [], bytes_eq, if◌then◌else◌}
use vlgr.Prelude.Assoc.{bytes_key}
use vlgr.Prelude.Bytes.{codes}
use vlgr.Protocol.{Headers}
use vlgr.Server.Proxy.Serving.{header_get}

-- The value that was there, unless it was empty.
abbrev pub or_default : List ℕ → List ℕ → List ℕ
or_default value there = if bytes_eq there [] then value else there

-- The headers `h` have the two hardening headers, with the value that is given unless that is empty,
-- and every other header as it is given.
abbrev pub IsHardened : Headers → Headers → Type 0
IsHardened given h =
    (header_get (codes "X-Content-Type-Options") h
      ≡ or_default (codes "nosniff") (header_get (codes "X-Content-Type-Options") given))
    × (header_get (codes "X-Frame-Options") h
        ≡ or_default (codes "DENY") (header_get (codes "X-Frame-Options") given))
    × ((other : List ℕ)
        → bytes_eq (codes "X-Content-Type-Options") other ≡ false
        → bytes_eq (codes "X-Frame-Options") other ≡ false
        → header_get other h ≡ header_get other given)
