-- ===== src/Forward/Headers.antt =====
-- Which headers go on to a backend.
use thttpd_rs.Forward.Named.{Named, IsEndToEnd}
use thttpd_rs.Base.{◌≡◌, true, Option, Bytes, codes, All, Any, ◌⊎◌, eq_ignore_case}
use thttpd_rs.Forward.{Headers}

abbrev IsHost : Bytes × Bytes → Type 0
IsHost (name, value) = eq_ignore_case name (codes "host") ≡ true

-- A header that goes on to a backend, or the host.
abbrev IsForBackend : (Bytes → Option Bytes) → Headers → Bytes × Bytes → Type 0
IsForBackend readable sent h = IsEndToEnd readable sent h ⊎ IsHost h

-- The headers `hs` may go on to a backend, from a client that sent the headers `sent`.
abbrev pub Rebuilt : (Bytes → Option Bytes) → Headers → Headers → Type 0
Rebuilt readable sent hs = All (IsForBackend readable sent) hs × Any IsHost hs
