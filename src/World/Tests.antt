-- ===== src/World/Tests.antt =====
-- The registry's theorems at concrete inputs.
use pupptyeer.World.{SessKey_eq}

-- Session 2 has the id that session 0, which is alive, is registered under.
