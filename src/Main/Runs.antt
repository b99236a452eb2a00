-- ===== src/Main/Runs.antt =====
-- Concrete time zones, and the theorems at concrete inputs.
use lynx_dns.Common.{◌≡◌, refl, some, codes, pos}
use lynx_dns.Main.{parse_tz_offset}

india : parse_tz_offset (codes "IST-5:30") ≡ some (pos 19800)
unfolding parse_tz_offset
india = refl
