-- ===== src/Dhcp/Leases.antt =====
-- The leases of a pool.
use netforge.Net.{Net}
use netforge.Prelude.{Option, string_eq}
