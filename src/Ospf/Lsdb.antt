-- ===== src/Ospf/Lsdb.antt =====
-- The link-state database: what UpdateLSDB takes, and what that means for a router's own LSAs.
use netforge.Prelude.{
  ◌≡◌, String, false, Option, none, some, arith, ◌==◌, string_eq, leb, if◌then◌else◌,
}
use text.Mathlib.TextEquality.{eq_iff}
use netforge.Prelude.Int64.{Int64}
use netforge.Prelude.GoMap.{GoMap, get, get-put}
use netforge.Ospf.{RouterLsa, OspfDaemon, update_lsdb, generate_router_lsa}

-- The LSA with the higher sequence number, the old one where they are equal.
abbrev pub newer : Option RouterLsa → RouterLsa → RouterLsa
newer none lsa = lsa
newer (some existing) lsa = if leb lsa.sequence existing.sequence then existing else lsa

-- After an update the database holds, under the LSA's router, the newer of the LSA and what it
-- held, and under every other router what it held.
pub get-update_lsdb :
    (o : OspfDaemon) (lsa : RouterLsa) (id : String)
    → get (update_lsdb o lsa).0.lsdb id
      ≡ (if lsa.router_id == id then some (newer (get o.lsdb id) lsa) else get o.lsdb id)
unfolding update_lsdb
get-update_lsdb o lsa id =
    ground (arith, get-put o.lsdb lsa.router_id id lsa, eq_iff lsa.router_id id)

-- Once a router's own LSA is in a database, none that it generates later is taken: whatever its
-- neighbours and subnets have become, the update is refused and the database stays.
pub update_lsdb-generate_router_lsa :
    (o : OspfDaemon) (before after : OspfDaemon) (subnets subnets' : GoMap String Int64)
    → before.router_id ≡ after.router_id
    → let known = (update_lsdb o (generate_router_lsa before subnets)).0 in
      update_lsdb known (generate_router_lsa after subnets') ≡ (known, false)
unfolding update_lsdb generate_router_lsa
update_lsdb-generate_router_lsa o before after subnets subnets' same = ground (
  arith,
  get-put o.lsdb before.router_id after.router_id (generate_router_lsa before subnets),
  eq_iff before.router_id after.router_id,
)
