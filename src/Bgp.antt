-- ===== src/Bgp.antt =====
-- The BGP daemon (src-tauri/engine/network/protocol/bgp.go): its sessions, its routes and the
-- operations that write them.
pub mod Loops
pub mod Paths
use netforge.Prelude.{
  ℕ, String, Bool, true, false, ◌||◌, ◌&&◌, Option, none, some, List, [], ◌∷◌, ◌++◌, any, length,
  ltb, ◌==◌, nat_eq, string_eq, if◌then◌else◌,
}
use netforge.Prelude.Int64.{Int64}
use netforge.Prelude.GoMap.{GoMap, get, put, values}

-- A BGP neighbor session.
pub record BgpPeer : Type 0 where
  pub peer_ip : String
  pub remote_as : Int64
  pub local_as : Int64
  pub state : String

-- A BGP path advertisement.
pub record BgpRoute : Type 0 where
  pub prefix : String
  pub next_hop : String
  pub as_path : List Int64
  pub origin : String

pub record BgpDaemon : Type 0 where
  pub local_as : Int64
  pub router_id : String
  pub enabled : Bool
  pub peers : GoMap String BgpPeer
  pub routes : GoMap String BgpRoute

unfoldable pub new_bgp_daemon : String → Int64 → BgpDaemon
new_bgp_daemon router_id local_as = record {
  local_as = local_as;
  router_id = router_id;
  enabled = false;
  peers = [];
  routes = [];
}

unfoldable pub enable : BgpDaemon → BgpDaemon
enable b = record b { enabled = true }

unfoldable pub add_peer : BgpDaemon → String → Int64 → BgpDaemon
add_peer b peer_ip remote_as = record b {
  peers = put b.peers peer_ip (record {
    peer_ip = peer_ip;
    remote_as = remote_as;
    local_as = b.local_as;
    state = "Established";
  });
}

-- `path[len(path)-1]`, none for the empty path.
abbrev pub last? : List Int64 → Option Int64
last? [] = none
last? (a ∷ []) = some a
last? (_ ∷ b ∷ path) = last? (b ∷ path)

abbrev pub is_last : List Int64 → Int64 → Bool
is_last path a = elim (last? path) [ none ↦ false | some b ↦ b == a ]

-- hasLoop: the first loop finds the daemon's own AS, the test after it the sender's.
unfoldable pub has_loop : Int64 → Int64 → List Int64 → Bool
has_loop local_as remote_as path = any (λ a. a == local_as) path || is_last path remote_as

-- `!found || len(newPath) < len(existing.ASPath)`
unfoldable pub shortens : List Int64 → Option BgpRoute → Bool
shortens new_path none = true
shortens new_path (some existing) = ltb (length new_path) (length existing.as_path)

abbrev pub learned_route : String → BgpRoute → BgpRoute
learned_route peer route = record {
  prefix = route.prefix;
  next_hop = peer;
  as_path = route.as_path;
  origin = "IGP";
}

abbrev pub Learned : Type 0
Learned = GoMap String BgpRoute × List BgpRoute

unfoldable pub process_route : Int64 → Int64 → String → Learned → BgpRoute → Learned
unfolding shortens
process_route local_as remote_as peer l route =
    let r = learned_route peer route in
    if has_loop local_as remote_as route.as_path
    then l
    else if shortens route.as_path (get l.0 route.prefix)
    then (put l.0 route.prefix r, l.1 ++ r ∷ [])
    else l

unfoldable pub process_routes : Int64 → Int64 → String → Learned → List BgpRoute → Learned
process_routes local_as remote_as peer l [] = l
process_routes local_as remote_as peer l (route ∷ rest) =
    process_routes local_as remote_as peer (process_route local_as remote_as peer l route) rest

abbrev pub with_routes : BgpDaemon → Learned → BgpDaemon × List BgpRoute
with_routes b l = (record b { routes = l.0 }, l.1)

unfoldable pub process_update : BgpDaemon → List BgpRoute → String → BgpDaemon × List BgpRoute
process_update b routes peer = elim (get b.peers peer) [
  | none ↦ (b, [])
  | some cfg ↦ with_routes b (process_routes b.local_as cfg.remote_as peer (b.routes, []) routes)
]

unfoldable pub get_advertisement : BgpDaemon → List BgpRoute → List BgpRoute
get_advertisement b local = local ++ values b.routes
