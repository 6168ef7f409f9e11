-- ===== src/Bgp/Loops.antt =====
-- Loop prevention of the BGP daemon, and what its test on the last AS keeps out.
use netforge.Prelude.{
  ◌≡◌, refl, String, false, some, arith, List, [], ◌∷◌, ◌==◌, nat_eq, string_eq, any, All,
  Option-cases, inl, inr,
}
use netforge.Prelude.Int64.{Int64}
use netforge.Prelude.GoMap.{get, values, All-put}
use netforge.Bgp.{
  BgpPeer, BgpRoute, BgpDaemon, Learned, learned_route, last?, has_loop, process_route,
  process_routes, process_update,
}

-- The daemon's own AS is not on the path.
abbrev pub IsLoopFree : Int64 → BgpRoute → Type 0
IsLoopFree local_as route = any (λ a. a == local_as) route.as_path ≡ false

-- The path ends in the AS of the peer that sent it.
abbrev pub EndsIn : Int64 → BgpRoute → Type 0
EndsIn remote_as route = last? route.as_path ≡ some remote_as

module _ (local_as remote_as : Int64) (peer : String) where
  process_route-IsLoopFree :
      (l : Learned) (route : BgpRoute)
      → All (IsLoopFree local_as) (values l.0)
      → All (IsLoopFree local_as) (values (process_route local_as remote_as peer l route).0)
  unfolding process_route has_loop
  process_route-IsLoopFree l route h =
      ground (arith, All-put (IsLoopFree local_as) l.0 route.prefix (learned_route peer route))

  process_routes-IsLoopFree :
      (l : Learned) (routes : List BgpRoute)
      → All (IsLoopFree local_as) (values l.0)
      → All (IsLoopFree local_as) (values (process_routes local_as remote_as peer l routes).0)
  unfolding process_routes
  process_routes-IsLoopFree l [] h = h
  process_routes-IsLoopFree l (route ∷ rest) h =
      process_routes-IsLoopFree (process_route local_as remote_as peer l route) rest
        (process_route-IsLoopFree l route h)

  process_route-EndsIn :
      (l : Learned) (route : BgpRoute)
      → EndsIn remote_as route
      → process_route local_as remote_as peer l route ≡ l
  unfolding process_route has_loop
  process_route-EndsIn l route h = ground (arith)

  process_routes-EndsIn :
      (l : Learned) (routes : List BgpRoute)
      → All (EndsIn remote_as) routes
      → process_routes local_as remote_as peer l routes ≡ l
  unfolding process_routes
  process_routes-EndsIn l [] h = refl
  process_routes-EndsIn l (route ∷ rest) h =
      rw (process_route-EndsIn l route h.0) (process_routes-EndsIn l rest h.1)

-- No update, from a known peer or an unknown one, brings a path through the daemon's own AS into
-- routes that have none.
pub process_update-IsLoopFree :
    (b : BgpDaemon) (routes : List BgpRoute) (peer : String)
    → All (IsLoopFree b.local_as) (values b.routes)
    → All (IsLoopFree b.local_as) (values (process_update b routes peer).0.routes)
unfolding process_update
process_update-IsLoopFree b routes peer h = elim (Option-cases (get b.peers peer)) [
  | inl unknown ↦ rw (unknown, process_update) h
  | inr (cfg, known) ↦
      rw (known, process_update)
        (process_routes-IsLoopFree b.local_as cfg.remote_as peer (b.routes, []) routes h)
]

-- A peer's routes whose paths end in the peer's own AS, as those do that it originates, are all
-- dropped: nothing is learned and the daemon is unchanged.
pub process_update-EndsIn :
    (b : BgpDaemon) (routes : List BgpRoute) (peer : String) (cfg : BgpPeer)
    → get b.peers peer ≡ some cfg
    → All (EndsIn cfg.remote_as) routes
    → process_update b routes peer ≡ (b, [])
unfolding process_update
process_update-EndsIn b routes peer cfg known h = rw (
  known,
  process_update,
  process_routes-EndsIn b.local_as cfg.remote_as peer (b.routes, []) routes h,
)
