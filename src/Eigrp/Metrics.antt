-- ===== src/Eigrp/Metrics.antt =====
-- What an EIGRP update does to the topology table.
use text.Mathlib.TextEquality.{eq_iff}
use netforge.Prelude.{
  String, ◌≡◌, refl, ap, ◌∙◌, Option, none, some, arith, List, [], ◌∷◌, ◌==◌, string_eq,
  if◌then◌else◌,
}
use netforge.Prelude.Int64.{Int64, add64, lt64}
use netforge.Prelude.GoMap.{GoMap, get, get-put}
use netforge.Eigrp.{
  EigrpRoute, EigrpDaemon, Learned, hop_cost, learned_route, process_route, process_routes,
  process_update,
}

abbrev pub metric_of : Option EigrpRoute → Option Int64
metric_of none = none
metric_of (some route) = some route.metric

abbrev pub metric_at : GoMap String EigrpRoute → String → Option Int64
metric_at routes network = metric_of (get routes network)

abbrev pub lower : Option Int64 → Int64 → Option Int64
lower none offered = some offered
lower (some held) offered = if lt64 offered held then some offered else some held

abbrev pub offer : String → Option Int64 → EigrpRoute → Option Int64
offer network held route =
    if route.network == network then lower held (add64 route.metric hop_cost) else held

-- The best of the metric held and of those offered for one network, without a table.
unfoldable pub best_offer : String → Option Int64 → List EigrpRoute → Option Int64
best_offer network held [] = held
best_offer network held (route ∷ rest) = best_offer network (offer network held route) rest

module _ (sender in_iface : String) (sim_time : Int64) where
  metric_at-process_route :
      (l : Learned) (route : EigrpRoute) (network : String)
      → metric_at (process_route sender in_iface sim_time l route).0 network
        ≡ offer network (metric_at l.0 network) route
  unfolding process_route
  metric_at-process_route l route network = ground (
    arith,
    get-put l.0 route.network network (learned_route sender in_iface sim_time route),
    eq_iff route.network network,
  )

  metric_at-process_routes :
      (l : Learned) (routes : List EigrpRoute) (network : String)
      → metric_at (process_routes sender in_iface sim_time l routes).0 network
        ≡ best_offer network (metric_at l.0 network) routes
  unfolding process_routes best_offer
  metric_at-process_routes l [] network = refl
  metric_at-process_routes l (route ∷ rest) network =
      metric_at-process_routes (process_route sender in_iface sim_time l route) rest network
      ∙ ap (λ held. best_offer network held rest) (metric_at-process_route l route network)

-- After an update the metric held for a network is the least of the old one and of the metrics
-- that the update offers for it, each with the cost of the hop added.
pub process_update-best_metric :
    (e : EigrpDaemon) (routes : List EigrpRoute) (sender in_iface : String) (sim_time : Int64)
    (network : String)
    → metric_at (process_update e routes sender in_iface sim_time).0.routes network
      ≡ best_offer network (metric_at e.routes network) routes
unfolding process_update
process_update-best_metric e routes sender in_iface sim_time network =
    metric_at-process_routes sender in_iface sim_time (e.routes, []) routes network
