-- ===== src/Rip/Metrics.antt =====
-- What an update does to the metrics of the RIP database.
use netforge.Prelude.{
  String, ◌≡◌, refl, ap, ◌∙◌, true, ◌&&◌, Option, none, some, arith, List, [], ◌∷◌, ◌==◌, string_eq,
  All, if◌then◌else◌,
}
use netforge.Prelude.Int64.{Int64, add64, lt64}
use netforge.Prelude.GoMap.{GoMap, get, get-put, values, All-put}
use text.Mathlib.TextEquality.{eq_iff}
use netforge.Rip.{
  learned_route, RipRoute, RipRouteEntry, RipUpdate, RipDaemon, rip_infinity, Learned,
  process_entry, process_entries, process_update,
}

-- The metric that a database holds for a network.
abbrev pub metric_of : Option RipRoute → Option Int64
metric_of none = none
metric_of (some route) = some route.metric

abbrev pub metric_at : GoMap String RipRoute → String → Option Int64
metric_at routes network = metric_of (get routes network)

-- The lower of the metric held and the one offered.
abbrev pub lower : Option Int64 → Int64 → Option Int64
lower none offered = some offered
lower (some held) offered = if lt64 offered held then some offered else some held

abbrev pub offer : String → Option Int64 → RipRouteEntry → Option Int64
offer network held entry =
    if entry.network == network && lt64 (add64 entry.metric 1) rip_infinity
    then lower held (add64 entry.metric 1)
    else held

-- The Bellman-Ford step for one network, without a database.
unfoldable pub best_offer : String → Option Int64 → List RipRouteEntry → Option Int64
best_offer network held [] = held
best_offer network held (entry ∷ rest) = best_offer network (offer network held entry) rest

module _ (sender_ip in_interface : String) (sim_time : Int64) where
  metric_at-process_entry :
      (l : Learned) (entry : RipRouteEntry) (network : String)
      → metric_at (process_entry sender_ip in_interface sim_time l entry).0 network
        ≡ offer network (metric_at l.0 network) entry
  unfolding process_entry
  metric_at-process_entry l entry network = ground (
    arith,
    get-put l.0 entry.network network (learned_route sender_ip in_interface sim_time entry),
    eq_iff entry.network network,
  )

  metric_at-process_entries :
      (l : Learned) (entries : List RipRouteEntry) (network : String)
      → metric_at (process_entries sender_ip in_interface sim_time l entries).0 network
        ≡ best_offer network (metric_at l.0 network) entries
  unfolding process_entries best_offer
  metric_at-process_entries l [] network = refl
  metric_at-process_entries l (entry ∷ rest) network =
      metric_at-process_entries (process_entry sender_ip in_interface sim_time l entry) rest network
      ∙ ap (λ held. best_offer network held rest) (metric_at-process_entry l entry network)

-- After an update the metric held for a network is the least of the old one and of the metrics
-- below infinity that the update offers for it.
pub process_update-best_offer :
    (r : RipDaemon) (update : RipUpdate) (sender_ip in_interface : String) (sim_time : Int64)
    (network : String)
    → metric_at (process_update r update sender_ip in_interface sim_time).0.routes network
      ≡ best_offer network (metric_at r.routes network) update.routes
unfolding process_update
process_update-best_offer r update sender_ip in_interface sim_time network =
    metric_at-process_entries sender_ip in_interface sim_time (r.routes, []) update.routes network

abbrev pub IsReachable : RipRoute → Type 0
IsReachable route = lt64 route.metric rip_infinity ≡ true

module _ (sender_ip in_interface : String) (sim_time : Int64) where
  process_entry-IsReachable :
      (l : Learned) (entry : RipRouteEntry)
      → All IsReachable (values l.0)
      → All IsReachable (values (process_entry sender_ip in_interface sim_time l entry).0)
  unfolding process_entry
  process_entry-IsReachable l entry h = ground (
    arith,
    All-put IsReachable l.0 entry.network (learned_route sender_ip in_interface sim_time entry),
  )

  process_entries-IsReachable :
      (l : Learned) (entries : List RipRouteEntry)
      → All IsReachable (values l.0)
      → All IsReachable (values (process_entries sender_ip in_interface sim_time l entries).0)
  unfolding process_entries
  process_entries-IsReachable l [] h = h
  process_entries-IsReachable l (entry ∷ rest) h =
      process_entries-IsReachable (process_entry sender_ip in_interface sim_time l entry) rest
        (process_entry-IsReachable l entry h)

-- No update brings a metric of 16 or more into a database that has none.
pub process_update-IsReachable :
    (r : RipDaemon) (update : RipUpdate) (sender_ip in_interface : String) (sim_time : Int64)
    → All IsReachable (values r.routes)
    → All IsReachable (values (process_update r update sender_ip in_interface sim_time).0.routes)
unfolding process_update
process_update-IsReachable r update sender_ip in_interface sim_time h =
    process_entries-IsReachable sender_ip in_interface sim_time (r.routes, []) update.routes h
