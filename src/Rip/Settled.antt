-- ===== src/Rip/Settled.antt =====
-- An update that has been processed has nothing more to say.
use text.Mathlib.TextEquality.{eq_iff}
use netforge.Prelude.{String, ◌≡◌, refl, Option, arith, List, [], ◌∷◌, string_eq, All}
use netforge.Prelude.Int64.{Int64}
use netforge.Prelude.GoMap.{GoMap}
use netforge.Rip.{
  RipRoute, RipRouteEntry, RipUpdate, RipDaemon, Learned, process_entry, process_entries,
  process_update,
}
use netforge.Rip.Metrics.{metric_at, offer, best_offer, process_update-best_offer}

-- The entry offers nothing below what is held.
abbrev IsIdle : String → Option Int64 → RipRouteEntry → Type 0
IsIdle network held entry = offer network held entry ≡ held

offer-IsIdle :
    (network : String) (held : Option Int64) (entry : RipRouteEntry)
    → IsIdle network (offer network held entry) entry
offer-IsIdle network held entry = ground arith

-- What is idle stays idle when a lower metric is held.
offer-keeps_IsIdle :
    (network : String) (held : Option Int64) (e entry : RipRouteEntry)
    → IsIdle network held e
    → IsIdle network (offer network held entry) e
offer-keeps_IsIdle network held e entry h = ground arith

best_offer-keeps_IsIdle :
    (network : String) (held : Option Int64) (e : RipRouteEntry) (entries : List RipRouteEntry)
    → IsIdle network held e
    → IsIdle network (best_offer network held entries) e
unfolding best_offer
best_offer-keeps_IsIdle network held e [] h = h
best_offer-keeps_IsIdle network held e (entry ∷ rest) h =
    best_offer-keeps_IsIdle network (offer network held entry) e rest
      (offer-keeps_IsIdle network held e entry h)

best_offer-IsIdle :
    (network : String) (held : Option Int64) (entries : List RipRouteEntry)
    → All (IsIdle network (best_offer network held entries)) entries
unfolding best_offer
best_offer-IsIdle network held [] = tt
best_offer-IsIdle network held (entry ∷ rest) = (
  best_offer-keeps_IsIdle network (offer network held entry) entry rest
      (offer-IsIdle network held entry),
  best_offer-IsIdle network (offer network held entry) rest,
)

process_entry-IsIdle :
    (sender_ip in_interface : String) (sim_time : Int64) (l : Learned) (entry : RipRouteEntry)
    → IsIdle entry.network (metric_at l.0 entry.network) entry
    → process_entry sender_ip in_interface sim_time l entry ≡ l
unfolding process_entry
process_entry-IsIdle sender_ip in_interface sim_time l entry h =
    ground (arith, eq_iff entry.network entry.network)

-- The entry offers nothing below what the database holds for its own network.
abbrev pub IsSettled : GoMap String RipRoute → RipRouteEntry → Type 0
IsSettled routes entry = IsIdle entry.network (metric_at routes entry.network) entry

at_own_network :
    (held : String → Option Int64) (entries : List RipRouteEntry)
    → ((network : String) → All (IsIdle network (held network)) entries)
    → All (λ entry. IsIdle entry.network (held entry.network) entry) entries
at_own_network held [] h = tt
at_own_network held (entry ∷ rest) h =
    ((h entry.network).0, at_own_network held rest (λ network. (h network).1))

process_entries-IsSettled :
    (sender_ip in_interface : String) (sim_time : Int64) (l : Learned)
    (entries : List RipRouteEntry)
    → All (IsSettled l.0) entries
    → process_entries sender_ip in_interface sim_time l entries ≡ l
unfolding process_entries
process_entries-IsSettled sender_ip in_interface sim_time l [] h = refl
process_entries-IsSettled sender_ip in_interface sim_time l (entry ∷ rest) h =
    rw (process_entry-IsIdle sender_ip in_interface sim_time l entry h.0)
      (process_entries-IsSettled sender_ip in_interface sim_time l rest h.1)

settles :
    (r : RipDaemon) (update : RipUpdate) (sender_ip in_interface : String) (sim_time : Int64)
    → All
        (IsSettled (process_update r update sender_ip in_interface sim_time).0.routes)
        update.routes
settles r update sender_ip in_interface sim_time =
    let after = (process_update r update sender_ip in_interface sim_time).0.routes in
    at_own_network (metric_at after) update.routes λ network.
      rw (process_update-best_offer r update sender_ip in_interface sim_time network)
        (best_offer-IsIdle network (metric_at r.routes network) update.routes)

-- An update that arrives again, from any sender, on any interface and at any time, changes
-- nothing and reports no route.
pub process_update_idem :
    (r : RipDaemon) (update : RipUpdate) (sender_ip in_interface : String) (sim_time : Int64)
    (sender_ip' in_interface' : String) (sim_time' : Int64)
    → let after = (process_update r update sender_ip in_interface sim_time).0 in
      process_update after update sender_ip' in_interface' sim_time' ≡ (after, [])
process_update_idem r update sender_ip in_interface sim_time sender_ip' in_interface' sim_time' =
    let after = (process_update r update sender_ip in_interface sim_time).0 in
    let same =
      process_entries-IsSettled sender_ip' in_interface' sim_time' (after.routes, []) update.routes
        (settles r update sender_ip in_interface sim_time) in
    unfold process_update in rw same
