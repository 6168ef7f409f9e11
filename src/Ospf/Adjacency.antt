-- ===== src/Ospf/Adjacency.antt =====
-- How far adjacencies get: routers that exchange the Hellos that they generate.
use netforge.Prelude.{
  ◌+◌, ◌*◌, ◌≤◌, ◌<◌, ◌^◌, ◌≡◌, refl, ◌∙◌, String, Option, none, some, [], ◌∷◌, All, arith, leb,
  string_eq, if◌then◌else◌, Option-cases, inl, inr, map,
}
use netforge.Prelude.Int64.{Int64, sub64-eq-sub}
use netforge.Prelude.GoMap.{
  GoMap, get, put, get-delete_if, survive, IsUnique, values, All-put, All-get, All-delete_if,
}
use netforge.Ospf.{
  second, init, OspfNeighbor, OspfDaemon, OspfHelloPacket, active_ids, generate_hello, heard,
  hello_neighbor, handle_incoming_hello, is_dead, check_dead_interval, router_links, stub_link,
  generate_router_lsa,
}

-- A neighbour that is at INIT.
abbrev pub IsInit : OspfNeighbor → Type 0
IsInit n = n.state ≡ init

-- Every neighbour is at INIT.
abbrev pub IsStuck : OspfDaemon → Type 0
IsStuck o = All IsInit (values o.neighbors)

active_ids-IsStuck : (m : GoMap String OspfNeighbor) → All IsInit (values m) → active_ids m ≡ []
unfolding active_ids
active_ids-IsStuck [] h = refl
active_ids-IsStuck ((id, n) ∷ rest) h = rw (h.0, active_ids-IsStuck rest h.1)

router_links-IsStuck : (m : GoMap String OspfNeighbor) → All IsInit (values m) → router_links m ≡ []
unfolding router_links
router_links-IsStuck [] h = refl
router_links-IsStuck ((id, n) ∷ rest) h = rw (h.0, router_links-IsStuck rest h.1)

-- A Hello that names nobody puts its sender at INIT.
heard-IsInit :
    (o : OspfDaemon) (iface : String) (hello : OspfHelloPacket) (sim_time : Int64)
    → hello.active_neighbors ≡ []
    → IsInit (heard o iface hello sim_time)
unfolding hello_neighbor
heard-IsInit o iface hello sim_time h = elim (Option-cases (get o.neighbors hello.router_id)) [
  | inl new ↦ rw (new, heard) refl
  | inr (n, old) ↦ rw (old, heard, h) refl
]

handle_incoming_hello-IsStuck :
    (o sender : OspfDaemon) (iface out_iface mask : String) (sim_time : Int64)
    → IsStuck o
    → IsStuck sender
    → IsStuck (handle_incoming_hello o iface (generate_hello sender out_iface mask) sim_time).0
unfolding handle_incoming_hello generate_hello
handle_incoming_hello-IsStuck o sender iface out_iface mask sim_time h hs =
    let hello = generate_hello sender out_iface mask in
    All-put IsInit o.neighbors sender.router_id (heard o iface hello sim_time) h
      (heard-IsInit o iface hello sim_time (active_ids-IsStuck sender.neighbors hs))

-- The daemons of a network, by name.
abbrev pub Daemons : Type 0
Daemons = GoMap String OspfDaemon

-- What happens between them: a Hello that one generates reaches another, or one looks for dead
-- neighbours, on any interface and at any time.
pub data Step (ds : Daemons) : Daemons → Type 0 where
  hello :
      (from to out_iface mask iface : String) (sim_time : Int64) (s o : OspfDaemon)
      → get ds from ≡ some s
      → get ds to ≡ some o
      → Step ds
          (put ds to (handle_incoming_hello o iface (generate_hello s out_iface mask) sim_time).0)
  expire :
      (at : String) (sim_time : Int64) (o : OspfDaemon)
      → get ds at ≡ some o
      → Step ds (put ds at (check_dead_interval o sim_time).0)

pub data Reach (ds : Daemons) : Daemons → Type 0 where
  here : Reach ds ds
  next : {es fs : Daemons} → Reach ds es → Step es fs → Reach ds fs

Step-IsStuck : {ds es : Daemons} → Step ds es → All IsStuck (values ds) → All IsStuck (values es)
unfolding check_dead_interval
Step-IsStuck {ds} (hello from to out_iface mask iface sim_time s o gs go) h =
    All-put IsStuck ds to _ h (
      handle_incoming_hello-IsStuck o s iface out_iface mask sim_time (All-get IsStuck ds to o h go)
        (All-get IsStuck ds from s h gs))
Step-IsStuck {ds} (expire at sim_time o go) h =
    All-put IsStuck ds at _ h
      (All-delete_if IsInit (λ _ n. is_dead sim_time n) o.neighbors (All-get IsStuck ds at o h go))

Reach-IsStuck : {ds es : Daemons} → Reach ds es → All IsStuck (values ds) → All IsStuck (values es)
Reach-IsStuck here h = h
Reach-IsStuck (next r s) h = Step-IsStuck s (Reach-IsStuck r h)

-- From daemons whose neighbours are all at INIT, none at all included, no exchange of the Hellos
-- that the daemons generate brings a neighbour past INIT, and every LSA that a daemon generates
-- has the links of the subnets alone.
pub never_adjacent :
    {ds es : Daemons} (name : String) (o : OspfDaemon) (subnets : GoMap String Int64)
    → All IsStuck (values ds)
    → Reach ds es
    → get es name ≡ some o
    → All IsInit (values o.neighbors)
      × ((generate_router_lsa o subnets).links ≡ map stub_link subnets)
unfolding generate_router_lsa
never_adjacent {es} name o subnets h r g =
    let stuck = All-get IsStuck es name o (Reach-IsStuck r h) g in
    (stuck, rw (router_links-IsStuck o.neighbors stuck))

-- What 40 seconds leave of a neighbour.
abbrev pub if_heard : Int64 → Option OspfNeighbor → Option OspfNeighbor
if_heard sim_time none = none
if_heard sim_time (some n) = if leb sim_time (n.last_seen + 40 * second) then some n else none

-- The neighbour was not seen after the time.
abbrev pub WasSeen : Int64 → OspfNeighbor → Type 0
WasSeen sim_time n = n.last_seen ≤ sim_time

survive-if_heard :
    (sim_time : Int64) (n : OspfNeighbor)
    → sim_time < 2 ^ 63
    → n.last_seen ≤ sim_time
    → survive (is_dead sim_time) (some n) ≡ if_heard sim_time (some n)
survive-if_heard sim_time n small seen =
    rw (sub64-eq-sub sim_time n.last_seen seen small) ground arith

-- A check for dead neighbours leaves exactly those that were last seen at most 40 seconds before,
-- as they were, and no other. No neighbour is twice in the daemon's map, and none was seen after the
-- time of the check, which is not negative.
pub get-check_dead_interval :
    (o : OspfDaemon) (sim_time : Int64) (id : String)
    → IsUnique o.neighbors
    → sim_time < 2 ^ 63
    → All (WasSeen sim_time) (values o.neighbors)
    → get (check_dead_interval o sim_time).0.neighbors id ≡ if_heard sim_time (get o.neighbors id)
unfolding check_dead_interval
get-check_dead_interval o sim_time id u small seen =
    get-delete_if (λ _ n. is_dead sim_time n) o.neighbors id u
    ∙ (elim (Option-cases (get o.neighbors id)) [
      | inl gone ↦ rw gone refl
      | inr (n, found) ↦ rw found (
          survive-if_heard sim_time n small
            (All-get (WasSeen sim_time) o.neighbors id n seen found))
    ])
