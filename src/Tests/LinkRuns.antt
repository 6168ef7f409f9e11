-- ===== src/Tests/LinkRuns.antt =====
-- A Frame Relay link, an election between two routers, and a table of neighbours.
use Prim.Native.String.{◌++◌ as append}
use netforge.Prelude.{
  ◌+◌, String, ◌≡◌, refl, false, true, none, some, arith, [], ◌∷◌, In, All, not, ◌&&◌,
}
use netforge.Prelude.Int64.{Int64, lt64}
use netforge.Wan.{WanLink, WanManager, Keys, LmiStatus, add_fr_link, resolve_fr_dlci, pvc_status_of}
use netforge.Wan.Circuits.{resolve_fr_dlci-add_fr_link}
use netforge.Hsrp.{HsrpState, Candidate, best_of, elect, is_active}
use netforge.Router.Cdp.{CdpNeighbor, CdpPacket, learn_cdp_neighbor, purge_stale_cdp_neighbors}
use netforge.Router.Cdp.Aging.{IsUnique, seen_at, seen_at-learn_cdp_neighbor}
use netforge.Hsrp.Election.{elect-best}

abbrev keys : Keys
keys = record { lmi_key = λ node port dlci. append node port; port_key = append }

abbrev circuit : WanLink
circuit = record {
  id = "fr1";
  source_node_id = "R1";
  source_port_id = "s0";
  source_dlci = 102;
  target_node_id = "R2";
  target_port_id = "s1";
  target_dlci = 201;
  encap = "frame-relay";
}

abbrev wan : WanManager
wan = record { serial_ports = []; fr_links = []; lmi_seq = []; pvc_status = [] }

resolve_fr_dlci-add_fr_link_example :
    let after = add_fr_link keys wan circuit in
    (resolve_fr_dlci after.fr_links "R1" "s0" 102 ≡ some ("R2", "s1"))
    × (resolve_fr_dlci after.fr_links "R2" "s1" 201 ≡ some ("R1", "s0"))
    × (pvc_status_of keys after "R1" "s0" 102 ≡ LmiStatus.active)
    × (pvc_status_of keys after "R2" "s1" 201 ≡ LmiStatus.active)
unfolding resolve_fr_dlci
resolve_fr_dlci-add_fr_link_example = resolve_fr_dlci-add_fr_link keys wan circuit refl refl

abbrev candidate : String → Int64 → HsrpState → Candidate
candidate router_id priority state = record {
  router_id = router_id;
  group = record {
    group_id = 1;
    interface = "g0";
    virtual_ip = "10.0.0.254";
    priority = priority;
    preempt = true;
    state = state;
    hello_time = 3;
  };
}

-- R1 was Active, and R2 with a higher priority joins.
elect-best_example :
    let r1 = candidate "R1" 100 HsrpState.active in
    let r2 = candidate "R2" 110 HsrpState.listen in
    In r2 (r1 ∷ r2 ∷ [])
    × All (λ e. lt64 110 e.group.priority ≡ false) (r1 ∷ r2 ∷ [])
    × ((elect (r1 ∷ r2 ∷ []) "R2" r2.group).state ≡ HsrpState.active)
    × ((true && not (is_active (elect (r1 ∷ r2 ∷ []) "R1" r1.group).state)) ≡ false)
    × ((elect (r1 ∷ r2 ∷ []) "R1" r1.group).state ≡ HsrpState.active)
unfolding best_of
elect-best_example =
    elect-best (candidate "R1" 100 HsrpState.active) (candidate "R1" 100 HsrpState.active)
      (candidate "R2" 110 HsrpState.listen ∷ [])

abbrev neighbor : String → Int64 → CdpNeighbor
neighbor device_id last_seen = record {
  device_id = device_id;
  port_id = "g0";
  platform = "NetForge-ISR";
  ip_address = "10.0.0.1";
  local_port = "g1";
  last_seen = last_seen;
}

abbrev advertisement : CdpPacket
advertisement = record {
  device_id = "R2";
  port_id = "g0";
  platform = "NetForge-ISR";
  ip_address = "10.0.0.2";
  capabilities = "Router";
}

-- R3, last heard of at 7, is gone after an advertisement of R2 at 8, three more that other routers learn
-- and a hold time of 3.
seen_at-learn_cdp_neighbor_example :
    let (after, now) =
      learn_cdp_neighbor (neighbor "R3" 7 ∷ neighbor "R2" 5 ∷ []) 7 "g1" advertisement in
    IsUnique after × (seen_at (purge_stale_cdp_neighbors after (now + 3) 3) "R3" "g1" ≡ none)
unfolding seen_at
seen_at-learn_cdp_neighbor_example =
    seen_at-learn_cdp_neighbor (neighbor "R3" 7 ∷ neighbor "R2" 5 ∷ []) 7 3 3 "g1" advertisement
      "R3" "g1" (refl, (refl, tt)) (omega arith) (omega arith)
