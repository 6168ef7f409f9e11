-- ===== src/Router/Cdp.antt =====
-- The table of CDP neighbours (src-tauri/engine/network/router_services.go). cdpCounter, which all
-- routers share, is handed in and out.
pub mod Aging
use netforge.Prelude.{String, Bool, ◌&&◌, List, [], ◌∷◌, ◌==◌, string_eq, keep, if◌then◌else◌}
use netforge.Prelude.Int64.{Int64, add64, sub64, lt64}

pub record CdpNeighbor : Type 0 where
  pub device_id : String
  pub port_id : String
  pub platform : String
  pub ip_address : String
  pub local_port : String
  pub last_seen : Int64

-- CDPPacket of pdu/cdp.go.
pub record CdpPacket : Type 0 where
  pub device_id : String
  pub port_id : String
  pub platform : String
  pub ip_address : String
  pub capabilities : String

unfoldable pub cdp_now : Int64 → Int64
cdp_now counter = add64 counter 1

abbrev pub is_neighbor : String → String → CdpNeighbor → Bool
is_neighbor device_id local_port n = n.device_id == device_id && n.local_port == local_port

-- The loop writes over the first entry of the device and port, else the append after it runs.
unfoldable pub put_neighbor : List CdpNeighbor → String → CdpPacket → Int64 → List CdpNeighbor
put_neighbor [] local_port pkt now =
    record {
      device_id = pkt.device_id;
      port_id = pkt.port_id;
      platform = pkt.platform;
      ip_address = pkt.ip_address;
      local_port = local_port;
      last_seen = now;
    }
    ∷ []
put_neighbor (n ∷ rest) local_port pkt now =
    if is_neighbor pkt.device_id local_port n
    then record n {
      port_id = pkt.port_id;
      platform = pkt.platform;
      ip_address = pkt.ip_address;
      last_seen = now;
    }
      ∷ rest
    else n ∷ put_neighbor rest local_port pkt now

-- The table and the counter.
unfoldable pub learn_cdp_neighbor :
    List CdpNeighbor → Int64 → String → CdpPacket → List CdpNeighbor × Int64
unfolding cdp_now put_neighbor
learn_cdp_neighbor neighbors counter local_port pkt =
    (put_neighbor neighbors local_port pkt (cdp_now counter), cdp_now counter)

unfoldable pub purge_stale_cdp_neighbors : List CdpNeighbor → Int64 → Int64 → List CdpNeighbor
purge_stale_cdp_neighbors neighbors counter holdtime =
    keep (λ n. lt64 (sub64 counter holdtime) n.last_seen) neighbors
