-- ===== src/Neighbors.antt =====
-- What hosts and routers keep about the addresses of a link
-- (src-tauri/engine/network/host.go, router_forward.go, ipv6_stack.go): a cache of hardware
-- addresses that expire, and the packets that wait for one. HostArpEntry, ArpEntry and
-- IPv6NeighborCache are one record in the source's three names. A nil map is empty.
pub mod Fifo
use netforge.Prelude.{
  ◌*◌, String, Bool, Option, none, some, List, [], ◌∷◌, ◌++◌, string_eq, if◌then◌else◌, not,
}
use netforge.Prelude.Int64.{Int64, add64, lt64}
use netforge.Prelude.GoMap.{GoMap, get, put, delete}

pub record ArpEntry : Type 0 where
  pub mac : String
  pub expires_at : Int64

-- 20 * time.Minute
abbrev pub arp_lifetime : Int64
arp_lifetime = 1200 * 1_000_000_000

-- `!ok || simTime > entry.ExpiresAt`
abbrev pub valid_mac : Option ArpEntry → Int64 → Option String
valid_mac none sim_time = none
valid_mac (some entry) sim_time = if lt64 entry.expires_at sim_time then none else some entry.mac

unfoldable pub lookup_mac : GoMap String ArpEntry → String → Int64 → Option String
lookup_mac cache ip sim_time = valid_mac (get cache ip) sim_time

unfoldable pub learn_mac : GoMap String ArpEntry → String → String → Int64 → GoMap String ArpEntry
learn_mac cache ip mac sim_time =
    put cache ip (record { mac = mac; expires_at = add64 sim_time arp_lifetime })

module _ {P : Type 0} where
  -- The entry of a missing key is the nil slice.
  abbrev pub slice_of : Option (List P) → List P
  slice_of none = []
  slice_of (some pkts) = pkts

  abbrev pub waiting_for : GoMap String (List P) → String → List P
  waiting_for queue next_hop = slice_of (get queue next_hop)

  unfoldable pub enqueue : GoMap String (List P) → String → P → GoMap String (List P)
  enqueue queue next_hop pkt = put queue next_hop (waiting_for queue next_hop ++ pkt ∷ [])

  unfoldable pub dequeue : GoMap String (List P) → String → GoMap String (List P) × List P
  dequeue queue next_hop = (delete queue next_hop, waiting_for queue next_hop)
