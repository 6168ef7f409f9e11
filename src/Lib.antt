-- ===== src/Lib.antt =====
-- A verification library for the simulation core of NetForge, the Go engine in src-tauri/engine.
--
-- The program is a discrete-event simulator of networks. A scheduler (scheduler.go) hands out timed
-- events; the manager delivers them as frames to devices: switches, routers, hosts, firewalls. A
-- router runs routing daemons (network/protocol), whose results go to its routing table, and its
-- services filter and translate the packets that it forwards. An event log and a configuration store
-- stand beside the devices.
--
-- The modules, and the files under src-tauri/engine that they model:
--   Prelude      Boolean tests, lists, 64-bit integers (Prelude/Int64), Go's maps (Prelude/GoMap),
--                the order of texts (Prelude/Texts)
--   Net          the functions of Go's package net that the code calls, as a parameter
--   Pdu          pdu/frame.go, pdu/vlan.go, pdu/packet.go: frames, tags and packets
--   Scheduler    scheduler.go: NewScheduler is new_scheduler, Schedule is schedule, Step is step, the
--                queue's Less, Swap, Push and Pop are less, swap, push_back and pop_back
--   Switch       network/switch.go: ports and VLANs; Switch/Forward: HandleIncomingFrame is
--                handle_incoming_frame, ingressVLAN, egressFrame and floodVLAN are ingress_vlan,
--                egress_frame and flood_vlan; Switch/Stp: RunSTP is run_stp
--   Vtp          network/vtp.go: syncVTPFromServer and PropagateVTP
--   Rip, Eigrp, Bgp, Ospf
--                network/protocol/rip.go, eigrp.go, bgp.go, ospf.go: one function for each method, the
--                daemon handed in and out; Ospf/Spf is ComputeSPF
--   EventLog     network/event_log.go: Record is record_event, Get is get_entries
--   Router       network/router.go: AddRoute, RemoveRoutesByProtocol, MatchRoute; Router/Acl and
--                Router/Nat, Router/Cdp: access lists, address translation and the CDP table of
--                network/router_services.go
--   Asa          network/asa.go: InspectPacket is inspect_packet
--   ConfigStore  network/config_store.go
--   Wan          network/wan.go: AddFRLink, ResolveFRDLCI, ProcessPPPFrame and the LMI exchange
--   Hsrp         network/hsrp.go: RunHSRPElection is run_hsrp_election
--   Neighbors, Host
--                network/host.go: the caches of hardware addresses, the packets that wait for one, and
--                the host itself
--   Device       network/router_forward.go: the ports of a router, AddInterface, AssignLinkAddress;
--                Device/Arp is BuildARPRequest and HandleIncomingArp, Device/Ipv6
--                network/ipv6_stack.go, Device/Processes and Device/Snapshots the daemons,
--                advertisements and snapshots of network/router.go
--   VpnConfig, Ipsec
--                network/ipsec.go: Ipsec/Negotiation is NegotiateIKE and TryAutoNegotiateIKE
--   Mobile, Voip, Wireless
--                network/mobile.go, mobile_5g.go, voip.go, voip_signaling.go, wireless.go
--   Dhcp         network/router_services.go: HandleDHCPDiscover, HandleDHCPRequest, DNS records
--   Topology     network/manager.go: AddLink is add_link; Topology/Removal is RemoveDevice of
--                network/topology_ops.go, Topology/Timers HandleTimerEvent and the loop of main.go,
--                Topology/Routes RunOspfSPF and FloodOspfLSAs of manager.go
--   Tests        the theorems at concrete networks
--
-- Names are the source's, in this library's spelling. A method that writes its receiver returns the
-- new state; the locks have no counterpart, since each method holds its lock to the end and is one
-- step here. An `int`, an `int64` or a time is its 64-bit pattern, with the wrap-around written
-- out. A map is a list of entries, in the order that a range would visit them, which is any order;
-- publicIP, which may range over one map several times within an operation, has the orders of its
-- ranges as a parameter. A nil pointer is none. A text is a text; addresses are texts, as in the
-- source.
--
-- Every loop of the source is a recursion over the list that it ranges over. The search of ComputeSPF
-- runs as many rounds as the database has routers, which is the source's own bound, so it needs no
-- fuel beyond it. Go's container/heap is the record HeapLib with the promises of its documentation in
-- HeapLaws; Tests/QueueRuns has an instance, a queue that is kept sorted.
--
-- Not modelled: the data plane, which hands a frame on from device to device, and with it what the
-- cycles of the timers exchange, but for the flooding of OSPF's database; quality of service, whose
-- rates are floating-point numbers; the files, codecs and captures, which rest on Go's libraries;
-- the exercises and labs, which only call the rest; the command line; and the user interface, which
-- is not Go.
pub mod Prelude
pub mod Net
pub mod Pdu
pub mod Scheduler
pub mod Switch
pub mod Vtp
pub mod Rip
pub mod Eigrp
pub mod Bgp
pub mod Ospf
pub mod EventLog
pub mod Router
pub mod Asa
pub mod ConfigStore
pub mod Tests
pub mod Wan
pub mod Hsrp
pub mod Neighbors
pub mod Host
pub mod Device
pub mod VpnConfig
pub mod Ipsec
pub mod Topology
pub mod Wireless
pub mod Mobile
pub mod Voip
pub mod Dhcp
