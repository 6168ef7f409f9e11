-- ===== src/Asa/Stateful.antt =====
-- What the connection table lets through.
use netforge.Net.{Net}
use netforge.Pdu.{Ipv4Packet}
use netforge.Router.Acl.{AclRule}
use netforge.Prelude.{
  ℕ, ◌+◌, ◌<◌, ◌^◌, String, ◌≡◌, refl, true, false, List, [], ◌∷◌, arith, string_eq, beq_refl,
}
use netforge.Prelude.Int64.{Int64, add64}
use netforge.Prelude.GoMap.{get, put, get-put}
use netforge.Asa.{
  AsaFirewall, conn_key, conn_lifetime, evaluate_rules, inspect_packet, is_live, zone_of, add_rule,
}

unfoldable pub add_rules : AsaFirewall → List AclRule → AsaFirewall
add_rules a [] = a
add_rules a (rule ∷ rules) = add_rules (add_rule a rule) rules

conn_table-add_rules :
    (a : AsaFirewall) (rules : List AclRule) → (add_rules a rules).conn_table ≡ a.conn_table
unfolding add_rules add_rule
conn_table-add_rules a [] = refl
conn_table-add_rules a (rule ∷ rules) = conn_table-add_rules (add_rule a rule) rules

abbrev pub with_connection :
    {B : Type 0} → (ℕ → String) → AsaFirewall → Ipv4Packet B → Int64 → AsaFirewall
with_connection rune a ip sim_time = record a {
  conn_table = put a.conn_table (conn_key rune ip) (record {
    src_ip = ip.source_ip;
    dst_ip = ip.destination_ip;
    protocol = ip.protocol;
    expires_at = add64 sim_time conn_lifetime;
  });
}

inspect_packet-new :
    {B : Type 0} (net : Net) (rune : ℕ → String) (a : AsaFirewall) (in_port : String)
    (ip : Ipv4Packet B) (sim_time : Int64)
    → a.inspection_on ≡ true
    → is_live sim_time (get a.conn_table (conn_key rune ip)) ≡ false
    → evaluate_rules net a ip (zone_of (get a.interface_zone in_port)) ≡ true
    → inspect_packet net rune a in_port ip sim_time ≡ (with_connection rune a ip sim_time, true)
unfolding inspect_packet
inspect_packet-new net rune a in_port ip sim_time on new permitted = rw (new, permitted, on) refl

inspect_packet-live :
    {B : Type 0} (net : Net) (rune : ℕ → String) (a : AsaFirewall) (in_port : String)
    (ip : Ipv4Packet B) (sim_time : Int64)
    → is_live sim_time (get a.conn_table (conn_key rune ip)) ≡ true
    → (inspect_packet net rune a in_port ip sim_time).1 ≡ true
unfolding inspect_packet
inspect_packet-live net rune a in_port ip sim_time live = rw live refl

-- With inspection on, when the rules permit a packet that has no live connection, then each packet
-- with its addresses and protocol that comes in the 30 minutes after it passes too, at any port and
-- whatever rules are added in between; the clock does not overflow.
pub inspect_packet-established :
    {B : Type 0} (net : Net) (rune : ℕ → String) (a : AsaFirewall) (in_port later_port : String)
    (ip later : Ipv4Packet B) (rules : List AclRule) (sim_time later_time : Int64)
    → a.inspection_on ≡ true
    → is_live sim_time (get a.conn_table (conn_key rune ip)) ≡ false
    → evaluate_rules net a ip (zone_of (get a.interface_zone in_port)) ≡ true
    → conn_key rune later ≡ conn_key rune ip
    → later_time < sim_time + conn_lifetime
    → sim_time + conn_lifetime < 2 ^ 63
    → let after = inspect_packet net rune a in_port ip sim_time in
      (after.1 ≡ true)
      × ((inspect_packet net rune (add_rules after.0 rules) later_port later later_time).1 ≡ true)
inspect_packet-established net rune a in_port later_port ip later rules sim_time later_time on new
      permitted same early fits =
    let after = with_connection rune a ip sim_time in
    let key = conn_key rune ip in
    let found = get-put a.conn_table key key (record {
      src_ip = ip.source_ip;
      dst_ip = ip.destination_ip;
      protocol = ip.protocol;
      expires_at = add64 sim_time conn_lifetime;
    }) in
    let live : is_live later_time (get (add_rules after rules).conn_table (conn_key rune later))
        ≡ true =
      rw (conn_table-add_rules after rules, same, found, beq_refl key) ground arith in
    rw (inspect_packet-new net rune a in_port ip sim_time on new permitted)
      (refl, inspect_packet-live net rune (add_rules after rules) later_port later later_time live)
