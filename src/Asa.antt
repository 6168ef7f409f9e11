-- ===== src/Asa.antt =====
-- The ASA firewall (src-tauri/engine/network/asa.go): its rules, its connection table and the
-- inspection of a packet. Go's conversion `string(rune(p))` of a protocol number is the parameter
-- `rune`, the package `net` is the parameter `net`.
pub mod Stateful
use Prim.Native.String.{◌++◌ as append}
use netforge.Net.{Net}
use netforge.Pdu.{Ipv4Packet}
use netforge.Router.Acl.{AclRule, first_match}
use netforge.Prelude.{
  ℕ, String, Bool, true, false, ◌&&◌, ◌||◌, not, Option, none, some, List, [], ◌∷◌, ◌++◌, ◌==◌,
  string_eq, any, if◌then◌else◌,
}
use netforge.Prelude.Int64.{Int64, add64, lt64}
use netforge.Prelude.GoMap.{GoMap, get, put, values}

-- The ports of a connection are never set.
pub record AsaConnection : Type 0 where
  pub src_ip : String
  pub dst_ip : String
  pub protocol : ℕ
  pub expires_at : Int64

pub record AsaFirewall : Type 0 where
  pub id : String
  pub interfaces : GoMap String String
  pub interface_mac : GoMap String String
  pub interface_mask : GoMap String String
  pub interface_zone : GoMap String String
  pub rules : List AclRule
  pub conn_table : GoMap String AsaConnection
  pub inspection_on : Bool

unfoldable pub new_asa_firewall : String → AsaFirewall
new_asa_firewall id = record {
  id = id;
  interfaces = [];
  interface_mac = [];
  interface_mask = [];
  interface_zone = [];
  rules = [];
  conn_table = [];
  inspection_on = true;
}

unfoldable pub add_interface :
    AsaFirewall → String → String → String → String → String → AsaFirewall
add_interface a port_id ip mask mac zone = record a {
  interfaces = put a.interfaces port_id ip;
  interface_mask = put a.interface_mask port_id mask;
  interface_mac = put a.interface_mac port_id mac;
  interface_zone = put a.interface_zone port_id zone;
}

unfoldable pub add_rule : AsaFirewall → AclRule → AsaFirewall
add_rule a rule = record a { rules = a.rules ++ rule ∷ [] }

unfoldable pub owns_ip : AsaFirewall → String → Bool
owns_ip a ip = any (λ iface_ip. iface_ip == ip) (values a.interfaces)

-- A port without a zone is in zone "".
abbrev pub zone_of : Option String → String
zone_of none = ""
zone_of (some zone) = zone

abbrev pub is_live : Int64 → Option AsaConnection → Bool
is_live sim_time none = false
is_live sim_time (some entry) = lt64 sim_time entry.expires_at

-- 30*time.Minute, in nanoseconds.
abbrev pub conn_lifetime : Int64
conn_lifetime = 1800000000000

module _ {B : Type 0} where
  unfoldable pub conn_key : (ℕ → String) → Ipv4Packet B → String
  conn_key rune ip =
      append ip.source_ip (append "->" (append ip.destination_ip (append "/" (rune ip.protocol))))

  abbrev pub evaluate_some : Net → Ipv4Packet B → String → List AclRule → Bool
  evaluate_some net ip zone [] = not (zone == "outside")
  evaluate_some net ip zone (rule ∷ rules) = first_match net ip (rule ∷ rules)

  unfoldable pub evaluate_rules : Net → AsaFirewall → Ipv4Packet B → String → Bool
  unfolding first_match
  evaluate_rules net a ip zone = evaluate_some net ip zone a.rules

  unfoldable pub inspect_packet :
      Net → (ℕ → String) → AsaFirewall → String → Ipv4Packet B → Int64 → AsaFirewall × Bool
  unfolding conn_key evaluate_rules
  inspect_packet net rune a in_port ip sim_time =
      let key = conn_key rune ip in
      let permitted = evaluate_rules net a ip (zone_of (get a.interface_zone in_port)) in
      if is_live sim_time (get a.conn_table key)
      then (a, true)
      else if permitted && a.inspection_on
      then (
        record a {
          conn_table = put a.conn_table key (record {
            src_ip = ip.source_ip;
            dst_ip = ip.destination_ip;
            protocol = ip.protocol;
            expires_at = add64 sim_time conn_lifetime;
          });
        },
        true,
      )
      else (a, permitted)
