-- ===== src/Router/Acl.antt =====
-- Access lists (src-tauri/engine/network/router_services.go): the rules of a router by the name of
-- their list. Of a list the code below reads the rules only; its name is its key and its number is
-- never set.
pub mod Order
use netforge.Net.{Net}
use netforge.Pdu.{Ipv4Packet, proto_icmp}
use netforge.Prelude.{
  ℕ, String, Bool, true, false, ◌&&◌, ◌||◌, not, Option, none, some, List, [], ◌∷◌, ◌++◌, ◌==◌,
  string_eq, nat_eq, if◌then◌else◌,
}
use netforge.Prelude.Int64.{Int64}
use netforge.Prelude.GoMap.{GoMap, get, put}

pub record AclRule : Type 0 where
  pub action : String
  pub protocol : String
  pub src_net : String
  pub dst_net : String
  pub src_port : Int64
  pub dst_port : Int64

abbrev pub Acls : Type 0
Acls = GoMap String (List AclRule)

abbrev pub rules_of : Option (List AclRule) → List AclRule
rules_of none = []
rules_of (some rules) = rules

unfoldable pub add_acl_rule : Acls → String → AclRule → Acls
add_acl_rule acls acl_name rule = put acls acl_name (rules_of (get acls acl_name) ++ rule ∷ [])

unfoldable pub match_acl_net : Net → String → String → Bool
match_acl_net net cidr ip =
    if cidr == "" || cidr == "any" then true else elim (net.parse_cidr cidr) [
      | none ↦ ip == cidr
      | some ip_net ↦ net.contains ip_net (net.parse_ip ip)
    ]

module _ {B : Type 0} where
  abbrev pub acl_protocol : Ipv4Packet B → String
  acl_protocol ip = if ip.protocol == proto_icmp then "icmp" else "ip"

  -- None of the three `continue`s is taken.
  unfoldable pub rule_matches : Net → Ipv4Packet B → AclRule → Bool
  rule_matches net ip rule =
      (rule.protocol == "ip" || rule.protocol == acl_protocol ip)
      && match_acl_net net rule.src_net ip.source_ip
      && match_acl_net net rule.dst_net ip.destination_ip

  unfoldable pub first_match : Net → Ipv4Packet B → List AclRule → Bool
  first_match net ip [] = false
  first_match net ip (rule ∷ rules) =
      if rule_matches net ip rule then rule.action == "permit" else first_match net ip rules

  abbrev pub evaluate_rules : Net → Ipv4Packet B → List AclRule → Bool
  evaluate_rules net ip [] = true
  evaluate_rules net ip (rule ∷ rules) = first_match net ip (rule ∷ rules)

  unfoldable pub evaluate_acl : Net → Acls → String → Ipv4Packet B → Bool
  unfolding first_match
  evaluate_acl net acls acl_name ip =
      if acl_name == "" then true else evaluate_rules net ip (rules_of (get acls acl_name))
