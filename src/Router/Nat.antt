-- ===== src/Router/Nat.antt =====
-- Address translation (src-tauri/engine/network/router_services.go): what TranslateOutbound and
-- TranslateInbound do to a packet, and the configuration they read. `r.NAT == nil` is none. Of a
-- NATEntry the fields that no code reads are left out, and of the table the dynamic entries and the
-- next port, which no code writes.
pub mod Replies
use netforge.Pdu.{Ipv4Packet}
use netforge.Prelude.{
  ℕ, String, Bool, true, false, ◌&&◌, ◌||◌, not, Option, none, some, List, [], ◌∷◌, ◌++◌, ◌==◌,
  string_eq, if◌then◌else◌,
}
use netforge.Prelude.GoMap.{GoMap, get, put}

pub record NatEntry : Type 0 where
  pub inside_local : String
  pub inside_global : String
  pub outside_global : String

pub record NatTable : Type 0 where
  pub overload : Bool
  pub static : List NatEntry
  pub pat : GoMap String NatEntry

-- The interface policies that the translation reads: NATOutside by port.
pub record NatRouter : Type 0 where
  pub interfaces : GoMap String String
  pub nat_outside : GoMap String Bool
  pub nat : Option NatTable

unfoldable pub new_nat_table : NatTable
new_nat_table = record { overload = false; static = []; pat = [] }

abbrev pub table_of : Option NatTable → NatTable
table_of none = record { overload = false; static = []; pat = [] }
table_of (some table) = table

abbrev pub is_true : Option Bool → Bool
is_true none = false
is_true (some b) = b

abbrev pub is_outside : NatRouter → String → Bool
is_outside r port_id = is_true (get r.nat_outside port_id)

unfoldable pub add_static_nat : NatRouter → String → String → NatRouter
add_static_nat r inside_local inside_global =
    let table = table_of r.nat in
    let entry : NatEntry = record {
      inside_local = inside_local;
      inside_global = inside_global;
      outside_global = inside_global;
    } in
    record r { nat = some (record table { static = table.static ++ entry ∷ [] }) }

unfoldable pub enable_nat_overload : NatRouter → String → NatRouter
enable_nat_overload r outside_port = record r {
  nat = some (record (table_of r.nat) { overload = true });
  nat_outside = put r.nat_outside outside_port true;
}

unfoldable pub mark_nat_outside : NatRouter → String → NatRouter
mark_nat_outside r port_id = record r { nat_outside = put r.nat_outside port_id true }

-- The first loop of pickOutsideIPLocked.
unfoldable pub outside_ip : GoMap String Bool → GoMap String String → Option String
outside_ip outside [] = none
outside_ip outside ((port_id, ip) ∷ interfaces) =
    if is_true (get outside port_id) then some ip else outside_ip outside interfaces

-- The second loop.
abbrev pub first_ip : GoMap String String → String
first_ip [] = "0.0.0.0"
first_ip ((port_id, ip) ∷ _) = ip

abbrev pub ip_or : Option String → String → String
ip_or none ip = ip
ip_or (some ip) _ = ip

unfoldable pub pick_outside_ip : NatRouter → String
unfolding outside_ip
pick_outside_ip r = ip_or (outside_ip r.nat_outside r.interfaces) (first_ip r.interfaces)

-- The first static entry of an inside address.
unfoldable pub static_out : List NatEntry → String → Option NatEntry
static_out [] src = none
static_out (entry ∷ entries) src =
    if entry.inside_local == src then some entry else static_out entries src

unfoldable pub static_in : List NatEntry → String → Option NatEntry
static_in [] dst = none
static_in (entry ∷ entries) dst =
    if entry.inside_global == dst || entry.outside_global == dst
    then some entry
    else static_in entries dst

unfoldable pub pat_in : GoMap String NatEntry → String → Option NatEntry
pat_in [] dst = none
pat_in ((key, entry) ∷ entries) dst =
    if entry.outside_global == dst then some entry else pat_in entries dst

module _ {B : Type 0} where
  abbrev pub with_source : Ipv4Packet B → String → Ipv4Packet B
  with_source ip source = record ip { source_ip = source }

  abbrev pub with_destination : Ipv4Packet B → String → Ipv4Packet B
  with_destination ip destination = record ip { destination_ip = destination }

  -- Behind the static entries.
  unfoldable pub overload_out : NatRouter → NatTable → Ipv4Packet B → NatRouter × Ipv4Packet B
  unfolding pick_outside_ip
  overload_out r table ip =
      let global_ip = pick_outside_ip r in
      let entry : NatEntry = record {
        inside_local = ip.source_ip;
        inside_global = global_ip;
        outside_global = global_ip;
      } in
      if not table.overload then (r, ip) else elim (get table.pat ip.source_ip) [
        | some known ↦ (r, with_source ip known.outside_global)
        | none ↦ (
          record r { nat = some (record table { pat = put table.pat ip.source_ip entry }) },
          with_source ip global_ip,
        )
      ]

  unfoldable pub translate_outbound : NatRouter → String → Ipv4Packet B → NatRouter × Ipv4Packet B
  unfolding static_out overload_out
  translate_outbound r port_id ip = elim r.nat [
    | none ↦ (r, ip)
    | some table ↦
        if not (is_outside r port_id)
        then (r, ip)
        else elim (static_out table.static ip.source_ip) [
          | some entry ↦ (r, with_source ip entry.inside_global)
          | none ↦ overload_out r table ip
        ]
  ]

  abbrev pub inside_of : Ipv4Packet B → Option NatEntry → Option NatEntry → Ipv4Packet B
  inside_of ip (some entry) _ = with_destination ip entry.inside_local
  inside_of ip none (some entry) = with_destination ip entry.inside_local
  inside_of ip none none = ip

  unfoldable pub translate_inbound : NatRouter → String → Ipv4Packet B → Ipv4Packet B
  unfolding static_in pat_in
  translate_inbound r port_id ip = elim r.nat [
    | none ↦ ip
    | some table ↦
        if not (is_outside r port_id)
        then ip
        else inside_of ip (static_in table.static ip.destination_ip)
            (pat_in table.pat ip.destination_ip)
  ]
