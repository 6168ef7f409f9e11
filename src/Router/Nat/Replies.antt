-- ===== src/Router/Nat/Replies.antt =====
-- Which inside host a reply to a translated packet reaches.
use netforge.Pdu.{Ipv4Packet}
use netforge.Prelude.{
  String, ◌≡◌, refl, ap, Bool, true, none, some, List, [], ◌∷◌, arith, ◌==◌, string_eq, Bool-cases,
  inl, inr, beq_refl,
}
use netforge.Prelude.GoMap.{GoMap, get, put}
use text.Mathlib.TextEquality.{eq_iff}
use netforge.Router.Nat.{
  NatEntry, NatTable, NatRouter, is_outside, static_out, static_in, pat_in, overload_out,
  pick_outside_ip, translate_outbound, translate_inbound, with_destination, ip_or, outside_ip,
  first_ip, is_true,
}

-- The static entries as AddStaticNAT writes them, no two with one global address.
abbrev pub IsOneToOne : List NatEntry → Type 0
IsOneToOne [] = Unit
IsOneToOne (e ∷ es) =
    (static_in es e.inside_global ≡ none) × (e.outside_global ≡ e.inside_global) × IsOneToOne es

static_in-static_out :
    (es : List NatEntry) (src : String) (entry : NatEntry)
    → IsOneToOne es
    → static_out es src ≡ some entry
    → (static_in es entry.inside_global ≡ some entry) × (entry.inside_local ≡ src)
unfolding static_in static_out
static_in-static_out [] src entry u h = ground (arith, h)
static_in-static_out (e ∷ es) src entry u h = ground (
  arith,
  static_in-static_out es src entry u.2,
  eq_iff e.inside_local src,
  eq_iff e.inside_global entry.inside_global,
  eq_iff e.outside_global entry.inside_global,
  ap (λ t. static_in es t),
)

-- A reply to the global address that a static translation gave a packet is sent to the packet's own
-- source, where no two static entries share a global address.
pub translate_inbound-translate_outbound :
    {B : Type 0} (r : NatRouter) (port_id : String) (ip reply : Ipv4Packet B) (table : NatTable)
    (entry : NatEntry)
    → r.nat ≡ some table
    → is_outside r port_id ≡ true
    → IsOneToOne table.static
    → static_out table.static ip.source_ip ≡ some entry
    → let sent = translate_outbound r port_id ip in
      translate_inbound sent.0 port_id (with_destination reply sent.1.source_ip)
      ≡ with_destination reply ip.source_ip
unfolding translate_inbound translate_outbound
translate_inbound-translate_outbound r port_id ip reply table entry has outside one found =
    let back = static_in-static_out table.static ip.source_ip entry one found in
    rw (has, translate_outbound)
      (rw (outside, found) (rw (has, translate_inbound) (rw (outside, back.0, back.1) refl)))

-- Under overload, with no static entry and nothing translated yet, any two packets leave with one
-- source address, and each reply to it is sent to the source of the first packet, whichever of
-- them it answers.
pub translate_inbound-overload :
    {B : Type 0} (interfaces : GoMap String String) (outside : GoMap String Bool) (port_id : String)
    (first second reply : Ipv4Packet B)
    → is_true (get outside port_id) ≡ true
    → let r : NatRouter = record {
      interfaces = interfaces;
      nat_outside = outside;
      nat = some (record { overload = true; static = []; pat = [] });
    } in
      let sent = translate_outbound r port_id first in
      let sent' = translate_outbound sent.0 port_id second in
      (sent'.1.source_ip ≡ sent.1.source_ip)
      × (translate_inbound sent'.0 port_id (with_destination reply sent'.1.source_ip)
          ≡ with_destination reply first.source_ip)
unfolding translate_inbound translate_outbound static_out static_in pat_in overload_out get put
    pick_outside_ip
translate_inbound-overload interfaces outside port_id first second reply h =
    let global = ip_or (outside_ip outside interfaces) (first_ip interfaces) in
    elim (Bool-cases (first.source_ip == second.source_ip)) [
      | inl same ↦ ground (arith, h, same, beq_refl global)
      | inr apart ↦ ground (arith, h, apart, beq_refl global)
    ]
