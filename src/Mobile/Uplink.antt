-- ===== src/Mobile/Uplink.antt =====
-- How a handset attaches to a gateway and what it can send then
-- (src-tauri/engine/network/mobile.go and mobile_5g.go): AttachMobileUE, Attach5GNRUE and
-- SendIPFromUE of the manager.
use mathlib.Core.Option.{some-injective}
use netforge.Mobile.{CellularGateway, MobileUe, attach, attach_5g_nr, connect_5g_nr, cellular_port}
use netforge.Prelude.{
  ◌≡◌, refl, sym, ap, ◌∙◌, Bool-cases, Option-cases, inl, inr, beq-eq_true, String, false, ◌||◌,
  not, Option, none, some, [], ◌∷◌, ◌==◌, string_eq, beq_refl, if◌then◌else◌, Result, ok, err,
}
use netforge.Prelude.Int64.{Int64}
use netforge.Prelude.GoMap.{GoMap, get, put, get-put}

-- The two maps of the manager.
pub record Cellular : Type 0 where
  pub mobile_ues : GoMap String MobileUe
  pub cellular_gateways : GoMap String CellularGateway

pub data UeError : Type 0 where
  device_not_found : String → UeError
  not_attached : String → UeError

unfoldable pub attach_mobile_ue : Cellular → String → String → String → Result UeError Cellular
attach_mobile_ue m ue_id gateway_id ip = elim (get m.mobile_ues ue_id) [
  | none ↦ err (device_not_found ue_id)
  | some ue ↦ elim (get m.cellular_gateways gateway_id) [
    | none ↦ err (device_not_found gateway_id)
    | some gw ↦ ok (record {
      mobile_ues = put m.mobile_ues ue_id (attach ue gateway_id ip);
      cellular_gateways =
          put m.cellular_gateways gateway_id (record gw { ue_table = put gw.ue_table ip ue_id });
    })
  ]
]

unfoldable pub attach_5g_nr_ue :
    Cellular → String → String → String → String → Int64 → Result UeError Cellular
attach_5g_nr_ue m ue_id gateway_id ip band arfcn = elim (get m.mobile_ues ue_id) [
  | none ↦ err (device_not_found ue_id)
  | some ue ↦ elim (get m.cellular_gateways gateway_id) [
    | none ↦ err (device_not_found gateway_id)
    | some gw ↦ ok (record {
      mobile_ues = put m.mobile_ues ue_id (attach_5g_nr ue gateway_id ip band arfcn);
      cellular_gateways =
          put m.cellular_gateways gateway_id (connect_5g_nr gw gw.carrier gw.apn gw.public_ip);
    })
  ]
]

-- The loop of forwardIPThroughGateway: the first port that is not the cellular one, with its
-- hardware address.
unfoldable pub wired_port : GoMap String String → Option (String × String)
wired_port [] = none
wired_port ((port_id, mac) ∷ rest) =
    if not (port_id == cellular_port) then some (port_id, mac) else wired_port rest

-- What goes out of the gateway, before the frame is encoded: the gateway, its port, the hardware address
-- and the two addresses of the echo request.
pub record UplinkSend : Type 0 where
  pub gateway_id : String
  pub port : String
  pub source_mac : String
  pub source_ip : String
  pub destination_ip : String

-- forwardIPThroughGateway: a gateway without a wired port, or whose port has the name "", sends nothing.
unfoldable pub forward_ip_through_gateway : CellularGateway → String → String → Option UplinkSend
unfolding wired_port
forward_ip_through_gateway gw source_ip dest_ip = elim (wired_port gw.interface_mac) [
  | none ↦ none
  | some (port_id, mac) ↦
      if port_id == ""
      then none
      else some (record {
        gateway_id = gw.id;
        port = port_id;
        source_mac = mac;
        source_ip = source_ip;
        destination_ip = dest_ip;
      })
]

unfoldable pub send_ip_from_ue : Cellular → String → String → Result UeError (Option UplinkSend)
unfolding forward_ip_through_gateway
send_ip_from_ue m ue_id dest_ip = elim (get m.mobile_ues ue_id) [
  | none ↦ err (device_not_found ue_id)
  | some ue ↦
      if not ue.registered || ue.gateway_id == ""
      then err (not_attached ue_id)
      else elim (get m.cellular_gateways ue.gateway_id) [
        | none ↦ err (device_not_found ue.gateway_id)
        | some gw ↦ ok (forward_ip_through_gateway gw ue.ip dest_ip)
      ]
]

-- What leaves a gateway with these ports for an address.
abbrev pub sent_by : String → GoMap String String → String → String → Option UplinkSend
sent_by gateway_id [] ip dest_ip = none
sent_by gateway_id ((port_id, mac) ∷ rest) ip dest_ip =
    if port_id == cellular_port
    then sent_by gateway_id rest ip dest_ip
    else if port_id == ""
    then none
    else some (record {
      gateway_id = gateway_id;
      port = port_id;
      source_mac = mac;
      source_ip = ip;
      destination_ip = dest_ip;
    })

-- The port that a loop finds, as what leaves by it.
abbrev send_by_port : String → String → String → Option (String × String) → Option UplinkSend
send_by_port gateway_id ip dest_ip none = none
send_by_port gateway_id ip dest_ip (some (port_id, mac)) =
    if port_id == ""
    then none
    else some (record {
      gateway_id = gateway_id;
      port = port_id;
      source_mac = mac;
      source_ip = ip;
      destination_ip = dest_ip;
    })

wired_port-sent_by :
    (gateway_id : String) (macs : GoMap String String) (ip dest_ip : String)
    → send_by_port gateway_id ip dest_ip (wired_port macs) ≡ sent_by gateway_id macs ip dest_ip
unfolding wired_port
wired_port-sent_by gateway_id [] ip dest_ip = refl
wired_port-sent_by gateway_id ((port_id, mac) ∷ rest) ip dest_ip =
    elim (Bool-cases (port_id == cellular_port)) [
      | inl cellular ↦ rw cellular (wired_port-sent_by gateway_id rest ip dest_ip)
      | inr wired ↦ rw wired refl
    ]

forward_ip-sent_by :
    (gw : CellularGateway) (ip dest_ip : String)
    → forward_ip_through_gateway gw ip dest_ip ≡ sent_by gw.id gw.interface_mac ip dest_ip
unfolding forward_ip_through_gateway
forward_ip-sent_by gw ip dest_ip =
    (elim (Option-cases (wired_port gw.interface_mac)) [
      | inl e ↦ rw (e, forward_ip_through_gateway) refl
      | inr ((port_id, mac), e) ↦ rw (e, forward_ip_through_gateway) refl
    ])
    ∙ wired_port-sent_by gw.id gw.interface_mac ip dest_ip

-- A gateway has its name and its ports after a handset attaches to one.
gateway-attach :
    (gateways : GoMap String CellularGateway) (lte_id nr_id lte_ip ue_id : String)
    (lte_gw nr_gw : CellularGateway)
    → get gateways lte_id ≡ some lte_gw
    → get gateways nr_id ≡ some nr_gw
    → (gw : CellularGateway) × (get
          (put gateways lte_id (record lte_gw { ue_table = put lte_gw.ue_table lte_ip ue_id }))
          nr_id
        ≡ some gw)
      × (gw.id ≡ nr_gw.id)
      × (gw.interface_mac ≡ nr_gw.interface_mac)
gateway-attach gateways lte_id nr_id lte_ip ue_id lte_gw nr_gw has_lte has_nr =
    let gw1 = record lte_gw { ue_table = put lte_gw.ue_table lte_ip ue_id } in
    elim (Bool-cases (lte_id == nr_id)) [
      | inl one ↦
          let q : some lte_gw ≡ some nr_gw =
            sym has_lte ∙ ap (get gateways) (beq-eq_true lte_id nr_id one) ∙ has_nr in
          let same = some-injective lte_gw nr_gw q in
          (
            gw1,
            get-put gateways lte_id nr_id gw1 ∙ rw one refl,
            ap (λ g. g.id) same,
            ap (λ g. g.interface_mac) same,
          )
      | inr two ↦ (nr_gw, get-put gateways lte_id nr_id gw1 ∙ rw two has_nr, refl, refl)
    ]

-- A handset that is not registered and attaches by LTE to one gateway is attached, but what it sends is
-- refused. After it attaches by 5G, to the same gateway or to another one, it sends with the address of
-- this attachment through the gateway of this attachment, from the first port that is not the cellular
-- one, and nothing, without an error, where that gateway has no such port. The handset and the gateways
-- exist, and the name of the second is not empty.
pub send_ip_from_ue-attach :
    (m : Cellular) (ue_id lte_id nr_id lte_ip nr_ip dest_ip band : String) (arfcn : Int64)
    (ue : MobileUe) (lte_gw nr_gw : CellularGateway)
    → get m.mobile_ues ue_id ≡ some ue
    → get m.cellular_gateways lte_id ≡ some lte_gw
    → get m.cellular_gateways nr_id ≡ some nr_gw
    → ue.registered ≡ false
    → (nr_id == "") ≡ false
    → (lte : Cellular) × (nr : Cellular) × (attach_mobile_ue m ue_id lte_id lte_ip ≡ ok lte)
      × (send_ip_from_ue lte ue_id dest_ip ≡ err (not_attached ue_id))
      × (attach_5g_nr_ue lte ue_id nr_id nr_ip band arfcn ≡ ok nr)
      × (send_ip_from_ue nr ue_id dest_ip ≡ ok (sent_by nr_gw.id nr_gw.interface_mac nr_ip dest_ip))
unfolding attach_mobile_ue attach_5g_nr_ue send_ip_from_ue attach attach_5g_nr connect_5g_nr
send_ip_from_ue-attach m ue_id lte_id nr_id lte_ip nr_ip dest_ip band arfcn ue lte_gw nr_gw has_ue
      has_lte has_nr idle named =
    let ue1 = attach ue lte_id lte_ip in
    let gw1 = record lte_gw { ue_table = put lte_gw.ue_table lte_ip ue_id } in
    let ues1 = put m.mobile_ues ue_id ue1 in
    let gws1 = put m.cellular_gateways lte_id gw1 in
    let found1 : get ues1 ue_id ≡ some ue1 =
      get-put m.mobile_ues ue_id ue_id ue1 ∙ rw (beq_refl ue_id) refl in
    let (gw, gate1, same_id, same_macs) =
      gateway-attach m.cellular_gateways lte_id nr_id lte_ip ue_id lte_gw nr_gw has_lte has_nr in
    let ue2 = attach_5g_nr ue1 nr_id nr_ip band arfcn in
    let gw2 = connect_5g_nr gw gw.carrier gw.apn gw.public_ip in
    let ues2 = put ues1 ue_id ue2 in
    let gws2 = put gws1 nr_id gw2 in
    let found2 : get ues2 ue_id ≡ some ue2 =
      get-put ues1 ue_id ue_id ue2 ∙ rw (beq_refl ue_id) refl in
    let gate2 : get gws2 nr_id ≡ some gw2 =
      get-put gws1 nr_id nr_id gw2 ∙ rw (beq_refl nr_id) refl in
    (
      record { mobile_ues = ues1; cellular_gateways = gws1 },
      record { mobile_ues = ues2; cellular_gateways = gws2 },
      rw (has_ue, has_lte, attach_mobile_ue) refl,
      rw (found1, idle, send_ip_from_ue) refl,
      rw (found1, gate1, attach_5g_nr_ue) refl,
      rw (found2, named, gate2, send_ip_from_ue)
          (ap ok (
            forward_ip-sent_by gw2 nr_ip dest_ip
            ∙ ap (λ i. sent_by i gw.interface_mac nr_ip dest_ip) same_id
            ∙ ap (λ macs. sent_by nr_gw.id macs nr_ip dest_ip) same_macs)),
    )
