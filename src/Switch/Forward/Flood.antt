-- ===== src/Switch/Forward/Flood.antt =====
-- What flooding sends to each port.
use text.Mathlib.TextEquality.{eq_iff}
use mathlib.Core.Path.{subst}
use netforge.Prelude.{
  ℕ, ◌≡◌, refl, ap, ◌∙◌, String, Bool, true, false, not, ◌&&◌, Option, none, some, arith, [], ◌∷◌,
  ◌==◌, string_eq, if◌then◌else◌, Bool-cases, inl, inr,
}
use netforge.Prelude.GoMap.{GoMap, get, get-put, IsUnique}
use netforge.Pdu.{WireFrame}
use netforge.Switch.{SwitchPortConfig, Switch}
use netforge.Switch.Forward.{egress_frame, put_some, flood_port, flood_ports, flood_vlan}

abbrev pub or_else : Option WireFrame → Option WireFrame → Option WireFrame
or_else none b = b
or_else (some a) b = some a

module _ (sw : Switch) (ingress_port : String) (vlan : ℕ) (wire : WireFrame) where
  -- What a port is sent, by its configuration and the switch's set of blocked ports.
  abbrev pub flooded_to : String → Option SwitchPortConfig → Option Bool → Option WireFrame
  flooded_to q none blocked = none
  flooded_to q (some cfg) (some true) = none
  flooded_to q (some cfg) _ =
      if cfg.up && not (q == ingress_port) then egress_frame (some cfg) vlan wire else none

  flooded_to-flood_port :
      (q : String) (cfg : SwitchPortConfig) (blocked : Option Bool)
      → get sw.blocked_ports q ≡ blocked
      → flood_port sw ingress_port vlan wire q cfg ≡ flooded_to q (some cfg) blocked
  unfolding flood_port
  flooded_to-flood_port q cfg none h = rw (h, flood_port) ground arith
  flooded_to-flood_port q cfg (some true) h = rw (h, flood_port) ground arith
  flooded_to-flood_port q cfg (some false) h = rw (h, flood_port) ground arith

  -- What the body of the loop sends it.
  abbrev pub passed_to : String → Option SwitchPortConfig → Option WireFrame
  passed_to q none = none
  passed_to q (some cfg) = flood_port sw ingress_port vlan wire q cfg

  flooded_to-passed_to :
      (q : String) (cfg : Option SwitchPortConfig)
      → passed_to q cfg ≡ flooded_to q cfg (get sw.blocked_ports q)
  flooded_to-passed_to q none = refl
  flooded_to-passed_to q (some cfg) = flooded_to-flood_port q cfg (get sw.blocked_ports q) refl

  get-put_some :
      (out : GoMap String WireFrame) (p q : String) (o : Option WireFrame)
      → get (put_some out p o) q ≡ (if p == q then or_else o (get out q) else get out q)
  get-put_some out p q none = ground arith
  get-put_some out p q (some w) = get-put out p q w ∙ ground arith

  flood_port_same :
      (p q : String) (cfg : SwitchPortConfig)
      → (p == q) ≡ true
      → flood_port sw ingress_port vlan wire p cfg ≡ flood_port sw ingress_port vlan wire q cfg
  flood_port_same p q cfg same =
      ap (λ x. flood_port sw ingress_port vlan wire x cfg) ((eq_iff p q).0 same)

  get-flood_ports :
      (ports : GoMap String SwitchPortConfig) (out : GoMap String WireFrame) (q : String)
      → IsUnique ports
      → get (flood_ports sw ingress_port vlan wire ports out) q
        ≡ or_else (passed_to q (get ports q)) (get out q)
  unfolding flood_ports get
  get-flood_ports [] out q u = refl
  get-flood_ports ((p, cfg) ∷ rest) out q u =
      let sent = flood_port sw ingress_port vlan wire p cfg in
      get-flood_ports rest (put_some out p sent) q u.1 ∙ (elim (Bool-cases (p == q)) [
        | inl same ↦
            let gone : get rest q ≡ none =
              subst (λ x. get rest x ≡ none) ((eq_iff p q).0 same) u.0 in
            rw (same, gone)
              (ground (arith, get-put_some out p q sent, flood_port_same p q cfg same))
        | inr other ↦ rw (other, get-put_some out p q sent) (ground arith)
      ])

  pub get-flood_vlan_passed :
      (q : String)
      → IsUnique sw.ports
      → get (flood_vlan sw ingress_port vlan wire) q ≡ passed_to q (get sw.ports q)
  unfolding flood_vlan get
  get-flood_vlan_passed q u = get-flood_ports sw.ports [] q u ∙ ground arith

  -- Flooding sends each port of the switch that is up, not in the set of the blocked ports and not
  -- the port of entry the frame as egressFrame writes it for that port's configuration, where that
  -- lets it through, and nothing to any other port, nor to one that the switch does not have. No port
  -- is twice in the switch's map.
  pub get-flood_vlan :
      (q : String)
      → IsUnique sw.ports
      → get (flood_vlan sw ingress_port vlan wire) q
        ≡ flooded_to q (get sw.ports q) (get sw.blocked_ports q)
  get-flood_vlan q u = get-flood_vlan_passed q u ∙ flooded_to-passed_to q (get sw.ports q)
