-- ===== src/Switch/Forward/Isolation.antt =====
-- Frames stay inside their VLAN.
use text.Mathlib.TextEquality.{eq_iff}
use mathlib.Core.Path.{subst}
use mathlib.Core.Option.{some-injective}
use netforge.Prelude.{
  ℕ, ◌≡◌, ◌≢◌, refl, sym, ◌∙◌, ap, ◌⊎◌, inl, inr, String, true, false, Option, none, some, arith,
  List, [], ◌∷◌, All, In, here, there, any, ◌==◌, nat_eq, string_eq, Bool-cases, Option-cases,
}
use netforge.Prelude.Int64.{Int64}
use netforge.Prelude.GoMap.{GoMap, get, put, IsUnique, values, All-put, All-get}
use netforge.Pdu.{WireFrame, mac_broadcast}
use netforge.Switch.{
  MacTableEntry, MacTableKey, mac_table_key_eq, PortMode, access, trunk, SwitchPortConfig, Switch,
}
use netforge.Switch.Forward.Flood.{passed_to, get-flood_vlan_passed}
use netforge.Switch.Forward.{
  ingress_vlan, egress_frame, egress_by_mode, is_allowed, is_open, put_some, flood_port, flood_vlan,
  learn, deliver, forward, handle_incoming_frame,
}

-- The port carries the VLAN.
abbrev pub MemberByMode : PortMode → SwitchPortConfig → ℕ → Type 0
MemberByMode trunk cfg vlan = (cfg.allowed_vlans ≡ []) ⊎ In vlan cfg.allowed_vlans
MemberByMode access cfg vlan = cfg.access_vlan ≡ vlan

abbrev pub IsMember : SwitchPortConfig → ℕ → Type 0
IsMember cfg vlan = MemberByMode cfg.mode cfg vlan

any-In : (vlan : ℕ) (vs : List ℕ) → any (λ v. v == vlan) vs ≡ true → In vlan vs
any-In vlan [] h = absurd (cc)
any-In vlan (v ∷ vs) h = elim (Bool-cases (v == vlan)) [
  | inl same ↦ here (ground arith)
  | inr other ↦ there (any-In vlan vs (ground arith))
]

allowed-Member :
    (allowed : List ℕ) (cfg : SwitchPortConfig) (vlan : ℕ)
    → cfg.allowed_vlans ≡ allowed
    → is_allowed cfg vlan ≡ true
    → (cfg.allowed_vlans ≡ []) ⊎ In vlan cfg.allowed_vlans
allowed-Member [] cfg vlan p h = inl p
allowed-Member (v ∷ vs) cfg vlan p h = inr (any-In vlan cfg.allowed_vlans (ground arith))

egress_by_mode-IsMember :
    (mode : PortMode) (cfg : SwitchPortConfig) (vlan : ℕ) (wire w : WireFrame)
    → egress_by_mode mode cfg vlan wire ≡ some w
    → MemberByMode mode cfg vlan
egress_by_mode-IsMember trunk cfg vlan wire w h =
    allowed-Member cfg.allowed_vlans cfg vlan refl (ground arith)
egress_by_mode-IsMember access cfg vlan wire w h = ground arith

-- A frame leaves by a port only if the port carries its VLAN.
egress_frame-IsMember :
    (cfg : SwitchPortConfig) (vlan : ℕ) (wire w : WireFrame)
    → egress_frame (some cfg) vlan wire ≡ some w
    → IsMember cfg vlan
unfolding egress_frame
egress_frame-IsMember cfg vlan wire w h = egress_by_mode-IsMember cfg.mode cfg vlan wire w h

-- A frame of a VLAN other than 0 that leaves by a port is read as a frame of the same VLAN by a
-- port that is configured in the same way.
pub ingress_vlan-egress_frame :
    (cfg : SwitchPortConfig) (vlan : ℕ) (wire w : WireFrame)
    → egress_frame (some cfg) vlan wire ≡ some w
    → vlan ≢ 0
    → ingress_vlan (some cfg) w.frame ≡ vlan
unfolding egress_frame ingress_vlan
ingress_vlan-egress_frame cfg vlan wire w h nz = ground arith

-- The ports are unique, and the table names ports that the switch has.
pub record IsWellFormed (sw : Switch) : Type 0 where
  pub unique : IsUnique sw.ports
  pub known : All (λ entry. get sw.ports entry.port_id ≢ none) (values sw.mac_table)

-- The switch learns from frames on ports that it has.
pub handle_incoming_frame-IsWellFormed :
    (sw : Switch) (p : String) (wire : WireFrame) (sim_time : Int64)
    → IsWellFormed sw
    → IsWellFormed (handle_incoming_frame sw p wire sim_time).0
unfolding handle_incoming_frame
handle_incoming_frame-IsWellFormed sw p wire sim_time v = elim (Option-cases (get sw.ports p)) [
  | inl unknown ↦ rw unknown v
  | inr (cfg, held) ↦ elim (Bool-cases (is_open sw p (some cfg))) [
    | inl open_ ↦
        rw (held, open_)
          (record {
            unique = v.unique;
            known =
                All-put (λ entry. get sw.ports entry.port_id ≢ none) sw.mac_table _ _ v.known
                  (λ e. cc (e, held));
          })
    | inr shut ↦ rw (held, shut) v
  ]
]

-- What reaches a port is let through by the configuration of that port, and is not sent back.
abbrev pub IsSentTo : Switch → String → ℕ → WireFrame → String → WireFrame → Type 0
IsSentTo sw p vlan wire q w =
    (q ≢ p)
    × ((cfg : SwitchPortConfig) × (get sw.ports q ≡ some cfg)
        × (egress_frame (some cfg) vlan wire ≡ some w))

flood_port-some :
    (sw : Switch) (p : String) (vlan : ℕ) (wire w : WireFrame) (q : String) (cfg : SwitchPortConfig)
    → flood_port sw p vlan wire q cfg ≡ some w
    → ((q == p) ≡ false) × (egress_frame (some cfg) vlan wire ≡ some w)
unfolding flood_port
flood_port-some sw p vlan wire w q cfg h = ground arith

flood_vlan-IsSentTo :
    (sw : Switch) (p : String) (vlan : ℕ) (wire w : WireFrame) (q : String)
    → IsUnique sw.ports
    → get (flood_vlan sw p vlan wire) q ≡ some w
    → IsSentTo sw p vlan wire q w
flood_vlan-IsSentTo sw p vlan wire w q u h =
    let spec = get-flood_vlan_passed sw p vlan wire q u in
    elim (Option-cases (get sw.ports q)) [
      | inl unknown ↦ cc (h, spec, ap (passed_to sw p vlan wire q) unknown)
      | inr (cfg, held) ↦
          let sent : flood_port sw p vlan wire q cfg ≡ some w =
            cc (h, spec, ap (passed_to sw p vlan wire q) held) in
          let (ne, e) = flood_port-some sw p vlan wire w q cfg sent in
          (λ eq. cc ((eq_iff q p).1 eq, ne), (cfg, held, e))
    ]

-- The one port that a known destination is sent to.
put_some-nil :
    (port q : String) (o : Option WireFrame) (w : WireFrame)
    → get (put_some [] port o) q ≡ some w
    → (port ≡ q) × (o ≡ some w)
unfolding get put
put_some-nil port q none w h = cc
put_some-nil port q (some x) w h = ground (arith, eq_iff port q)

deliver-IsSentTo :
    (sw : Switch) (p : String) (vlan : ℕ) (wire w : WireFrame) (q : String)
    (o : Option MacTableEntry)
    → IsUnique sw.ports
    → ((entry : MacTableEntry) → o ≡ some entry → get sw.ports entry.port_id ≢ none)
    → get (deliver sw p vlan wire o) q ≡ some w
    → IsSentTo sw p vlan wire q w
unfolding deliver get
deliver-IsSentTo sw p vlan wire w q none u k h = flood_vlan-IsSentTo sw p vlan wire w q u h
deliver-IsSentTo sw p vlan wire w q (some entry) u k h = elim (Bool-cases (entry.port_id == p)) [
  | inl back ↦ cc (rw back at h)
  | inr away ↦
      let (same, sent) =
        put_some-nil entry.port_id q (egress_frame (get sw.ports entry.port_id) vlan wire) w
          (rw away at h) in
      elim (Option-cases (get sw.ports q)) [
        | inl unknown ↦ absurd (k entry refl (cc (ap (get sw.ports) same, unknown)))
        | inr (cfg, held) ↦ (
          λ eq. cc ((eq_iff entry.port_id p).1 (same ∙ eq), away),
          (
            cfg,
            held,
            cc (
              sent,
              ap (λ x. egress_frame (get sw.ports x) vlan wire) same,
              ap (λ x. egress_frame x vlan wire) held,
            ),
          ),
        )
      ]
]

forward-IsSentTo :
    (sw : Switch) (p : String) (vlan : ℕ) (wire w : WireFrame) (q : String)
    → IsWellFormed sw
    → get (forward sw p vlan wire) q ≡ some w
    → IsSentTo sw p vlan wire q w
unfolding forward
forward-IsSentTo sw p vlan wire w q v h =
    let key : MacTableKey = record { vlan = vlan; mac = wire.frame.destination_mac } in
    elim (Bool-cases (wire.frame.destination_mac == mac_broadcast)) [
      | inl all ↦ flood_vlan-IsSentTo sw p vlan wire w q v.unique (rw all at h)
      | inr one ↦
          deliver-IsSentTo sw p vlan wire w q (get sw.mac_table key) v.unique
            (λ entry e. All-get _ sw.mac_table key entry v.known e) (rw one at h)
    ]

sent_to :
    (sw : Switch) (p q : String) (wire w : WireFrame) (sim_time : Int64)
    (out : GoMap String WireFrame)
    → IsWellFormed sw
    → (handle_incoming_frame sw p wire sim_time).1 ≡ some out
    → get out q ≡ some w
    → IsSentTo sw p (ingress_vlan (get sw.ports p) wire.frame) wire q w
unfolding handle_incoming_frame
sent_to sw p q wire w sim_time out v h g =
    let vlan = ingress_vlan (get sw.ports p) wire.frame in
    let sw' = learn sw vlan wire.frame.source_mac p sim_time in
    elim (Bool-cases (is_open sw p (get sw.ports p))) [
      | inr shut ↦ cc (rw shut at h)
      | inl open_ ↦
          let e : some (forward sw' p vlan wire) ≡ some out = rw open_ at h in
          forward-IsSentTo sw' p vlan wire w q (kept open_)
            (subst (λ x. get x q ≡ some w) (sym (some-injective _ _ e)) g)
    ]
  where
    kept :
        is_open sw p (get sw.ports p) ≡ true
        → IsWellFormed
            (learn sw (ingress_vlan (get sw.ports p) wire.frame) wire.frame.source_mac p sim_time)
    kept open_ = rw open_ at (handle_incoming_frame-IsWellFormed sw p wire sim_time v)

-- A frame of a VLAN other than 0 that a well-formed switch sends out of a port does not go back
-- where it came from, goes to a port that the switch has and that carries the frame's VLAN, and
-- would be read there as a frame of that VLAN.
pub handle_incoming_frame-IsMember :
    (sw : Switch) (p q : String) (wire w : WireFrame) (sim_time : Int64)
    (out : GoMap String WireFrame)
    → IsWellFormed sw
    → (handle_incoming_frame sw p wire sim_time).1 ≡ some out
    → get out q ≡ some w
    → ingress_vlan (get sw.ports p) wire.frame ≢ 0
    → let vlan = ingress_vlan (get sw.ports p) wire.frame in
      (q ≢ p)
      × ((cfg : SwitchPortConfig) × (get sw.ports q ≡ some cfg)
          × IsMember cfg vlan
          × (ingress_vlan (some cfg) w.frame ≡ vlan))
handle_incoming_frame-IsMember sw p q wire w sim_time out v h g nonzero =
    let vlan = ingress_vlan (get sw.ports p) wire.frame in
    let (ne, (cfg, held, sent)) = sent_to sw p q wire w sim_time out v h g in
    (
      ne,
      (
        cfg,
        held,
        egress_frame-IsMember cfg vlan wire w sent,
        ingress_vlan-egress_frame cfg vlan wire w sent nonzero,
      ),
    )
