-- ===== src/Topology/Cables.antt =====
-- Which port is at the other end of a cable.
use mathlib.Core.Option.{some-injective}
use netforge.Device.{LinkText}
use netforge.Net.{Net}
use netforge.Topology.{Manager, TopologyLink, is_source, is_target, find_neighbor_on_port, add_link}
use netforge.Prelude.{
  ◌≡◌, ◌↔◌, refl, sym, ap, ◌∙◌, String, true, false, none, some, List, [], ◌∷◌, ◌++◌, arith, ◌==◌,
  string_eq, Bool-cases, inl, inr, beq_refl,
}
use text.Mathlib.TextEquality.{eq_iff}

-- A node and a port of it.
abbrev pub Port : Type 0
Port = String × String

-- No port has two cables, and no cable has both its ends in one port.
abbrev pub IsCabled : List TopologyLink → Type 0
IsCabled [] = Unit
IsCabled (l ∷ rest) =
    (find_neighbor_on_port rest l.source_node_id l.source_port_id ≡ none)
    × (find_neighbor_on_port rest l.target_node_id l.target_port_id ≡ none)
    × (is_source l l.target_node_id l.target_port_id ≡ false)
    × IsCabled rest

is_source-eq :
    (l : TopologyLink) (n p : String)
    → is_source l n p ≡ true
    → (l.source_node_id ≡ n) × (l.source_port_id ≡ p)
is_source-eq l n p h =
    (ground (arith, eq_iff l.source_node_id n), ground (arith, eq_iff l.source_port_id p))

is_target-eq :
    (l : TopologyLink) (n p : String)
    → is_target l n p ≡ true
    → (l.target_node_id ≡ n) × (l.target_port_id ≡ p)
is_target-eq l n p h =
    (ground (arith, eq_iff l.target_node_id n), ground (arith, eq_iff l.target_port_id p))

is_source-free :
    (l : TopologyLink) (rest : List TopologyLink) (n p : String) (peer : Port)
    → find_neighbor_on_port rest l.source_node_id l.source_port_id ≡ none
    → find_neighbor_on_port rest n p ≡ some peer
    → is_source l n p ≡ false
is_source-free l rest n p peer free used = elim (Bool-cases (is_source l n p)) [
  | inl h ↦
      let e = is_source-eq l n p h in
      let clash : find_neighbor_on_port rest n p ≡ none = rw (e.0, e.1) at free in
      ground (arith, clash, used)
  | inr h ↦ h
]

is_target-free :
    (l : TopologyLink) (rest : List TopologyLink) (n p : String) (peer : Port)
    → find_neighbor_on_port rest l.target_node_id l.target_port_id ≡ none
    → find_neighbor_on_port rest n p ≡ some peer
    → is_target l n p ≡ false
is_target-free l rest n p peer free used = elim (Bool-cases (is_target l n p)) [
  | inl h ↦
      let e = is_target-eq l n p h in
      let clash : find_neighbor_on_port rest n p ≡ none = rw (e.0, e.1) at free in
      ground (arith, clash, used)
  | inr h ↦ h
]

-- The two ends of a cable see each other.
find_neighbor-symmetric :
    (links : List TopologyLink) (n p peer peer_port : String)
    → IsCabled links
    → find_neighbor_on_port links n p ≡ some (peer, peer_port)
    → find_neighbor_on_port links peer peer_port ≡ some (n, p)
unfolding find_neighbor_on_port
find_neighbor-symmetric [] n p peer peer_port u h = cc
find_neighbor-symmetric (l ∷ rest) n p peer peer_port u h = elim (Bool-cases (is_source l n p)) [
  | inl source ↦
      let q : some (l.target_node_id, l.target_port_id) ≡ some (peer, peer_port) = rw source at h in
      let e = some-injective (l.target_node_id, l.target_port_id) (peer, peer_port) q in
      let (sn, sp) = is_source-eq l n p source in
      rw
        (
          sym (ap (λ x. x.0) e),
          sym (ap (λ x. x.1) e),
          u.2,
          beq_refl l.target_node_id,
          beq_refl l.target_port_id,
          sn,
          sp,
        )
        refl
  | inr other ↦ elim (Bool-cases (is_target l n p)) [
    | inl target ↦
        let q : some (l.source_node_id, l.source_port_id) ≡ some (peer, peer_port) =
          rw (other, target) at h in
        let e = some-injective (l.source_node_id, l.source_port_id) (peer, peer_port) q in
        let (tn, tp) = is_target-eq l n p target in
        rw
          (
            sym (ap (λ x. x.0) e),
            sym (ap (λ x. x.1) e),
            beq_refl l.source_node_id,
            beq_refl l.source_port_id,
            tn,
            tp,
          )
          refl
    | inr neither ↦
        let q : find_neighbor_on_port rest n p ≡ some (peer, peer_port) =
          rw (other, neither) at h in
        let ih = find_neighbor-symmetric rest n p peer peer_port u.3 q in
        let not_source = is_source-free l rest peer peer_port (n, p) u.0 ih in
        let not_target = is_target-free l rest peer peer_port (n, p) u.1 ih in
        rw (not_source, not_target) ih
  ]
]

find_neighbor-append :
    (links : List TopologyLink) (l : TopologyLink) (n p : String)
    → find_neighbor_on_port links n p ≡ none
    → find_neighbor_on_port (links ++ l ∷ []) n p ≡ find_neighbor_on_port (l ∷ []) n p
unfolding find_neighbor_on_port
find_neighbor-append [] l n p h = refl
find_neighbor-append (k ∷ links) l n p h = ground (arith, find_neighbor-append links l n p)

beq-sym : (a b : String) → (a == b) ≡ (b == a)
beq-sym a b = ground (arith, eq_iff a b, eq_iff b a)

-- Neither end of one cable is an end of the other.
abbrev Apart : TopologyLink → TopologyLink → Type 0
Apart k l =
    (is_source l k.source_node_id k.source_port_id ≡ false)
    × (is_target l k.source_node_id k.source_port_id ≡ false)
    × (is_source l k.target_node_id k.target_port_id ≡ false)
    × (is_target l k.target_node_id k.target_port_id ≡ false)

Apart-first :
    (k l : TopologyLink) (links : List TopologyLink)
    → find_neighbor_on_port (k ∷ links) l.source_node_id l.source_port_id ≡ none
    → find_neighbor_on_port (k ∷ links) l.target_node_id l.target_port_id ≡ none
    → Apart k l
unfolding find_neighbor_on_port
Apart-first k l links s t = (
  ground (
    arith,
    s,
    beq-sym l.source_node_id k.source_node_id,
    beq-sym l.source_port_id k.source_port_id,
  ),
  ground (
    arith,
    t,
    beq-sym l.target_node_id k.source_node_id,
    beq-sym l.target_port_id k.source_port_id,
  ),
  ground (
    arith,
    s,
    beq-sym l.source_node_id k.target_node_id,
    beq-sym l.source_port_id k.target_port_id,
  ),
  ground (
    arith,
    t,
    beq-sym l.target_node_id k.target_node_id,
    beq-sym l.target_port_id k.target_port_id,
  ),
)

find_neighbor-rest :
    (k : TopologyLink) (links : List TopologyLink) (n p : String)
    → find_neighbor_on_port (k ∷ links) n p ≡ none
    → find_neighbor_on_port links n p ≡ none
unfolding find_neighbor_on_port
find_neighbor-rest k links n p h = ground arith

append-IsCabled :
    (links : List TopologyLink) (l : TopologyLink)
    → IsCabled links
    → find_neighbor_on_port links l.source_node_id l.source_port_id ≡ none
    → find_neighbor_on_port links l.target_node_id l.target_port_id ≡ none
    → is_source l l.target_node_id l.target_port_id ≡ false
    → IsCabled (links ++ l ∷ [])
unfolding find_neighbor_on_port
append-IsCabled [] l u s t d = (refl, refl, d, tt)
append-IsCabled (k ∷ links) l u s t d =
    let (a0, a1, a2, a3) = Apart-first k l links s t in
    (
      find_neighbor-append links l k.source_node_id k.source_port_id u.0 ∙ rw (a0, a1) refl,
      find_neighbor-append links l k.target_node_id k.target_port_id u.1 ∙ rw (a2, a3) refl,
      u.2,
      append-IsCabled links l u.3 (find_neighbor-rest k links l.source_node_id l.source_port_id s)
          (find_neighbor-rest k links l.target_node_id l.target_port_id t) d,
    )

-- Where no port has two cables, a link between two different free ports keeps it so, each of its
-- ends sees the other, and of any two ports the one sees the other exactly when the other sees it.
pub find_neighbor-add_link :
    {P Q : Type 0} (net : Net) (text : LinkText) (m : Manager P Q) (l : TopologyLink)
    (n p peer peer_port : String)
    → IsCabled m.links
    → find_neighbor_on_port m.links l.source_node_id l.source_port_id ≡ none
    → find_neighbor_on_port m.links l.target_node_id l.target_port_id ≡ none
    → is_source l l.target_node_id l.target_port_id ≡ false
    → let links = (add_link net text m l).links in
      IsCabled links
      × (find_neighbor_on_port links l.source_node_id l.source_port_id
          ≡ some (l.target_node_id, l.target_port_id))
      × (find_neighbor_on_port links l.target_node_id l.target_port_id
          ≡ some (l.source_node_id, l.source_port_id))
      × ((find_neighbor_on_port links n p ≡ some (peer, peer_port))
          ↔ (find_neighbor_on_port links peer peer_port ≡ some (n, p)))
unfolding add_link find_neighbor_on_port
find_neighbor-add_link net text m l n p peer peer_port u s t d =
    let links = m.links ++ l ∷ [] in
    let cabled = append-IsCabled m.links l u s t d in
    (
      cabled,
      find_neighbor-append m.links l l.source_node_id l.source_port_id s
          ∙ rw (beq_refl l.source_node_id, beq_refl l.source_port_id) refl,
      find_neighbor-append m.links l l.target_node_id l.target_port_id t
          ∙ rw (d, beq_refl l.target_node_id, beq_refl l.target_port_id) refl,
      (
        find_neighbor-symmetric links n p peer peer_port cabled,
        find_neighbor-symmetric links peer peer_port n p cabled,
      ),
    )
