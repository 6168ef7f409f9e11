-- ===== src/Ipsec/Tunnels.antt =====
-- What two routers have after an exchange of keys.
use netforge.Device.{Router, owns_ip}
use netforge.Ipsec.{
  Visits, is_active, new_peer, activate_peer, encapsulate_esp, decapsulate_esp, public_ip,
}
use netforge.Ipsec.Negotiation.{
  HasPrefix, find_router_by_peer_ip, activate_at, local_key, remote_key, keys_differ, negotiate_ike,
}
use netforge.Pdu.{Ipv4Packet}
use netforge.VpnConfig.{IkePeerState}
use mathlib.Core.Option.{some-injective}
use netforge.Prelude.{
  ◌≡◌, ◌∙◌, refl, ap, String, true, false, Option, some, [], ◌∷◌, arith, ◌==◌, string_eq, beq_refl,
  if◌then◌else◌, ok, Bool-cases, inl, inr,
}
use netforge.Prelude.Int64.{Int64}
use netforge.Prelude.GoMap.{GoMap, get, get-put, IsUnique}

module _ {P Q : Type 0} where
  -- A router that has an active peer of an address.
  abbrev pub HasPeer : Router P Q → String → Type 0
  HasPeer r peer_ip =
      (peer : IkePeerState) × (get r.ike_peers peer_ip ≡ some peer)
      × (is_active peer.state ≡ true)
      × (peer.peer_ip ≡ peer_ip)

  activate_peer-HasPeer :
      (r : Router P Q) (peer_ip : String) (sim_time : Int64)
      → HasPeer (activate_peer r peer_ip sim_time) peer_ip
  unfolding activate_peer new_peer
  activate_peer-HasPeer r peer_ip sim_time = (
    new_peer r peer_ip sim_time,
    get-put r.ike_peers peer_ip peer_ip (new_peer r peer_ip sim_time) ∙ rw (beq_refl peer_ip) refl,
    refl,
    refl,
  )

  get-activate_at :
      (routers : GoMap String (Router P Q)) (id other peer_ip : String) (sim_time : Int64)
      (r : Router P Q)
      → get routers id ≡ some r
      → get (activate_at routers id peer_ip sim_time) other
        ≡ (if id == other then some (activate_peer r peer_ip sim_time) else get routers other)
  unfolding activate_at
  get-activate_at routers id other peer_ip sim_time r h =
      rw (h, activate_at) (get-put routers id other (activate_peer r peer_ip sim_time))

  get-find_router :
      (routers : GoMap String (Router P Q)) (ip id : String) (r : Router P Q)
      → IsUnique routers
      → find_router_by_peer_ip routers ip ≡ some (id, r)
      → get routers id ≡ some r
  unfolding find_router_by_peer_ip get
  get-find_router [] ip id r u h = cc
  get-find_router ((i, s) ∷ routers) ip id r u h = elim (Bool-cases (owns_ip s ip)) [
    | inl own ↦
        let q : ◌≡◌ {A = Option (String × Router P Q)} (some (i, s)) (some (id, r)) = rw own at h in
        let p : ◌≡◌ {A = String × Router P Q} (i, s) (id, r) = some-injective (i, s) (id, r) q in
        let same_id : i ≡ id = ap (λ x. x.0) p in
        let same_router : s ≡ r = ap (λ x. x.1) p in
        ground (arith, same_id, same_router, string_eq.beq_iff i id)
    | inr other ↦
        let ih = get-find_router routers ip id r u.1 (rw other at h) in
        ground (arith, ih, u.0, string_eq.beq_iff i id)
  ]

  -- The interfaces of a router are those before it has a peer.
  activate_peer-interfaces :
      (r : Router P Q) (peer_ip : String) (sim_time : Int64)
      → (activate_peer r peer_ip sim_time).interfaces ≡ r.interfaces
  unfolding activate_peer
  activate_peer-interfaces r peer_ip sim_time = refl

  decapsulate-encapsulate :
      {B : Type 0} (l r : Router P Q) (inner : Ipv4Packet B) (peer : IkePeerState)
      (out_port source : String)
      → get l.interfaces out_port ≡ some source
      → HasPeer r source
      → decapsulate_esp r (encapsulate_esp l inner peer out_port) ≡ some inner
  unfolding decapsulate_esp encapsulate_esp
  decapsulate-encapsulate l r inner peer out_port source own (p, found, up, _) =
      rw (own, found, up, decapsulate_esp) refl

  -- Where the exchange of keys between two routers goes through, each of the two has the other as
  -- an active peer, the first one under the address that publicIP answers when the peers are activated,
  -- whatever it has answered for the key, and a packet that the first encapsulates for its peer and
  -- sends from the port of that address is decapsulated by the second to the packet that it was,
  -- whatever the packet; so is a packet of the second that leaves from the address of the peer. The
  -- exchange goes through where the two are different routers, the second owns the address, and the
  -- keys that are compared are equal and not empty; the names of the routers are unique.
  pub negotiate_ike-tunnel :
      {B : Type 0} (has_prefix : HasPrefix) (keyed told : Visits)
      (routers : GoMap String (Router P Q))
      (local_id remote_id peer_ip psk out_port back_port : String) (sim_time : Int64)
      (local remote : Router P Q) (inner : Ipv4Packet B)
      → IsUnique routers
      → get routers local_id ≡ some local
      → find_router_by_peer_ip routers peer_ip ≡ some (remote_id, remote)
      → (local_id == remote_id) ≡ false
      → keys_differ
          (local_key local peer_ip psk)
          (remote_key has_prefix keyed local remote peer_ip psk)
        ≡ false
      → get local.interfaces out_port ≡ some (public_ip has_prefix told local)
      → get remote.interfaces back_port ≡ some peer_ip
      → (after : GoMap String (Router P Q)) × (l : Router P Q) × (r : Router P Q) × (negotiate_ike
            has_prefix keyed told routers local_id peer_ip psk sim_time
          ≡ ok after)
        × (get after local_id ≡ some l)
        × (get after remote_id ≡ some r)
        × HasPeer l peer_ip
        × HasPeer r (public_ip has_prefix told local)
        × ((peer : IkePeerState)
            → (decapsulate_esp r (encapsulate_esp l inner peer out_port) ≡ some inner)
              × (decapsulate_esp l (encapsulate_esp r inner peer back_port) ≡ some inner))
  unfolding negotiate_ike activate_peer
  negotiate_ike-tunnel has_prefix keyed told routers local_id remote_id peer_ip psk out_port
        back_port sim_time local remote inner u here found apart keys out back =
      let own = public_ip has_prefix told local in
      let first = activate_at routers local_id peer_ip sim_time in
      let l = activate_peer local peer_ip sim_time in
      let r = activate_peer remote own sim_time in
      let at_remote : get first remote_id ≡ some remote =
        get-activate_at routers local_id remote_id peer_ip sim_time local here
        ∙ rw apart (get-find_router routers peer_ip remote_id remote u found) in
      let back_apart : (remote_id == local_id) ≡ false =
        ground
          (arith, string_eq.beq_iff local_id remote_id, string_eq.beq_iff remote_id local_id) in
      let l_peer = activate_peer-HasPeer local peer_ip sim_time in
      let r_peer = activate_peer-HasPeer remote own sim_time in
      (
        activate_at first remote_id own sim_time,
        l,
        r,
        rw (here, found, keys, negotiate_ike) refl,
        get-activate_at first remote_id local_id own sim_time remote at_remote
            ∙ rw back_apart (
                get-activate_at routers local_id local_id peer_ip sim_time local here
                ∙ rw (beq_refl local_id) refl),
        get-activate_at first remote_id remote_id own sim_time remote at_remote
            ∙ rw (beq_refl remote_id) refl,
        l_peer,
        r_peer,
        λ peer. (
          decapsulate-encapsulate l r inner peer out_port own out r_peer,
          decapsulate-encapsulate r l inner peer back_port peer_ip back l_peer,
        ),
      )
