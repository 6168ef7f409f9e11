-- ===== src/Router/Cdp/Aging.antt =====
-- How long a neighbour stays in the table.
use netforge.Prelude.{
  ℕ, ◌+◌, ◌-◌, ltb, ◌≤◌, ◌<◌, ◌^◌, String, ◌≡◌, refl, ap, ◌∙◌, ◌&&◌, Option, none, some, List, [],
  ◌∷◌, arith, ◌==◌, string_eq, if◌then◌else◌, Bool-cases, inl, inr,
}
use netforge.Prelude.Int64.{Int64, add64-eq-add, sub64-eq-sub, lt64-ltb, lt64, add64, sub64}
use text.Mathlib.TextEquality.{eq_iff}
use netforge.Router.Cdp.{
  CdpNeighbor, CdpPacket, is_neighbor, cdp_now, put_neighbor, learn_cdp_neighbor,
  purge_stale_cdp_neighbors,
}

-- The time at which the table last heard of a device on a port.
unfoldable pub seen_at : List CdpNeighbor → String → String → Option Int64
seen_at [] device_id local_port = none
seen_at (n ∷ rest) device_id local_port =
    if is_neighbor device_id local_port n
    then some n.last_seen
    else seen_at rest device_id local_port

seen_at-put_neighbor :
    (neighbors : List CdpNeighbor) (port : String) (pkt : CdpPacket) (now : Int64)
    (device_id local_port : String)
    → seen_at (put_neighbor neighbors port pkt now) device_id local_port ≡ (
        if pkt.device_id == device_id && port == local_port
        then some now
        else seen_at neighbors device_id local_port)
unfolding seen_at put_neighbor
seen_at-put_neighbor [] port pkt now device_id local_port = refl
seen_at-put_neighbor (n ∷ rest) port pkt now device_id local_port = ground (
  arith,
  seen_at-put_neighbor rest port pkt now device_id local_port,
  eq_iff n.device_id pkt.device_id,
  eq_iff n.local_port port,
  eq_iff n.device_id device_id,
  eq_iff n.local_port local_port,
  eq_iff pkt.device_id device_id,
  eq_iff port local_port,
)

-- No device stands twice for one port.
abbrev pub IsUnique : List CdpNeighbor → Type 0
IsUnique [] = Unit
IsUnique (n ∷ rest) = (seen_at rest n.device_id n.local_port ≡ none) × IsUnique rest

put_neighbor-IsUnique :
    (neighbors : List CdpNeighbor) (port : String) (pkt : CdpPacket) (now : Int64)
    → IsUnique neighbors
    → IsUnique (put_neighbor neighbors port pkt now)
unfolding put_neighbor seen_at
put_neighbor-IsUnique [] port pkt now u = (refl, tt)
put_neighbor-IsUnique (n ∷ rest) port pkt now u = ground (
  arith,
  seen_at-put_neighbor rest port pkt now n.device_id n.local_port,
  put_neighbor-IsUnique rest port pkt now,
  eq_iff n.device_id pkt.device_id,
  eq_iff n.local_port port,
  eq_iff pkt.device_id n.device_id,
  eq_iff port n.local_port,
)

-- What a purge leaves of a time.
abbrev pub if_fresh : Int64 → Int64 → Option Int64 → Option Int64
if_fresh counter holdtime none = none
if_fresh counter holdtime (some seen) =
    if lt64 (sub64 counter holdtime) seen then some seen else none

seen_at-purge_none :
    (neighbors : List CdpNeighbor) (counter holdtime : Int64) (device_id local_port : String)
    → seen_at neighbors device_id local_port ≡ none
    → seen_at (purge_stale_cdp_neighbors neighbors counter holdtime) device_id local_port ≡ none
unfolding purge_stale_cdp_neighbors seen_at
seen_at-purge_none [] counter holdtime device_id local_port h = refl
seen_at-purge_none (n ∷ rest) counter holdtime device_id local_port h =
    ground (arith, seen_at-purge_none rest counter holdtime device_id local_port)

seen_at-purge :
    (neighbors : List CdpNeighbor) (counter holdtime : Int64) (device_id local_port : String)
    → IsUnique neighbors
    → seen_at (purge_stale_cdp_neighbors neighbors counter holdtime) device_id local_port
      ≡ if_fresh counter holdtime (seen_at neighbors device_id local_port)
unfolding purge_stale_cdp_neighbors seen_at
seen_at-purge [] counter holdtime device_id local_port u = refl
seen_at-purge (n ∷ rest) counter holdtime device_id local_port u = ground (
  arith,
  seen_at-purge rest counter holdtime device_id local_port,
  seen_at-purge_none rest counter holdtime device_id local_port,
  eq_iff n.device_id device_id,
  eq_iff n.local_port local_port,
)

fresh-ticks :
    (counter holdtime ticks : ℕ)
    → holdtime ≤ counter
    → counter + 1 + ticks < 2 ^ 63
    → lt64 (sub64 (counter + 1 + ticks) holdtime) (counter + 1) ≡ ltb ticks holdtime
fresh-ticks counter holdtime ticks le small =
    rw (sub64-eq-sub (counter + 1 + ticks) holdtime (omega arith) small) (
      lt64-ltb (counter + 1 + ticks - holdtime) (counter + 1) (omega arith) (omega arith)
      ∙ ground arith)

-- In a table where no device stands twice for one port, after an advertisement, after `ticks` more that
-- routers of the network learn, which all raise the one counter, and after a purge the advertised
-- neighbour is there, with its count, exactly when the hold time is more than `ticks`, so that as many
-- advertisements as the hold time, learned in one cycle, drop it before its own next one; every other one is there
-- exactly when its last count lies within the hold time; and after the advertisement no device stands
-- twice for one port. The counter is at least the hold time and does not overflow.
pub seen_at-learn_cdp_neighbor :
    (neighbors : List CdpNeighbor) (counter holdtime : Int64) (ticks : ℕ) (port : String)
    (pkt : CdpPacket) (device_id local_port : String)
    → IsUnique neighbors
    → holdtime ≤ counter
    → counter + 1 + ticks < 2 ^ 63
    → let (after, now) = learn_cdp_neighbor neighbors counter port pkt in
      IsUnique after
      × (seen_at (purge_stale_cdp_neighbors after (now + ticks) holdtime) device_id local_port ≡ (
          if pkt.device_id == device_id && port == local_port
          then (if ltb ticks holdtime then some (counter + 1) else none)
          else if_fresh (counter + 1 + ticks) holdtime (seen_at neighbors device_id local_port)))
unfolding learn_cdp_neighbor cdp_now
seen_at-learn_cdp_neighbor neighbors counter holdtime ticks port pkt device_id local_port u le
      small =
    let now : Int64 = add64 counter 1 in
    let same : now ≡ counter + 1 = add64-eq-add counter 1 (omega arith) in
    let unique = put_neighbor-IsUnique neighbors port pkt now u in
    (
      unique,
      seen_at-purge (put_neighbor neighbors port pkt now) (now + ticks) holdtime device_id
            local_port unique
          ∙ ap (if_fresh (now + ticks) holdtime)
              (seen_at-put_neighbor neighbors port pkt now device_id local_port)
          ∙ rw same (elim (Bool-cases (pkt.device_id == device_id && port == local_port)) [
            | inl hit ↦ rw (hit, fresh-ticks counter holdtime ticks le small) refl
            | inr miss ↦ rw miss refl
          ]),
    )
