-- ===== src/Host/Delivery.antt =====
-- Packets that wait at a host: each one leaves once, in order. And where the packets of a host go.
use netforge.Host.{Host, lookup_arp, learn_arp, queue_packet, dequeue_packets}
use netforge.Neighbors.{waiting_for, dequeue}
use netforge.Neighbors.Fifo.{
  mac_until, lookup_mac-learn_mac, waiting_for-enqueue, waiting_for-dequeue,
}
use netforge.Prelude.{
  ◌+◌, ◌<◌, ◌^◌, ◌≡◌, ◌∙◌, ap, sym, refl, String, List, [], ◌∷◌, ◌++◌, append_assoc, append-nil,
  ◌==◌, string_eq, if◌then◌else◌, Bool-cases, inl, inr, beq-eq_true,
}
use netforge.Prelude.Int64.{Int64, IsNonneg}
use netforge.Neighbors.{arp_lifetime}

-- What the data plane does with the queue of a host.
pub data QueueOp (P : Type 0) : Type 0 where
  put_in : String → P → QueueOp P
  take_out : String → QueueOp P

module _ {P : Type 0} where
  abbrev pub if_hop : String → String → List P → List P
  if_hop hop other pkts = if hop == other then pkts else []

  -- The packets that a list of operations puts in for a next hop.
  abbrev pub put_in_for : String → List (QueueOp P) → List P
  put_in_for hop [] = []
  put_in_for hop (put_in other pkt ∷ ops) = if_hop other hop (pkt ∷ []) ++ put_in_for hop ops
  put_in_for hop (take_out other ∷ ops) = put_in_for hop ops

module _ {P Q : Type 0} where
  abbrev pub waiting_at : Host P Q → String → List P
  waiting_at h hop = waiting_for h.packet_queue hop

  -- The host after the operations, and the packets that came out for a next hop.
  abbrev pub run_queue : String → Host P Q → List (QueueOp P) → Host P Q × List P
  run_queue hop h [] = (h, [])
  run_queue hop h (put_in other pkt ∷ ops) = run_queue hop (queue_packet h other pkt) ops
  run_queue hop h (take_out other ∷ ops) =
      let (next, pkts) = dequeue_packets h other in
      let rest = run_queue hop next ops in (rest.0, if_hop other hop pkts ++ rest.1)

  waiting_at-queue_packet :
      (h : Host P Q) (hop other : String) (pkt : P)
      → waiting_at (queue_packet h other pkt) hop ≡ waiting_at h hop ++ if_hop other hop (pkt ∷ [])
  unfolding queue_packet
  waiting_at-queue_packet h hop other pkt =
      waiting_for-enqueue h.packet_queue other hop pkt ∙ elim (Bool-cases (other == hop)) [
        | inl hit ↦ rw hit refl
        | inr miss ↦ rw miss (sym (append-nil (waiting_at h hop)))
      ]

  waiting_at-dequeue_packets :
      (h : Host P Q) (hop other : String)
      → if_hop other hop (dequeue_packets h other).1 ++ waiting_at (dequeue_packets h other).0 hop
        ≡ waiting_at h hop
  unfolding dequeue_packets dequeue
  waiting_at-dequeue_packets h hop other =
      rw (waiting_for-dequeue h.packet_queue other hop) (elim (Bool-cases (other == hop)) [
        | inl hit ↦ rw (hit, beq-eq_true other hop hit) (append-nil (waiting_at h hop))
        | inr miss ↦ rw miss refl
      ])

  -- Whatever operations run on the queue of a host, the packets that came out for a next hop and,
  -- behind them, those that still wait for it are the packets that waited for it before and, behind
  -- them, those that were queued for it: none is lost, doubled, reordered or sent to another hop.
  pub run_queue_fifo :
      (hop : String) (h : Host P Q) (ops : List (QueueOp P))
      → let (after, out) = run_queue hop h ops in
        out ++ waiting_at after hop ≡ waiting_at h hop ++ put_in_for hop ops
  run_queue_fifo hop h [] = sym (append-nil (waiting_at h hop))
  run_queue_fifo hop h (put_in other pkt ∷ ops) =
      run_queue_fifo hop (queue_packet h other pkt) ops
      ∙ ap (λ l. l ++ put_in_for hop ops) (waiting_at-queue_packet h hop other pkt)
      ∙ append_assoc (waiting_at h hop) (if_hop other hop (pkt ∷ [])) (put_in_for hop ops)
  run_queue_fifo hop h (take_out other ∷ ops) =
      let next = (dequeue_packets h other).0 in
      let pkts = if_hop other hop (dequeue_packets h other).1 in
      let rest = run_queue hop next ops in
      append_assoc pkts rest.1 (waiting_at rest.0 hop)
      ∙ ap (λ l. pkts ++ l) (run_queue_fifo hop next ops)
      ∙ sym (append_assoc pkts (waiting_at next hop) (put_in_for hop ops))
      ∙ ap (λ l. l ++ put_in_for hop ops) (waiting_at-dequeue_packets h hop other)

  -- A host that learns a hardware address answers with it up to twenty minutes later and not at all
  -- after that, until it learns again, and answers for the other addresses as before. The times are
  -- not negative and do not overflow.
  pub lookup_arp-learn_arp :
      (h : Host P Q) (ip other mac : String) (learned sim_time : Int64)
      → learned + arp_lifetime < 2 ^ 63
      → IsNonneg sim_time
      → lookup_arp (learn_arp h ip mac learned) other sim_time
        ≡ (if ip == other then mac_until mac learned sim_time else lookup_arp h other sim_time)
  unfolding lookup_arp learn_arp
  lookup_arp-learn_arp h ip other mac learned sim_time small pos =
      lookup_mac-learn_mac h.arp_cache ip other mac learned sim_time small pos
