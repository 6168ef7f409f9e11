-- ===== src/Neighbors/Fifo.antt =====
-- What the cache answers after it learns, and what a queue holds after each operation.
use netforge.Prelude.{
  ◌+◌, ◌<◌, ◌≡◌, ◌^◌, refl, String, Option, none, some, List, [], ◌∷◌, ◌++◌, ◌==◌, string_eq,
  if◌then◌else◌, ltb, Bool-cases, inl, inr, beq-eq_true,
}
use netforge.Prelude.Int64.{Int64, IsNonneg, add64, add64-eq-add, lt64, lt64-ltb}
use netforge.Prelude.GoMap.{GoMap, get-put, get-delete}
use netforge.Neighbors.{
  ArpEntry, arp_lifetime, lookup_mac, learn_mac, waiting_for, enqueue, dequeue,
}

-- What an entry that was learned at one time answers at another.
abbrev pub mac_until : String → Int64 → Int64 → Option String
mac_until mac learned sim_time = if ltb (learned + arp_lifetime) sim_time then none else some mac

pub lookup_mac-learn_mac :
    (cache : GoMap String ArpEntry) (ip other mac : String) (learned sim_time : Int64)
    → learned + arp_lifetime < 2 ^ 63
    → IsNonneg sim_time
    → lookup_mac (learn_mac cache ip mac learned) other sim_time
      ≡ (if ip == other then mac_until mac learned sim_time else lookup_mac cache other sim_time)
unfolding lookup_mac learn_mac
lookup_mac-learn_mac cache ip other mac learned sim_time small pos =
    let entry : ArpEntry = record { mac = mac; expires_at = add64 learned arp_lifetime } in
    let same : add64 learned arp_lifetime ≡ learned + arp_lifetime =
      add64-eq-add learned arp_lifetime small in
    let order : lt64 (learned + arp_lifetime) sim_time ≡ ltb (learned + arp_lifetime) sim_time =
      lt64-ltb (learned + arp_lifetime) sim_time small pos in
    rw (get-put cache ip other entry) (elim (Bool-cases (ip == other)) [
      | inl hit ↦ rw (hit, same, order) refl
      | inr miss ↦ rw miss refl
    ])

module _ {P : Type 0} where
  pub waiting_for-enqueue :
      (queue : GoMap String (List P)) (hop other : String) (pkt : P)
      → waiting_for (enqueue queue hop pkt) other
        ≡ (if hop == other then waiting_for queue other ++ pkt ∷ [] else waiting_for queue other)
  unfolding enqueue
  waiting_for-enqueue queue hop other pkt =
      rw (get-put queue hop other (waiting_for queue hop ++ pkt ∷ []))
        (elim (Bool-cases (hop == other)) [
          | inl hit ↦ rw (hit, beq-eq_true hop other hit) refl
          | inr miss ↦ rw miss refl
        ])

  pub waiting_for-dequeue :
      (queue : GoMap String (List P)) (hop other : String)
      → waiting_for (dequeue queue hop).0 other
        ≡ (if hop == other then [] else waiting_for queue other)
  unfolding dequeue
  waiting_for-dequeue queue hop other =
      rw (get-delete queue hop other)
        (elim (Bool-cases (hop == other)) [ inl hit ↦ rw hit refl | inr miss ↦ rw miss refl ])
