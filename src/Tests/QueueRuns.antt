-- ===== src/Tests/QueueRuns.antt =====
-- A scheduler over a queue that is kept sorted, which is one way to satisfy container/heap's promise.
use mathlib.Core.List.{Permᴰ}
use mathlib.Core.List.Permᴰ
use netforge.Prelude.{
  ℕ, ◌≡◌, refl, ◌⊎◌, inl, inr, true, false, none, some, arith, List, [], ◌∷◌, map, All, All-map,
  if◌then◌else◌, Bool-cases,
}
use netforge.Topology.Timers.{schedule_protocol_timers, simulate_all}
use netforge.Topology.Pending.{is_pending}
use netforge.Topology.Alive.{simulate_all-pending}
use netforge.Scheduler.{
  packet_rx, timer_bgp, Event, packet_tx, timer_rip, HeapLib, HeapLaws, Scheduler, bare, less,
  new_scheduler, step,
}
use netforge.Scheduler.Order.{IsValid, IsNext}
use netforge.Scheduler.History.{
  plan, advance, Ascends, play, new_scheduler-IsValid, step_correct, play-Ascends,
}

unfoldable insert : Event ℕ → List (Event ℕ) → List (Event ℕ)
insert e [] = e ∷ []
insert e (f ∷ h) = if less e f then e ∷ f ∷ h else f ∷ insert e h

abbrev IsSorted : List (Event ℕ) → Type 0
IsSorted [] = Unit
IsSorted (e ∷ h) = All (λ f. less f e ≡ false) h × IsSorted h

abbrev sorted : HeapLib ℕ
sorted = record { push = λ h e. insert e h; pop = λ e h. (e, h) }

All-insert :
    (P : Event ℕ → Type 0) (e : Event ℕ) (h : List (Event ℕ)) → P e → All P h → All P (insert e h)
unfolding insert
All-insert P e [] p a = (p, tt)
All-insert P e (f ∷ h) p a = elim (Bool-cases (less e f)) [
  | inl before ↦ rw before (p, a)
  | inr after ↦ rw after (a.0, All-insert P e h p a.1)
]

less-before : (e f g : Event ℕ) → less e f ≡ true → less g f ≡ false → less g e ≡ false
unfolding less
less-before e f g b a = ground arith

less-first : (e f : Event ℕ) → less e f ≡ true → less f e ≡ false
unfolding less
less-first e f b = ground arith

insert-IsSorted : (h : List (Event ℕ)) (e : Event ℕ) → IsSorted h → IsSorted (insert e h)
unfolding insert
insert-IsSorted [] e s = (tt, tt)
insert-IsSorted (f ∷ h) e s = elim (Bool-cases (less e f)) [
  | inl before ↦
      rw before ((less-first e f before, All-map (λ g a. less-before e f g before a) h s.0), s)
  | inr after ↦ rw after (All-insert (λ g. less g f ≡ false) e h after s.0, insert-IsSorted h e s.1)
]

perm-insert :
    (h : List (Event ℕ)) (e : Event ℕ) → Permᴰ (map bare (insert e h)) (bare e ∷ map bare h)
unfolding insert
perm-insert [] e = Permᴰ.refl (bare e ∷ [])
perm-insert (f ∷ h) e = elim (Bool-cases (less e f)) [
  | inl before ↦ rw before (Permᴰ.refl (bare e ∷ bare f ∷ map bare h))
  | inr after ↦ rw after (Permᴰ.trans (Permᴰ.cons refl (perm-insert h e)) (Permᴰ.swap refl refl))
]

abbrev sorted-laws : HeapLaws sorted
sorted-laws = record {
  IsHeap = IsSorted;
  heap-nil = tt;
  heap-push = insert-IsSorted;
  perm-push = λ h e s. perm-insert h e;
  heap-pop = λ e h s. s.1;
  perm-pop = λ e h s. Permᴰ.refl (map bare (e ∷ h));
  least-pop = λ e h s. s.0;
}

play-Ascends_example : Ascends 0 (
    play sorted sorted-laws new_scheduler (
      plan packet_tx 30 1
      ∷ plan timer_rip 10 2
      ∷ advance
      ∷ plan packet_tx 5 3
      ∷ advance
      ∷ advance
      ∷ []))
unfolding new_scheduler
play-Ascends_example =
    play-Ascends sorted sorted-laws 0 new_scheduler
      (plan packet_tx 30 1
        ∷ plan timer_rip 10 2
        ∷ advance
        ∷ plan packet_tx 5 3
        ∷ advance
        ∷ advance
        ∷ [])
      (new_scheduler-IsValid sorted sorted-laws) (omega arith)

-- One event planned for the time 30.
abbrev busy : Scheduler ℕ
busy = record {
  pq = record { id = 1; timestamp = 30; type_of = packet_tx; payload = 1; index = 0 } ∷ [];
  sim_clock = 0;
  event_count = 1;
  is_running = true;
}

busy-IsValid : IsValid sorted sorted-laws 30 busy
busy-IsValid = record {
  heap = (tt, tt);
  due = ((omega arith, omega arith), tt);
  clock = omega arith;
}

step_correct_example :
    ((busy.pq ≡ []) × (step sorted busy ≡ (none, busy)))
    ⊎ ((event : Event ℕ) × (s' : Scheduler ℕ) × (step sorted busy ≡ (some event, s'))
        × IsNext sorted sorted-laws busy event s'
        × IsValid sorted sorted-laws 30 s')
step_correct_example = step_correct sorted sorted-laws 30 busy busy-IsValid (omega arith)

-- A turn whose cycle plans a frame, and one that plans nothing.
simulate_all-pending_example :
    let s =
      simulate_all sorted 0
        (schedule_protocol_timers sorted 0 new_scheduler)
        (((packet_rx, 5, 1) ∷ []) ∷ [] ∷ []) in
    (is_pending timer_bgp s.pq ≡ true)
    × ((event : Event ℕ) × (after : Scheduler ℕ) × (step sorted s ≡ (some event, after)))
simulate_all-pending_example =
    simulate_all-pending sorted sorted-laws 0 timer_bgp (((packet_rx, 5, 1) ∷ []) ∷ [] ∷ []) refl
