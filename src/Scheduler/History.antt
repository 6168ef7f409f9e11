-- ===== src/Scheduler/History.antt =====
-- Steps of the scheduler, and whole histories of Schedule and Step.
use mathlib.Core.Path.{subst}
use mathlib.Core.List.{Permᴰ}
use mathlib.Core.List.Permᴰ
use netforge.Prelude.{
  ℕ, ◌+◌, ◌≤◌, ◌<◌, ◌^◌, ◌≡◌, refl, ap, ◌⊎◌, inl, inr, Option, none, some, arith, List, [], ◌∷◌,
  map, All,
}
use netforge.Prelude.Int64.{Int64}
use netforge.Scheduler.{
  Event, EventType, HeapLib, HeapLaws, Scheduler, bare, new_event, new_scheduler, schedule,
  take_event, step,
}
use netforge.Scheduler.Order.{
  IsDue, IsValid, IsNext, All-Permᴰ, All-bare, All-of_bare, take_event-IsNext,
}

-- A call of the scheduler.
pub data Call (D : Type 0) : Type 0 where
  plan : EventType → Int64 → D → Call D
  advance : Call D

-- Each time is at least the one before, the first at least `c`.
abbrev pub Ascends : ℕ → List ℕ → Type 0
Ascends c [] = Unit
Ascends c (t ∷ ts) = (c ≤ t) × Ascends t ts

module _ {D : Type 0} where
  -- The offsets of a history, added up.
  abbrev pub offsets : List (Call D) → ℕ
  offsets [] = 0
  offsets (plan _ offset _ ∷ calls) = offset + offsets calls
  offsets (advance ∷ calls) = offsets calls

  abbrev pub note : Option (Event D) → List ℕ → List ℕ
  note none ts = ts
  note (some event) ts = event.timestamp ∷ ts

  All-widen : (c t u : ℕ) (h : List (Event D)) → t ≤ u → All (IsDue c t) h → All (IsDue c u) h
  All-widen c t u [] le h = tt
  All-widen c t u (e ∷ rest) le h = ((h.0.0, omega arith), All-widen c t u rest le h.1)

sim_clock-schedule :
    {D : Type 0} (lib : HeapLib D) (s : Scheduler D) (event_type : EventType) (offset : Int64)
    (payload : D)
    → (schedule lib s event_type offset payload).sim_clock ≡ s.sim_clock
unfolding schedule
sim_clock-schedule lib s event_type offset payload = refl

module _ {D : Type 0} (lib : HeapLib D) (laws : HeapLaws lib) where
  -- The times of the events that the steps of a history hand out.
  pub play : Scheduler D → List (Call D) → List ℕ
  play s [] = []
  play s (plan event_type offset payload ∷ calls) =
      play (schedule lib s event_type offset payload) calls
  play s (advance ∷ calls) = note (step lib s).0 (play (step lib s).1 calls)

  -- A scheduler in which nothing has been planned is valid.
  pub new_scheduler-IsValid : IsValid lib laws 0 new_scheduler
  unfolding new_scheduler
  new_scheduler-IsValid = record { heap = laws.heap-nil; due = tt; clock = omega arith }

  -- An event planned for now or later, within the range of the clock, keeps the scheduler valid
  -- and is added to the queue.
  pub schedule-IsValid :
      (t : ℕ) (s : Scheduler D) (event_type : EventType) (offset : Int64) (payload : D)
      → IsValid lib laws t s
      → t + offset < 2 ^ 63
      → IsValid lib laws (t + offset) (schedule lib s event_type offset payload)
        × Permᴰ
            (map bare (schedule lib s event_type offset payload).pq)
            (bare (new_event s event_type offset payload) ∷ map bare s.pq)
  unfolding schedule
  schedule-IsValid t s event_type offset payload v b =
      let e = new_event s event_type offset payload in
      let perm = laws.perm-push s.pq e v.heap in
      let old =
        All-bare s.sim_clock (t + offset) s.pq
          (All-widen s.sim_clock t (t + offset) s.pq (omega arith) v.due) in
      let new : IsDue s.sim_clock (t + offset) e = omega (arith, v.clock) in
      (
        record {
          heap = laws.heap-push s.pq e v.heap;
          due =
              All-of_bare s.sim_clock (t + offset) (lib.push s.pq e)
                (All-Permᴰ (IsDue s.sim_clock (t + offset)) (Permᴰ.symm perm) (new, old));
          clock = omega (arith, v.clock);
        },
        perm,
      )

  -- A step of a valid scheduler: with nothing planned it changes nothing, and otherwise it hands
  -- out a least event, sets the clock to its time, and leaves a valid scheduler.
  pub step_correct :
      (t : ℕ) (s : Scheduler D)
      → IsValid lib laws t s
      → t < 2 ^ 63
      → ((s.pq ≡ []) × (step lib s ≡ (none, s)))
        ⊎ ((event : Event D) × (s' : Scheduler D) × (step lib s ≡ (some event, s'))
            × IsNext lib laws s event s'
            × IsValid lib laws t s')
  unfolding step
  step_correct t s v b = split s.pq refl
    where
      split :
          (pq : List (Event D))
          → s.pq ≡ pq
          → ((s.pq ≡ []) × (take_event lib s s.pq ≡ (none, s)))
            ⊎ ((event : Event D) × (s' : Scheduler D) × (take_event lib s s.pq ≡ (some event, s'))
                × IsNext lib laws s event s'
                × IsValid lib laws t s')
      split [] p = inl (p, ap (take_event lib s) p)
      split (e ∷ h) p =
          let (next, valid) = take_event-IsNext lib laws t s e h v b p in
          inr (_, _, ap (take_event lib s) p, next, valid)

  -- In a history from a valid scheduler whose times stay below 2^63, the events come out in the
  -- order of their times, none before the clock at the start.
  pub play-Ascends :
      (t : ℕ) (s : Scheduler D) (calls : List (Call D))
      → IsValid lib laws t s
      → t + offsets calls < 2 ^ 63
      → Ascends s.sim_clock (play s calls)
  unfolding play
  play-Ascends t s [] v b = tt
  play-Ascends t s (plan event_type offset payload ∷ calls) v b =
      let s' = schedule lib s event_type offset payload in
      let valid = (schedule-IsValid t s event_type offset payload v (omega arith)).0 in
      subst (λ c. Ascends c (play s' calls)) (sim_clock-schedule lib s event_type offset payload)
        (play-Ascends (t + offset) s' calls valid (omega arith))
  play-Ascends t s (advance ∷ calls) v b = elim (step_correct t s v (omega arith)) [
    | inl (empty, p) ↦ rw p (play-Ascends t s calls v b)
    | inr (event, s', p, next, valid) ↦
        let rest = play-Ascends t s' calls valid b in
        rw p (
          omega (arith, next.now, next.forward),
          subst (λ c. Ascends c (play s' calls)) next.now rest,
        )
  ]
