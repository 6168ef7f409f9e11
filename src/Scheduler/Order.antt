-- ===== src/Scheduler/Order.antt =====
-- Events come out of the scheduler in the order of their times.
use mathlib.Core.Path.{subst}
use mathlib.Core.List.{Permᴰ}
use mathlib.Core.List.Permᴰ
use netforge.Prelude.{
  ℕ, ◌≤◌, ◌<◌, ◌^◌, ◌≡◌, refl, sym, false, some, arith, List, [], ◌∷◌, ◌++◌, map, All, length,
}
use netforge.Prelude.Int64.{minus_one}
use netforge.Scheduler.{Event, HeapLib, HeapLaws, Scheduler, less, bare, push_back, pop_back}

pub All-Permᴰ {ℓ κ} :
    {A : Type ℓ} (P : A → Type κ) {xs ys : List A} → Permᴰ xs ys → All P xs → All P ys
All-Permᴰ P Permᴰ.nil h = tt
All-Permᴰ P (Permᴰ.cons p r) h = (subst P p h.0, All-Permᴰ P r h.1)
All-Permᴰ P (Permᴰ.swap p q) h = (subst P q h.1.0, (subst P p h.0, h.1.1))
All-Permᴰ P (Permᴰ.trans r s) h = All-Permᴰ P s (All-Permᴰ P r h)

module _ {D : Type 0} where
  -- The time of the event is from `c` to `t`.
  abbrev pub IsDue : ℕ → ℕ → Event D → Type 0
  IsDue c t e = (c ≤ e.timestamp) × (e.timestamp ≤ t)

  pub All-bare : (c t : ℕ) (h : List (Event D)) → All (IsDue c t) h → All (IsDue c t) (map bare h)
  All-bare c t [] h = tt
  All-bare c t (e ∷ rest) h = (h.0, All-bare c t rest h.1)

  pub All-of_bare :
      (c t : ℕ) (h : List (Event D)) → All (IsDue c t) (map bare h) → All (IsDue c t) h
  All-of_bare c t [] h = tt
  All-of_bare c t (e ∷ rest) h = (h.0, All-of_bare c t rest h.1)

  -- A time that no event of the queue is before is a new start.
  All-later :
      (c c' t : ℕ) (h : List (Event D)) (e : Event D)
      → e.timestamp ≡ c'
      → t < 2 ^ 63
      → All (IsDue c t) h
      → IsDue c t e
      → All (λ f. less f e ≡ false) h
      → All (IsDue c' t) h
  unfolding less
  All-later c c' t [] e p b h he l = tt
  All-later c c' t (f ∷ rest) e p b h he l = (ground arith, All-later c c' t rest e p b h.1 he l.1)

  pop_back-append :
      (pq : List (Event D)) (e : Event D)
      → pop_back (pq ++ e ∷ []) ≡ some (record e { index = minus_one }, pq)
  unfolding pop_back
  pop_back-append [] e = refl
  pop_back-append (f ∷ []) e = refl
  pop_back-append (f ∷ g ∷ rest) e = rw (pop_back-append (g ∷ rest) e)

  -- The queue's own Pop takes off the event that its Push put there, marks it as out, and leaves
  -- the queue as it was.
  pub pop_back-push_back :
      (pq : List (Event D)) (e : Event D)
      → pop_back (push_back pq e) ≡ some (record e { index = minus_one }, pq)
  unfolding push_back
  pop_back-push_back pq e = pop_back-append pq (record e { index = length pq })

module _ {D : Type 0} (lib : HeapLib D) (laws : HeapLaws lib) where
  -- The queue is a heap of events that lie between the clock and the bound `t`.
  pub record IsValid (t : ℕ) (s : Scheduler D) : Type 0 where
    pub heap : laws.IsHeap s.pq
    pub due : All (IsDue s.sim_clock t) s.pq
    pub clock : s.sim_clock ≤ t

  -- An event comes out at the new time of the clock, which does not go back; what stays in the
  -- queue is not before it, and the queue had just these events.
  pub record IsNext (s : Scheduler D) (event : Event D) (s' : Scheduler D) : Type 0 where
    pub now : s'.sim_clock ≡ event.timestamp
    pub forward : s.sim_clock ≤ s'.sim_clock
    pub least : All (λ f. event.timestamp ≤ f.timestamp) s'.pq
    pub same : Permᴰ (bare event ∷ map bare s'.pq) (map bare s.pq)

  All-from : (c t : ℕ) (h : List (Event D)) → All (IsDue c t) h → All (λ f. c ≤ f.timestamp) h
  All-from c t [] h = tt
  All-from c t (e ∷ rest) h = (h.0.0, All-from c t rest h.1)

  -- A step on a valid queue that is not empty.
  pub take_event-IsNext :
      (t : ℕ) (s : Scheduler D) (e : Event D) (h : List (Event D))
      → IsValid t s
      → t < 2 ^ 63
      → s.pq ≡ e ∷ h
      → let (event, pq) = lib.pop e h in
        let s' = record s { pq = pq; sim_clock = event.timestamp } in
        IsNext s event s' × IsValid t s'
  take_event-IsNext t s e h v b p =
      let (event, pq) = lib.pop e h in
      let heap : laws.IsHeap (e ∷ h) = subst laws.IsHeap p v.heap in
      let due = subst (All (IsDue s.sim_clock t)) p v.due in
      let perm = laws.perm-pop e h heap in
      let back =
        All-Permᴰ (IsDue s.sim_clock t) (Permᴰ.symm perm) (All-bare s.sim_clock t (e ∷ h) due) in
      let later =
        All-later s.sim_clock event.timestamp t pq event refl b
          (All-of_bare s.sim_clock t pq back.1) back.0 (laws.least-pop e h heap) in
      (
        record {
          now = refl;
          forward = back.0.0;
          least = All-from event.timestamp t pq later;
          same = subst (λ x. Permᴰ (bare event ∷ map bare pq) (map bare x)) (sym p) perm;
        },
        record { heap = laws.heap-pop e h heap; due = later; clock = back.0.1 },
      )
