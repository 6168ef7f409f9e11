-- ===== src/Hsrp/Election.antt =====
-- Who is Active after an election.
use netforge.Prelude.{
  ◌≡◌, refl, ◌∙◌, not, true, false, ◌==◌, ◌||◌, ◌&&◌, ◌⊎◌, inl, inr, List, [], ◌∷◌, arith,
  string_eq, nat_eq, All, All-map, In, here, there, Bool-cases, if◌then◌else◌, beq_refl,
}
use netforge.Prelude.Int64.{lt64}
use netforge.Hsrp.{HsrpState, active, standby, Candidate, is_active, best_of, elected, elect}

abbrev IsNoBetter : Candidate → Candidate → Type 0
IsNoBetter best c = lt64 best.group.priority c.group.priority ≡ false

abbrev pick : Candidate → Candidate → Candidate
pick c d = if lt64 c.group.priority d.group.priority then d else c

pick-left : (c d : Candidate) → IsNoBetter (pick c d) c
pick-left c d = ground arith

pick-right : (c d : Candidate) → IsNoBetter (pick c d) d
pick-right c d = ground arith

pick-grows : (c d e : Candidate) → IsNoBetter c e → IsNoBetter (pick c d) e
pick-grows c d e h = ground arith

pick-cases : (c d : Candidate) → (c ≡ pick c d) ⊎ (d ≡ pick c d)
pick-cases c d = elim (Bool-cases (lt64 c.group.priority d.group.priority)) [
  | inl better ↦ rw better (inr refl)
  | inr worse ↦ rw worse (inl refl)
]

-- The winner is a candidate, and no better than none.
best_of-lem :
    (c : Candidate) (cs seen : List Candidate)
    → All (IsNoBetter c) seen
    → All (IsNoBetter (best_of c cs)) seen
      × IsNoBetter (best_of c cs) c
      × All (IsNoBetter (best_of c cs)) cs
      × In (best_of c cs) (c ∷ cs)
unfolding best_of
best_of-lem c [] seen h = (h, ground arith, tt, here refl)
best_of-lem c (d ∷ cs) seen h =
    let (old, now, rest, m) =
      best_of-lem (pick c d) cs (c ∷ d ∷ seen)
        (pick-left c d, (pick-right c d, All-map (λ e q. pick-grows c d e q) seen h)) in
    (old.1.1, old.0, (old.1.0, rest), from_pick c d cs (best_of (pick c d) cs) m)
  where
    from_pick :
        (c d : Candidate) (cs : List Candidate) (e : Candidate)
        → In e (pick c d ∷ cs)
        → In e (c ∷ d ∷ cs)
    from_pick c d cs e (here p) = elim (pick-cases c d) [
      | inl q ↦ here (q ∙ p)
      | inr q ↦ there (here (q ∙ p))
    ]
    from_pick c d cs e (there m) = there (there m)

is_active-active : (state : HsrpState) → is_active state ≡ true → state ≡ active
is_active-active active h = refl
is_active-active standby h = ground arith
is_active-active HsrpState.listen h = ground arith

elected-state :
    (best d : Candidate)
    → elected best d.router_id d.group ≡ (
        if is_active d.group.state
          || (d.router_id == best.router_id && d.group.group_id == best.group.group_id)
        then active
        else standby)
unfolding elected
elected-state best d = ground (arith, is_active-active d.group.state)

-- The election of a virtual address makes a candidate Active whose priority no candidate exceeds. A
-- group that was Active is Active still, also when it did not win, and every other group that did not
-- win, as the winner's router and group number tell, is Standby.
pub elect-best :
    (c d : Candidate) (cs : List Candidate)
    → let best = best_of c cs in
      In best (c ∷ cs)
      × All (λ e. lt64 best.group.priority e.group.priority ≡ false) (c ∷ cs)
      × ((elect (c ∷ cs) best.router_id best.group).state ≡ active)
      × ((is_active d.group.state && not (is_active (elect (c ∷ cs) d.router_id d.group).state))
          ≡ false)
      × ((elect (c ∷ cs) d.router_id d.group).state ≡ (
          if is_active d.group.state
            || (d.router_id == best.router_id && d.group.group_id == best.group.group_id)
          then active
          else standby))
unfolding elected
elect-best c d cs =
    let (_, first, rest, m) = best_of-lem c cs [] tt in
    let best = best_of c cs in
    (
      m,
      (first, rest),
      rw (beq_refl best.router_id, beq_refl best.group.group_id) refl,
      ground arith,
      elected-state best d,
    )
