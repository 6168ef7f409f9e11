-- ===== src/Ospf/Spf/Routes.antt =====
-- From the rounds of ComputeSPF to the routes that it returns.
use text.Mathlib.TextEquality.{eq_iff}
use mathlib.Core.Path.{subst₃}
use netforge.Prelude.{
  ℕ, zero, suc, ◌≡◌, refl, inl, inr, String, true, ◌||◌, some, arith, [], ◌∷◌, All, All-of_In,
  length, ◌==◌, string_eq, Bool-cases,
}
use netforge.Prelude.Int64.{Int64, lt64, le64}
use netforge.Prelude.GoMap.{
  GoMap, get, put, get-put, get-In, IsUnique, put-IsUnique, values, All-put,
}
use netforge.Ospf.{RouterLsa}
use netforge.Ospf.Spf.{
  SpfResult, Search, unreached, hop, links_of, unreached_all, start, nearest, relax_all, visit,
  rounds, collect, search_spf, compute_spf,
}
use netforge.Ospf.Spf.Walks.{Walk, stand, IsSound, relax_all-IsSound, nearest-IsNearest}

module _ (lsdb : GoMap String RouterLsa) (root_id : String) where
  abbrev Sound : Search → Type 0
  Sound = IsSound lsdb root_id

  -- A round on a router that the choice has found.
  round-IsSound :
      (s : Search) (u : String) (d : Int64)
      → Sound s
      → get s.distances u ≡ some d
      → lt64 d unreached ≡ true
      → Sound (relax_all root_id u (visit s u) (links_of lsdb u))
  round-IsSound s u d sound g lt = elim (sound.found u d g) [
    | inl p ↦ absurd (ground arith)
    | inr w ↦
        relax_all-IsSound lsdb root_id u (hop s u) d (visit s u) (links_of lsdb u)
          (record { unique = sound.unique; found = sound.found })
          (record {
            at = g;
            via = refl;
            closed = ground (arith, get-put s.visited u u true, eq_iff u u);
            walk = w;
          })
          (All-of_In _ (links_of lsdb u) (λ link m. m))
  ]

  rounds-IsSound : (n : ℕ) (s : Search) → Sound s → Sound (rounds lsdb root_id n s)
  unfolding rounds
  rounds-IsSound zero s sound = sound
  rounds-IsSound (suc n) s sound =
      let u = nearest s s.distances "" unreached in
      elim (Bool-cases (u == "")) [
        | inl no_more ↦ rw no_more sound
        | inr more ↦ rw more (
            rounds-IsSound n (relax_all root_id u (visit s u) (links_of lsdb u))
              (elim (nearest-IsNearest s s.distances "" unreached) [
                | inl p ↦ cc (more, (eq_iff u "").1 p)
                | inr (d, m, lt, v) ↦
                    round-IsSound s u d sound (get-In s.distances u d sound.unique m) lt
              ]))
      ]

  -- A map whose distances are all unreached.
  unreached_all-lem :
      (rest : GoMap String RouterLsa) (m : GoMap String Int64)
      → IsUnique m
      → ((id : String) (d : Int64) → get m id ≡ some d → d ≡ unreached)
      → IsUnique (unreached_all rest m)
        × ((id : String) (d : Int64) → get (unreached_all rest m) id ≡ some d → d ≡ unreached)
  unfolding unreached_all
  unreached_all-lem [] m u h = (u, h)
  unreached_all-lem ((k, lsa) ∷ rest) m u h =
      unreached_all-lem rest (put m k unreached) (put-IsUnique m k unreached u)
        (λ id d g. ground (arith, get-put m k id unreached, h id d))

  start-IsSound : Sound (start lsdb root_id)
  unfolding start get
  start-IsSound =
      let (u, h) = unreached_all-lem lsdb [] tt (λ id d g. cc) in
      let all = unreached_all lsdb [] in
      record {
        unique = put-IsUnique all root_id 0 u;
        found = λ id d g. elim (Bool-cases (root_id == id)) [
          | inl same ↦
              let q : 0 ≡ d = ground (arith, get-put all root_id id 0) in
              inr (subst₃ (Walk lsdb root_id) ((eq_iff root_id id).0 same) refl q stand)
          | inr other ↦ inl (h id d (ground (arith, get-put all root_id id 0)))
        ];
      }

  -- The metric and the next hop of a route are those of a walk to its destination.
  abbrev pub IsWalked : SpfResult → Type 0
  IsWalked r = Walk lsdb root_id r.destination r.next_hop r.metric

  collect-IsWalked :
      (s : Search) (m : GoMap String Int64) (results : GoMap String SpfResult)
      → Sound s
      → All (λ e. get s.distances e.0 ≡ some e.1) m
      → All IsWalked (values results)
      → All IsWalked (values (collect root_id s m results))
  unfolding collect
  collect-IsWalked s [] results sound at h = h
  collect-IsWalked s ((dest, metric) ∷ rest) results sound at h =
      elim (Bool-cases (dest == root_id || le64 unreached metric)) [
        | inl skipped ↦ rw skipped (collect-IsWalked s rest results sound at.1 h)
        | inr taken ↦
            let r : SpfResult = record {
              destination = dest;
              next_hop = hop s dest;
              metric = metric;
            } in
            rw taken (
              collect-IsWalked s rest (put results dest r) sound at.1 (
                All-put IsWalked results dest r h (elim (sound.found dest metric at.0) [
                  | inl p ↦ absurd (ground arith)
                  | inr w ↦ w
                ])))
      ]

-- Every route that ComputeSPF returns has the cost of a walk from the root over links of the
-- database, and for next hop the router after the walk's last stand at the root.
pub compute_spf-IsWalked :
    (lsdb : GoMap String RouterLsa) (root_id : String)
    → All (IsWalked lsdb root_id) (values (compute_spf lsdb root_id))
unfolding compute_spf search_spf
compute_spf-IsWalked lsdb root_id =
    let s = search_spf lsdb root_id in
    let sound =
      rounds-IsSound lsdb root_id (length lsdb) (start lsdb root_id) (start-IsSound lsdb root_id) in
    collect-IsWalked lsdb root_id s s.distances [] sound
      (All-of_In _ s.distances (λ e m. get-In s.distances e.0 e.1 sound.unique m)) tt
