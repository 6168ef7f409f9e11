-- ===== src/Ospf/Spf/Known.antt =====
-- Which destinations ComputeSPF can return.
use text.Mathlib.TextEquality.{eq_iff}
use mathlib.Core.Path.{subst}
use netforge.Prelude.{
  ℕ, zero, suc, ◌≡◌, ◌≢◌, ◌≤◌, ◌<◌, ◌^◌, refl, sym, ◌⊎◌, inl, inr, String, true, ◌||◌, Option, none,
  some, arith, List, [], ◌∷◌, All, length, ◌==◌, string_eq, if◌then◌else◌, Bool-cases, Option-cases,
}
use netforge.Prelude.Int64.{Int64, add64, lt64, le64}
use netforge.Prelude.GoMap.{GoMap, get, put, get-put, values, All-get}
use netforge.Ospf.{LsaLink, RouterLsa}
use netforge.Ospf.Spf.{
  SpfResult, Search, unreached, distance, hop, is_visited, links_of, unreached_all, start, nearest,
  relax, relax_all, visit, rounds, or_zero, collect, search_spf, compute_spf,
}

-- A cost that no sum of the search wraps around with: from 0 up to 2^61.
abbrev pub IsCost : LsaLink → Type 0
IsCost link = link.cost < 2 ^ 61

abbrev pub HasCosts : RouterLsa → Type 0
HasCosts lsa = All IsCost lsa.links

-- A lower distance is found only where one is held.
better_held :
    (a c : Int64) (held : Option Int64)
    → lt64 (add64 a c) (or_zero held) ≡ true
    → a ≤ unreached
    → c < 2 ^ 61
    → or_zero held ≤ unreached
    → (held ≢ none) × (add64 a c ≤ unreached)
better_held a c none lt ha hc hh = absurd (ground arith)
better_held a c (some d) lt ha hc hh = ground arith

module _ (lsdb : GoMap String RouterLsa) (root_id : String) where
  abbrev pub IsKnown : String → Type 0
  IsKnown id = (id ≡ root_id) ⊎ (get lsdb id ≢ none)

  -- The distances are of known routers, and at most the start value.
  pub record IsConfined (s : Search) : Type 0 where
    pub known : (id : String) → get s.distances id ≢ none → IsKnown id
    pub short : (id : String) → distance s id ≤ unreached

  relax-IsConfined :
      (u : String) (s : Search) (link : LsaLink)
      → IsConfined s
      → IsCost link
      → IsConfined (relax root_id u s link)
  unfolding relax
  relax-IsConfined u s link c h =
      let v = link.connected_id in
      let alt_cost = add64 (distance s u) link.cost in
      elim (Bool-cases (is_visited s v)) [
        | inl seen ↦ rw seen c
        | inr unseen ↦ elim (Bool-cases (lt64 alt_cost (distance s v))) [
          | inr no_better ↦ rw (unseen, no_better) c
          | inl better ↦
              let (held, short) =
                better_held (distance s u) link.cost (get s.distances v) better (c.short u) h
                  (c.short v) in
              rw (unseen, better)
                (record {
                  known = λ id g. elim (Bool-cases (v == id)) [
                    | inl same ↦ subst IsKnown ((eq_iff v id).0 same) (c.known v held)
                    | inr other ↦ c.known id (ground (arith, get-put s.distances v id alt_cost))
                  ];
                  short = λ id. ground (arith, get-put s.distances v id alt_cost, c.short id);
                })
        ]
      ]

  relax_all-IsConfined :
      (u : String) (s : Search) (links : List LsaLink)
      → IsConfined s
      → All IsCost links
      → IsConfined (relax_all root_id u s links)
  unfolding relax_all
  relax_all-IsConfined u s [] c h = c
  relax_all-IsConfined u s (link ∷ rest) c h =
      relax_all-IsConfined u (relax root_id u s link) rest (relax-IsConfined u s link c h.0) h.1

  links_of-IsCost : (u : String) → All HasCosts (values lsdb) → All IsCost (links_of lsdb u)
  links_of-IsCost u h = elim (Option-cases (get lsdb u)) [
    | inl missing ↦ rw missing tt
    | inr (lsa, held) ↦ rw held (All-get HasCosts lsdb u lsa h held)
  ]

  rounds-IsConfined :
      (n : ℕ) (s : Search)
      → All HasCosts (values lsdb)
      → IsConfined s
      → IsConfined (rounds lsdb root_id n s)
  unfolding rounds
  rounds-IsConfined zero s h c = c
  rounds-IsConfined (suc n) s h c =
      let u = nearest s s.distances "" unreached in
      elim (Bool-cases (u == "")) [
        | inl no_more ↦ rw no_more c
        | inr more ↦ rw more (
            rounds-IsConfined n (relax_all root_id u (visit s u) (links_of lsdb u)) h (
              relax_all-IsConfined u (visit s u) (links_of lsdb u)
                (record { known = c.known; short = c.short }) (links_of-IsCost u h)))
      ]

  start_known :
      (rest : GoMap String RouterLsa) (m : GoMap String Int64)
      → ((id : String) → or_zero (get m id) ≤ unreached)
      → (id : String)
      → (get (unreached_all rest m) id ≢ none → (get rest id ≢ none) ⊎ (get m id ≢ none))
        × (or_zero (get (unreached_all rest m) id) ≤ unreached)
  unfolding unreached_all get
  start_known [] m short id = (λ g. inr g, short id)
  start_known ((k, lsa) ∷ rest) m short id =
      let m' = put m k unreached in
      let (known', short') =
        start_known rest m' (λ j. ground (arith, get-put m k j unreached, short j)) id in
      let new : get m' id ≡ (if k == id then some unreached else get m id) =
        get-put m k id unreached in
      (
        λ g. elim (Bool-cases (k == id)) [
          | inl same ↦ rw same (inl (λ p. cc))
          | inr other ↦
              rw other
                (elim (known' g) [ inl r ↦ inl r | inr r ↦ inr (λ p. r (ground (arith, new))) ])
        ],
        short',
      )

  start-IsConfined : IsConfined (start lsdb root_id)
  unfolding start get
  start-IsConfined =
      let all = unreached_all lsdb [] in
      let lem = start_known lsdb [] (λ id. omega arith) in
      record {
        known = λ id g. elim (Bool-cases (root_id == id)) [
          | inl same ↦ inl (sym ((eq_iff root_id id).0 same))
          | inr other ↦ elim ((lem id).0 (ground (arith, get-put all root_id id 0))) [
            | inl r ↦ inr r
            | inr r ↦ absurd (r refl)
          ]
        ];
        short = λ id. ground (arith, get-put all root_id id 0, (lem id).1);
      }

  entry_held :
      (k dest : String) (metric : Int64) (held : Option Int64)
      → held ≢ none
      → (if k == dest then some metric else held) ≢ none
  entry_held k dest metric held h = ground arith

  collect_known :
      (s : Search) (m : GoMap String Int64) (results : GoMap String SpfResult) (dest : String)
      → get (collect root_id s m results) dest ≢ none
      → (get results dest ≢ none) ⊎ ((dest ≢ root_id) × (get m dest ≢ none))
  unfolding collect get
  collect_known s [] results dest g = inl g
  collect_known s ((k, metric) ∷ rest) results dest g =
      let route : SpfResult = record { destination = k; next_hop = hop s k; metric = metric } in
      elim (Bool-cases (k == root_id || le64 unreached metric)) [
        | inl skipped ↦ elim (collect_known s rest results dest (rw skipped at g)) [
          | inl r ↦ inl r
          | inr (ne, r) ↦ inr (ne, entry_held k dest metric (get rest dest) r)
        ]
        | inr taken ↦ elim (collect_known s rest (put results k route) dest (rw taken at g)) [
          | inr (ne, r) ↦ inr (ne, entry_held k dest metric (get rest dest) r)
          | inl r ↦ elim (Bool-cases (k == dest)) [
            | inl same ↦
                inr (λ p. ground (arith, eq_iff k dest, eq_iff k root_id), rw same (λ p. cc))
            | inr other ↦ inl (λ p. r (ground (arith, get-put results k dest route)))
          ]
        ]
      ]

-- ComputeSPF returns routes to routers of the database alone: a subnet that is only the end of a
-- stub link, and the root itself, have none. The costs are those of IsCost.
pub compute_spf-IsKnown :
    (lsdb : GoMap String RouterLsa) (root_id dest : String)
    → All HasCosts (values lsdb)
    → get (compute_spf lsdb root_id) dest ≢ none
    → (dest ≢ root_id) × (get lsdb dest ≢ none)
unfolding compute_spf search_spf get
compute_spf-IsKnown lsdb root_id dest h g =
    let s = search_spf lsdb root_id in
    let c =
      rounds-IsConfined lsdb root_id (length lsdb) (start lsdb root_id) h
        (start-IsConfined lsdb root_id) in
    elim (collect_known lsdb root_id s s.distances [] dest g) [
      | inl r ↦ absurd (r refl)
      | inr (ne, r) ↦ elim (c.known dest r) [ inl p ↦ absurd (ne p) | inr known ↦ (ne, known) ]
    ]
