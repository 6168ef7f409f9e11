-- ===== src/Ospf/Spf/Walks.antt =====
-- Every route that ComputeSPF returns is that of a walk over the links of the database.
use text.Mathlib.TextEquality.{eq_iff}
use mathlib.Core.Path.{subst, subst₃}
use netforge.Prelude.{
  ◌≡◌, ◌≢◌, refl, sym, ap, ◌⊎◌, inl, inr, String, true, false, not, ◌&&◌, some, arith, List, [],
  ◌∷◌, All, In, here, there, ◌==◌, string_eq, if◌then◌else◌, Bool-cases,
}
use netforge.Prelude.Int64.{Int64, add64, lt64}
use netforge.Prelude.GoMap.{GoMap, get, put, get-put, IsUnique, put-IsUnique}
use netforge.Ospf.{LsaLink, RouterLsa}
use netforge.Ospf.Spf.{
  Search, unreached, distance, hop, is_visited, links_of, nearest, relax, relax_all,
}

module _ (lsdb : GoMap String RouterLsa) (root_id : String) where
  -- A walk from the root over links of the database: where it ends, the first router after its
  -- last stand at the root, and its cost, the sum of the links' costs in 64-bit integers.
  pub data Walk : String → String → Int64 → Type 0 where
    stand : Walk root_id "" 0
    leave :
        (u h : String) (d : Int64) (link : LsaLink)
        → u ≡ root_id
        → Walk u h d
        → In link (links_of lsdb u)
        → Walk link.connected_id link.connected_id (add64 d link.cost)
    go_on :
        (u h : String) (d : Int64) (link : LsaLink)
        → u ≢ root_id
        → Walk u h d
        → In link (links_of lsdb u)
        → Walk link.connected_id h (add64 d link.cost)

  -- What is known of a distance.
  abbrev pub IsFound : Search → String → Int64 → Type 0
  IsFound s id d = (d ≡ unreached) ⊎ Walk id (hop s id) d

  pub record IsSound (s : Search) : Type 0 where
    pub unique : IsUnique s.distances
    pub found : (id : String) (d : Int64) → get s.distances id ≡ some d → IsFound s id d

  -- The router whose links are being relaxed.
  pub record IsCurrent (u h : String) (d : Int64) (s : Search) : Type 0 where
    pub at : get s.distances u ≡ some d
    pub via : hop s u ≡ h
    pub closed : is_visited s u ≡ true
    pub walk : Walk u h d

  -- The walk that a link adds to.
  step-Walk :
      (u h : String) (d : Int64) (link : LsaLink)
      → Walk u h d
      → In link (links_of lsdb u)
      → Walk link.connected_id (if u == root_id then link.connected_id else h) (add64 d link.cost)
  step-Walk u h d link w m = elim (Bool-cases (u == root_id)) [
    | inl same ↦ rw same (leave u h d link ((eq_iff u root_id).0 same) w m)
    | inr other ↦ rw other (go_on u h d link (λ p. cc ((eq_iff u root_id).1 p)) w m)
  ]

  abbrev updated : Search → String → Int64 → String → Search
  updated s v d h = record s { distances = put s.distances v d; next_hops = put s.next_hops v h }

  updated-IsFound :
      (s : Search) (v : String) (d : Int64) (h : String)
      → IsSound s
      → Walk v h d
      → (id : String) (d' : Int64) → get (put s.distances v d) id ≡ some d'
      → IsFound (updated s v d h) id d'
  updated-IsFound s v d h sound w id d' g = elim (Bool-cases (v == id)) [
    | inl same ↦
        let p : v ≡ id = (eq_iff v id).0 same in
        let q : d ≡ d' = ground (arith, get-put s.distances v id d) in
        let r : h ≡ hop (updated s v d h) id = ground (arith, get-put s.next_hops v id h) in
        inr (subst₃ Walk p r q w)
    | inr other ↦
        let old : get s.distances id ≡ some d' = ground (arith, get-put s.distances v id d) in
        let r : hop s id ≡ hop (updated s v d h) id = ground (arith, get-put s.next_hops v id h) in
        subst (λ x. (d' ≡ unreached) ⊎ Walk id x d') r (sound.found id d' old)
  ]

  updated-IsSound :
      (s : Search) (v : String) (d : Int64) (h : String)
      → IsSound s
      → Walk v h d
      → IsSound (updated s v d h)
  updated-IsSound s v d h sound w = record {
    unique = put-IsUnique s.distances v d sound.unique;
    found = updated-IsFound s v d h sound w;
  }

  updated-IsCurrent :
      (s : Search) (u h : String) (d : Int64) (v h' : String) (d' : Int64)
      → IsCurrent u h d s
      → is_visited s v ≡ false
      → IsCurrent u h d (updated s v d' h')
  updated-IsCurrent s u h d v h' d' c unseen =
      let apart : (v == u) ≡ false = elim (Bool-cases (v == u)) [
        | inl same ↦ cc (ap (is_visited s) ((eq_iff v u).0 same), unseen, c.closed)
        | inr other ↦ other
      ] in
      record {
        at = ground (arith, get-put s.distances v u d');
        via = ground (arith, get-put s.next_hops v u h');
        closed = c.closed;
        walk = c.walk;
      }

  relax-IsSound :
      (u h : String) (d : Int64) (s : Search) (link : LsaLink)
      → IsSound s
      → IsCurrent u h d s
      → In link (links_of lsdb u)
      → IsSound (relax root_id u s link) × IsCurrent u h d (relax root_id u s link)
  unfolding relax
  relax-IsSound u h d s link sound c m =
      let v = link.connected_id in
      let alt_cost = add64 (distance s u) link.cost in
      let cost : alt_cost ≡ add64 d link.cost = ground (arith, c.at) in
      elim (Bool-cases (is_visited s v)) [
        | inl seen ↦ rw seen (sound, c)
        | inr unseen ↦ elim (Bool-cases (lt64 alt_cost (distance s v))) [
          | inr no_better ↦ rw (unseen, no_better) (sound, c)
          | inl better ↦
              let h' = if u == root_id then v else hop s u in
              let w : Walk v h' alt_cost = rw (c.via, cost) (step-Walk u h d link c.walk m) in
              rw (unseen, better)
                (
                  updated-IsSound s v alt_cost h' sound w,
                  updated-IsCurrent s u h d v h' alt_cost c unseen,
                )
        ]
      ]

  pub relax_all-IsSound :
      (u h : String) (d : Int64) (s : Search) (links : List LsaLink)
      → IsSound s
      → IsCurrent u h d s
      → All (λ link. In link (links_of lsdb u)) links
      → IsSound (relax_all root_id u s links)
  unfolding relax_all
  relax_all-IsSound u h d s [] sound c m = sound
  relax_all-IsSound u h d s (link ∷ rest) sound c m =
      let (sound', c') = relax-IsSound u h d s link sound c m.0 in
      relax_all-IsSound u h d (relax root_id u s link) rest sound' c' m.1

-- What the choice of the next router finds: its start value, or a router that is not visited, at
-- less than the start value.
abbrev pub IsNearest : Search → GoMap String Int64 → String → Int64 → String → Type 0
IsNearest s m u min_dist r =
    (r ≡ u) ⊎ ((d : Int64) × In (r, d) m × (lt64 d min_dist ≡ true) × (is_visited s r ≡ false))

lt64_trans : (a b c : Int64) → lt64 a b ≡ true → lt64 b c ≡ true → lt64 a c ≡ true
lt64_trans a b c h k = ground arith

pub nearest-IsNearest :
    (s : Search) (m : GoMap String Int64) (u : String) (min_dist : Int64)
    → IsNearest s m u min_dist (nearest s m u min_dist)
unfolding nearest
nearest-IsNearest s [] u min_dist = inl refl
nearest-IsNearest s ((id, dist) ∷ rest) u min_dist =
    elim (Bool-cases (not (is_visited s id) && lt64 dist min_dist)) [
      | inl better ↦ rw better (elim (nearest-IsNearest s rest id dist) [
        | inl p ↦ inr (dist, here (λ i. (sym p i, dist)), ground arith, rw p (ground arith))
        | inr (d, m, lt, v) ↦ inr (d, there m, lt64_trans d dist min_dist lt (ground arith), v)
      ])
      | inr no_better ↦ rw no_better (elim (nearest-IsNearest s rest u min_dist) [
        | inl p ↦ inl p
        | inr (d, m, lt, v) ↦ inr (d, there m, lt, v)
      ])
    ]
