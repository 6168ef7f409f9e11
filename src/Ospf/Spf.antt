-- ===== src/Ospf/Spf.antt =====
-- ComputeSPF of src-tauri/engine/network/protocol/ospf.go: Dijkstra's algorithm over a link-state
-- database. The three maps are the state; a missing distance reads as 0, a missing next hop as "".
pub mod Walks
pub mod Known
pub mod Routes
use netforge.Prelude.{
  ℕ, zero, suc, String, Bool, true, false, ◌||◌, ◌&&◌, not, Option, none, some, List, [], ◌∷◌,
  length, ◌==◌, string_eq, if◌then◌else◌,
}
use netforge.Prelude.Int64.{Int64, add64, lt64, le64}
use netforge.Prelude.GoMap.{GoMap, get, put}
use netforge.Ospf.{LsaLink, RouterLsa}

abbrev pub unreached : Int64
unreached = 999999

pub record SpfResult : Type 0 where
  pub destination : String
  pub next_hop : String
  pub metric : Int64

pub record Search : Type 0 where
  pub distances : GoMap String Int64
  pub next_hops : GoMap String String
  pub visited : GoMap String Bool

abbrev pub or_zero : Option Int64 → Int64
or_zero none = 0
or_zero (some d) = d

abbrev pub or_empty : Option String → String
or_empty none = ""
or_empty (some s) = s

abbrev pub or_false : Option Bool → Bool
or_false none = false
or_false (some b) = b

abbrev pub no_links : Option RouterLsa → List LsaLink
no_links none = []
no_links (some lsa) = lsa.links

-- distances[id], nextHops[id], visited[id], lsdb[id].Links
abbrev pub distance : Search → String → Int64
distance s id = or_zero (get s.distances id)

abbrev pub hop : Search → String → String
hop s id = or_empty (get s.next_hops id)

abbrev pub is_visited : Search → String → Bool
is_visited s id = or_false (get s.visited id)

abbrev pub links_of : GoMap String RouterLsa → String → List LsaLink
links_of lsdb id = no_links (get lsdb id)

unfoldable pub unreached_all : GoMap String RouterLsa → GoMap String Int64 → GoMap String Int64
unreached_all [] distances = distances
unreached_all ((id, lsa) ∷ rest) distances = unreached_all rest (put distances id unreached)

unfoldable pub start : GoMap String RouterLsa → String → Search
start lsdb root_id = record {
  distances = put (unreached_all lsdb []) root_id 0;
  next_hops = [];
  visited = [];
}

-- The choice of `u`: the loop over the distances, with `u` and `minDist`.
unfoldable pub nearest : Search → GoMap String Int64 → String → Int64 → String
nearest s [] u min_dist = u
nearest s ((id, dist) ∷ rest) u min_dist =
    let better = not (is_visited s id) && lt64 dist min_dist in
    nearest s rest (if better then id else u) (if better then dist else min_dist)

unfoldable pub relax : String → String → Search → LsaLink → Search
relax root_id u s link =
    let alt_cost = add64 (distance s u) link.cost in
    if is_visited s link.connected_id
    then s
    else if lt64 alt_cost (distance s link.connected_id)
    then record s {
      distances = put s.distances link.connected_id alt_cost;
      next_hops =
          put s.next_hops link.connected_id (if u == root_id then link.connected_id else hop s u);
    }
    else s

unfoldable pub relax_all : String → String → Search → List LsaLink → Search
relax_all root_id u s [] = s
relax_all root_id u s (link ∷ rest) = relax_all root_id u (relax root_id u s link) rest

abbrev pub visit : Search → String → Search
visit s u = record s { visited = put s.visited u true }

-- At most one round for each router of the database; a round that finds no `u` ends the loop.
unfoldable pub rounds : GoMap String RouterLsa → String → ℕ → Search → Search
rounds lsdb root_id zero s = s
rounds lsdb root_id (suc n) s =
    let u = nearest s s.distances "" unreached in
    let rest = rounds lsdb root_id n (relax_all root_id u (visit s u) (links_of lsdb u)) in
    if u == "" then s else rest

unfoldable pub collect :
    String → Search → GoMap String Int64 → GoMap String SpfResult → GoMap String SpfResult
collect root_id s [] results = results
collect root_id s ((dest, metric) ∷ rest) results = collect root_id s rest (
    if dest == root_id || le64 unreached metric
    then results
    else put results dest (record { destination = dest; next_hop = hop s dest; metric = metric }))

unfoldable pub search_spf : GoMap String RouterLsa → String → Search
search_spf lsdb root_id = rounds lsdb root_id (length lsdb) (start lsdb root_id)

unfoldable pub compute_spf : GoMap String RouterLsa → String → GoMap String SpfResult
compute_spf lsdb root_id = let s = search_spf lsdb root_id in collect root_id s s.distances []
