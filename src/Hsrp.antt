-- ===== src/Hsrp.antt =====
-- The Hot Standby Router Protocol (src-tauri/engine/network/hsrp.go): the groups of the routers and
-- the election. A group that the source reaches through a pointer is written where it stands in its
-- router. The key of a group, which fmt.Sprintf makes of port and number, is handed in. The copy of
-- the priority in a candidate is read from its group, and the event log is left out.
pub mod Election
use netforge.Prelude.{
  ℕ, String, Bool, true, false, ◌&&◌, Option, none, some, List, [], ◌∷◌, ◌++◌, ◌==◌, string_eq,
  nat_eq, any, if◌then◌else◌,
}
use netforge.Prelude.Int64.{Int64, lt64}
use netforge.Prelude.GoMap.{GoMap, put, values}

pub data HsrpState : Type 0 where
  active standby listen : HsrpState

pub record HsrpGroup : Type 0 where
  pub group_id : Int64
  pub interface : String
  pub virtual_ip : String
  pub priority : Int64
  pub preempt : Bool
  pub state : HsrpState
  pub hello_time : Int64

-- The groups of a router, by their keys.
abbrev pub Groups : Type 0
Groups = GoMap String HsrpGroup

unfoldable pub configure_hsrp : Groups → String → String → Int64 → String → Int64 → Bool → Groups
configure_hsrp groups key port_id group_id virtual_ip priority preempt = put groups key (record {
  group_id = group_id;
  interface = port_id;
  virtual_ip = virtual_ip;
  priority = priority;
  preempt = preempt;
  state = listen;
  hello_time = 3;
})

abbrev pub is_active : HsrpState → Bool
is_active active = true
is_active _ = false

unfoldable pub owns_hsrp_virtual_ip : Groups → String → Bool
owns_hsrp_virtual_ip groups ip = any (λ g. g.virtual_ip == ip && is_active g.state) (values groups)

pub record Candidate : Type 0 where
  pub router_id : String
  pub group : HsrpGroup

unfoldable pub groups_for : String → String → Groups → List Candidate
groups_for vip router_id [] = []
groups_for vip router_id ((key, g) ∷ rest) =
    if g.virtual_ip == vip
    then record { router_id = router_id; group = g } ∷ groups_for vip router_id rest
    else groups_for vip router_id rest

-- byVIP[vip]: the candidates of one virtual address, router by router.
unfoldable pub by_vip : String → GoMap String Groups → List Candidate
unfolding groups_for
by_vip vip [] = []
by_vip vip ((router_id, groups) ∷ rest) = groups_for vip router_id groups ++ by_vip vip rest

unfoldable pub best_of : Candidate → List Candidate → Candidate
best_of best [] = best
best_of best (c ∷ cs) = best_of (if lt64 best.group.priority c.group.priority then c else best) cs

-- The state of a candidate after the election that `best` wins.
unfoldable pub elected : Candidate → String → HsrpGroup → HsrpState
elected best router_id g =
    if router_id == best.router_id && g.group_id == best.group.group_id
    then active
    else if is_active g.state
    then g.state
    else standby

abbrev pub elect : List Candidate → String → HsrpGroup → HsrpGroup
elect [] router_id g = g
elect (c ∷ cs) router_id g = record g { state = elected (best_of c cs) router_id g }

unfoldable pub elect_groups : GoMap String Groups → String → Groups → Groups
unfolding by_vip best_of elected
elect_groups routers router_id [] = []
elect_groups routers router_id ((key, g) ∷ rest) =
    (key, elect (by_vip g.virtual_ip routers) router_id g) ∷ elect_groups routers router_id rest

unfoldable pub elect_routers : GoMap String Groups → GoMap String Groups → GoMap String Groups
unfolding elect_groups
elect_routers all [] = []
elect_routers all ((router_id, groups) ∷ rest) =
    (router_id, elect_groups all router_id groups) ∷ elect_routers all rest

-- The elections of two virtual addresses touch different groups, so that each group is written once
-- and from what stood there before.
unfoldable pub run_hsrp_election : GoMap String Groups → GoMap String Groups
unfolding elect_routers
run_hsrp_election routers = elect_routers routers routers
