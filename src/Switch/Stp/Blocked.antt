-- ===== src/Switch/Stp/Blocked.antt =====
-- The root and the ports that RunSTP leaves.
use netforge.Prelude.{
  ◌≡◌, refl, ◌∙◌, String, Bool, true, false, ◌&&◌, not, Option, none, some, List, [], ◌∷◌, any, In,
  length, ltb, text_lt, arith, ◌==◌, string_eq, if◌then◌else◌, Bool-cases, Option-cases, ◌⊎◌, inl,
  inr, sym, beq-eq_true,
}
use netforge.Prelude.GoMap.{GoMap, get, put, keys, get-put}
use netforge.Switch.{Switch, SwitchPortConfig, blocking}
use netforge.Switch.Stp.{least_bridge, last_port, unblock_all, block_port, blocks, run_stp}
use netforge.Switch.Stp.Extremes.{
  IsLeast, IsGreatest, least_bridge-IsLeast, least_bridge-member, last_port-IsGreatest,
  last_port-member,
}

get-unblock_all :
    (blocked : GoMap String Bool) (ports : List String) (port_id : String)
    → get (unblock_all blocked ports) port_id
      ≡ (if any (λ p. p == port_id) ports then some false else get blocked port_id)
unfolding unblock_all
get-unblock_all blocked [] port_id = refl
get-unblock_all blocked (p ∷ rest) port_id =
    get-unblock_all (put blocked p false) rest port_id
    ∙ rw (get-put blocked p port_id false) ground arith

flag : (b : Bool) → (if b then some true else some false) ≡ some b
flag true = refl
flag false = refl

-- The configuration of a port that is blocked.
abbrev pub blocked_cfg : Option SwitchPortConfig → Option SwitchPortConfig
blocked_cfg none = none
blocked_cfg (some cfg) = some (record cfg { stp_state = blocking })

get-block_port :
    (ports : GoMap String SwitchPortConfig) (last port_id : String)
    → get (block_port ports last) port_id
      ≡ (if last == port_id then blocked_cfg (get ports port_id) else get ports port_id)
get-block_port ports last port_id = elim (Option-cases (get ports last)) [
  | inl e ↦ elim (Bool-cases (last == port_id)) [
    | inl hit ↦
        let same : get ports port_id ≡ none = rw (sym (beq-eq_true last port_id hit)) e in
        rw (e, hit, same, block_port) refl
    | inr miss ↦ rw (e, miss, block_port) refl
  ]
  | inr (cfg, e) ↦
      let new = record cfg { stp_state = blocking } in
      elim (Bool-cases (last == port_id)) [
        | inl hit ↦
            let same : get ports port_id ≡ some cfg = rw (sym (beq-eq_true last port_id hit)) e in
            rw (e, same, block_port) (get-put ports last port_id new ∙ rw hit refl)
        | inr miss ↦ rw (e, block_port) (get-put ports last port_id new ∙ rw miss refl)
      ]
]

-- The same with the loops' own results.
get-run_stp_loops :
    (sw : Switch) (all_switches : List Switch) (port_id : String)
    → any (λ p. p == port_id) (keys sw.ports) ≡ true
    → let root = least_bridge sw.bridge_id all_switches in
      let last = last_port "" (keys sw.ports) in
      let after = run_stp sw all_switches in
      let is_last = not (last == "") && last == port_id in
      (after.root_bridge ≡ root)
      × (get after.blocked_ports port_id
          ≡ (if blocks sw root then some is_last else get sw.blocked_ports port_id))
      × (get after.ports port_id ≡ (
          if blocks sw root && is_last
          then blocked_cfg (get sw.ports port_id)
          else get sw.ports port_id))
unfolding run_stp
get-run_stp_loops sw all_switches port_id own =
    let root = least_bridge sw.bridge_id all_switches in
    let last = last_port "" (keys sw.ports) in
    let opened = get-unblock_all sw.blocked_ports (keys sw.ports) port_id in
    let closed = get-put (unblock_all sw.blocked_ports (keys sw.ports)) last port_id true in
    elim (Bool-cases (blocks sw root)) [
      | inr kept ↦ rw (kept, run_stp) (refl, refl, refl)
      | inl chosen ↦ elim (Bool-cases (last == "")) [
        | inl empty ↦ rw (chosen, empty, run_stp) (refl, opened ∙ rw own refl, refl)
        | inr named ↦
            rw (chosen, named, run_stp)
              (
                refl,
                closed ∙ rw (opened, own) (flag (last == port_id)),
                get-block_port sw.ports last port_id,
              )
      ]
    ]

-- The root that a run leaves is the switch's own bridge or that of a switch of the list, and none of
-- these is less. Where the switch has more than two ports and its name comes after the root's, the port
-- whose name none of its ports' names exceeds is blocked, in the set of the blocked ports and in its
-- configuration, unless that name is empty, and no other port of the switch is in the set; the
-- configuration of the others is as it was, the blocking of an earlier run included. On any other switch
-- the ports and what is blocked are as they were. The port asked for is one of the switch.
pub get-run_stp :
    (sw : Switch) (all_switches : List Switch) (port_id : String)
    → any (λ p. p == port_id) (keys sw.ports) ≡ true
    → (last : String) × (let after = run_stp sw all_switches in
        let root = after.root_bridge in
        let redundant = ltb 2 (length (keys sw.ports)) && text_lt root sw.id in
        let is_last = not (last == "") && last == port_id in
        ((root ≡ sw.bridge_id)
          ⊎ ((other : Switch) × In other all_switches × (other.bridge_id ≡ root)))
        × (text_lt sw.bridge_id root ≡ false)
        × IsLeast root all_switches
        × ((last ≡ "") ⊎ In last (keys sw.ports))
        × IsGreatest last (keys sw.ports)
        × (get after.blocked_ports port_id
            ≡ (if redundant then some is_last else get sw.blocked_ports port_id))
        × (get after.ports port_id ≡ (
            if redundant && is_last
            then blocked_cfg (get sw.ports port_id)
            else get sw.ports port_id)))
get-run_stp sw all_switches port_id own =
    let least = least_bridge-IsLeast sw.bridge_id all_switches in
    let greatest = last_port-IsGreatest "" (keys sw.ports) in
    let (rooted, blocked, configured) = get-run_stp_loops sw all_switches port_id own in
    (
      last_port "" (keys sw.ports),
      rw rooted (
        least_bridge-member sw.bridge_id all_switches,
        least.0,
        least.1,
        last_port-member "" (keys sw.ports),
        greatest.1,
        blocked,
        configured,
      ),
    )
