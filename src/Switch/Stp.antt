-- ===== src/Switch/Stp.antt =====
-- The spanning tree of a switch (src-tauri/engine/network/switch.go): RunSTP.
pub mod Extremes
pub mod Blocked
use netforge.Prelude.{
  ◌≡◌, refl, ◌∙◌, String, Bool, true, false, ◌&&◌, not, Option, none, some, List, [], ◌∷◌, any,
  length, ltb, text_lt, arith, ◌==◌, string_eq, if◌then◌else◌, Bool-cases, Option-cases, inl, inr,
  sym, beq-eq_true,
}
use netforge.Prelude.GoMap.{GoMap, get, put, keys, get-put}
use netforge.Switch.{Switch, SwitchPortConfig, blocking}

-- The root that the loop over the switches ends with.
unfoldable pub least_bridge : String → List Switch → String
least_bridge root [] = root
least_bridge root (other ∷ rest) =
    least_bridge (if text_lt other.bridge_id root then other.bridge_id else root) rest

-- The greatest name of a port.
unfoldable pub last_port : String → List String → String
last_port last [] = last
last_port last (port_id ∷ rest) = last_port (if text_lt last port_id then port_id else last) rest

unfoldable pub unblock_all : GoMap String Bool → List String → GoMap String Bool
unblock_all blocked [] = blocked
unblock_all blocked (port_id ∷ rest) = unblock_all (put blocked port_id false) rest

-- `sw.Ports[last].STPState = STPBlocking`
abbrev pub block_port : GoMap String SwitchPortConfig → String → GoMap String SwitchPortConfig
block_port ports last = elim (get ports last) [
  | none ↦ ports
  | some cfg ↦ put ports last (record cfg { stp_state = blocking })
]

-- `len(sw.Ports) > 2 && sw.ID > root`
abbrev pub blocks : Switch → String → Bool
blocks sw root = ltb 2 (length (keys sw.ports)) && text_lt root sw.id

unfoldable pub run_stp : Switch → List Switch → Switch
unfolding least_bridge last_port unblock_all
run_stp sw all_switches =
    let root = least_bridge sw.bridge_id all_switches in
    let last = last_port "" (keys sw.ports) in
    let rooted = record sw { root_bridge = root } in
    let opened = unblock_all sw.blocked_ports (keys sw.ports) in
    if blocks sw root
    then (if not (last == "")
        then record rooted {
          blocked_ports = put opened last true;
          ports = block_port sw.ports last;
        }
        else record rooted { blocked_ports = opened })
    else rooted
