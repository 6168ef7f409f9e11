-- ===== src/Vtp.antt =====
-- The VLAN Trunking Protocol and the VLAN names of a switch (src-tauri/engine/network/vtp.go). The
-- message that syncVTPFromServer logs is a flag here: true where the code logs one.
pub mod Sync
use netforge.Prelude.{
  ℕ, String, Bool, true, false, not, ◌&&◌, ◌||◌, Option, none, some, List, [], ◌∷◌, ◌==◌, nat_eq,
  string_eq, if◌then◌else◌,
}
use netforge.Prelude.Int64.{Int64, add64, le64}
use netforge.Prelude.GoMap.{GoMap, get, put, keys}
use netforge.Switch.{
  VtpMode, VtpConfig, SwitchPortConfig, access, Switch, with_vlan, with_vlans, change_port,
}

abbrev pub is_server : VtpMode → Bool
is_server VtpMode.server = true
is_server _ = false

abbrev pub is_client : VtpMode → Bool
is_client VtpMode.client = true
is_client _ = false

-- The password goes back to "".
unfoldable pub configure_vtp : Switch → String → VtpMode → Switch
configure_vtp sw domain mode = record sw {
  vtp = record { domain = domain; mode = mode; revision = sw.vtp.revision; password = "" };
}

unfoldable pub set_vlan_name : Switch → ℕ → String → Switch
set_vlan_name sw vlan name = record sw {
  vlans = put sw.vlans vlan true;
  vlan_names = put sw.vlan_names vlan name;
  vtp = record sw.vtp {
    revision = if is_server sw.vtp.mode then add64 sw.vtp.revision 1 else sw.vtp.revision;
  };
}

unfoldable pub put_names : GoMap ℕ String → GoMap ℕ String → GoMap ℕ String
put_names names [] = names
put_names names ((v, n) ∷ rest) = put_names (put names v n) rest

unfoldable pub sync_vtp_from_server : Switch → Switch → Switch × Bool
unfolding with_vlans
sync_vtp_from_server server client =
    let rev = server.vtp.revision in
    let merged = with_vlans client (keys server.vlans) in
    if le64 rev client.vtp.revision then (client, false) else (
      record merged {
        vlan_names = put_names client.vlan_names server.vlan_names;
        vtp = record client.vtp { revision = rev };
      },
      true,
    )

-- The servers by their domains; of two in one domain the later one stays.
unfoldable pub servers_of : GoMap String Switch → GoMap String Switch → GoMap String Switch
servers_of [] servers = servers
servers_of ((id, sw) ∷ rest) servers = servers_of rest (
    if is_server sw.vtp.mode && not (sw.vtp.domain == "")
    then put servers sw.vtp.domain sw
    else servers)

abbrev pub sync_with : Switch → Option Switch → Switch × Bool
sync_with sw none = (sw, false)
sync_with sw (some server) = sync_vtp_from_server server sw

unfoldable pub propagate_to : GoMap String Switch → Switch → Switch × Bool
propagate_to servers sw =
    if not (is_client sw.vtp.mode) || sw.vtp.domain == ""
    then (sw, false)
    else sync_with sw (get servers sw.vtp.domain)

-- The second loop writes clients and reads servers, which are never the same switch.
unfoldable pub propagate_all : GoMap String Switch → GoMap String Switch → GoMap String Switch
propagate_all servers [] = []
propagate_all servers ((id, sw) ∷ rest) =
    (id, (propagate_to servers sw).0) ∷ propagate_all servers rest

unfoldable pub propagate_vtp : GoMap String Switch → GoMap String Switch
unfolding servers_of propagate_all propagate_to
propagate_vtp switches = propagate_all (servers_of switches []) switches

unfoldable pub set_voice_vlan : Switch → String → ℕ → ℕ → Switch
unfolding change_port
set_voice_vlan sw port_id data_vlan voice_vlan =
    with_vlan
      (with_vlan
        (change_port sw port_id (λ cfg. record cfg {
          mode = access;
          access_vlan = data_vlan;
          voice_vlan = voice_vlan;
          voice_enabled = true;
        }))
        data_vlan)
      voice_vlan

unfoldable pub set_qos_trust : Switch → String → Int64 → Switch
unfolding change_port
set_qos_trust sw port_id priority =
    change_port sw port_id (λ cfg. record cfg { qos_priority = priority })
