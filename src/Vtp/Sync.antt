-- ===== src/Vtp/Sync.antt =====
-- What a client takes over from its VTP server.
use netforge.Prelude.{
  ℕ, ◌≡◌, refl, ◌∙◌, ap, String, true, false, ◌||◌, Option, none, some, arith, List, [], ◌∷◌, any,
  ◌==◌, nat_eq, string_eq, if◌then◌else◌, Bool-cases, inl, inr,
}
use netforge.Prelude.Int64.{le64}
use netforge.Prelude.GoMap.{GoMap, get, put, get-put, keys, IsUnique}
use netforge.Switch.{Switch, with_vlans, has_vlan, is_set}
use netforge.Vtp.{put_names, sync_vtp_from_server}

with_vlans-vlans :
    (sw : Switch) (vs : List ℕ) (v : ℕ)
    → get (with_vlans sw vs).vlans v ≡ (if any (λ x. x == v) vs then some true else get sw.vlans v)
unfolding with_vlans
with_vlans-vlans sw [] v = refl
with_vlans-vlans sw (x ∷ vs) v = ground (
  arith,
  with_vlans-vlans (record sw { vlans = put sw.vlans x true }) vs v,
  get-put sw.vlans x v true,
)

-- Nothing else of the switch is written.
with_vlans-frame :
    (sw : Switch) (vs : List ℕ) → with_vlans sw vs ≡ record sw { vlans = (with_vlans sw vs).vlans }
unfolding with_vlans
with_vlans-frame sw [] = refl
with_vlans-frame sw (x ∷ vs) = with_vlans-frame (record sw { vlans = put sw.vlans x true }) vs

abbrev pub or_name : Option String → Option String → Option String
or_name none b = b
or_name (some a) b = some a

get-put_names :
    (names new : GoMap ℕ String) (v : ℕ)
    → IsUnique new
    → get (put_names names new) v ≡ or_name (get new v) (get names v)
unfolding put_names get
get-put_names names [] v u = refl
get-put_names names ((k, n) ∷ rest) v u =
    ground (arith, get-put_names (put names k n) rest v, get-put names k v n)

-- A client takes over a server whose revision is higher: it then has its own VLANs and the
-- server's, the server's names before its own, and the server's revision, and everything else of it is
-- as it was. Where the server's revision is not higher the client is as it was. No VLAN has two names in
-- the server's map.
pub sync_vtp_from_server_lem :
    (server client : Switch) (v : ℕ)
    → IsUnique server.vlan_names
    → let after = (sync_vtp_from_server server client).0 in
      let stale = le64 server.vtp.revision client.vtp.revision in
      (after ≡ (
        if stale then client else record client {
          vlans = after.vlans;
          vlan_names = after.vlan_names;
          vtp = record client.vtp { revision = server.vtp.revision };
        }))
      × (has_vlan after v ≡ (
          if stale
          then has_vlan client v
          else any (λ x. x == v) (keys server.vlans) || has_vlan client v))
      × (get after.vlan_names v ≡ (
          if stale
          then get client.vlan_names v
          else or_name (get server.vlan_names v) (get client.vlan_names v)))
unfolding sync_vtp_from_server has_vlan
sync_vtp_from_server_lem server client v u =
    elim (Bool-cases (le64 server.vtp.revision client.vtp.revision)) [
      | inl old ↦ rw old (refl, refl, refl)
      | inr new ↦ rw new (
        ap
            (λ (sw : Switch). record sw {
              vlan_names = put_names client.vlan_names server.vlan_names;
              vtp = record client.vtp { revision = server.vtp.revision };
            })
            (with_vlans-frame client (keys server.vlans)),
        ap is_set (with_vlans-vlans client (keys server.vlans) v) ∙ ground arith,
        get-put_names client.vlan_names server.vlan_names v u,
      )
    ]

-- A client that is in step with its server takes nothing over, whatever VLANs and names the
-- server has got since, as long as the server's revision is the same.
pub sync_vtp_from_server-same_revision :
    (server server' client : Switch)
    → server'.vtp.revision ≡ server.vtp.revision
    → let after = (sync_vtp_from_server server client).0 in
      sync_vtp_from_server server' after ≡ (after, false)
unfolding sync_vtp_from_server
sync_vtp_from_server-same_revision server server' client same = ground arith
