-- ===== src/Wan/Circuits.antt =====
-- What a new Frame Relay circuit connects.
use netforge.Prelude.{
  ℕ, String, ◌≡◌, refl, ◌∙◌, none, some, List, [], ◌∷◌, ◌++◌, arith, string_eq, nat_eq, beq_refl,
}
use netforge.Prelude.GoMap.{put, get-put}
use text.Mathlib.TextEquality.{eq_iff}
use netforge.Wan.{
  WanManager, WanLink, active, Keys, pvc_status_of, activate, add_fr_link, resolve_fr_dlci,
}

resolve_fr_dlci-append :
    (links : List WanLink) (link : WanLink) (node_id port_id : String) (dlci : ℕ)
    → resolve_fr_dlci links node_id port_id dlci ≡ none
    → resolve_fr_dlci (links ++ link ∷ []) node_id port_id dlci
      ≡ resolve_fr_dlci (link ∷ []) node_id port_id dlci
unfolding resolve_fr_dlci
resolve_fr_dlci-append [] link node_id port_id dlci h = refl
resolve_fr_dlci-append (l ∷ links) link node_id port_id dlci h =
    ground (arith, resolve_fr_dlci-append links link node_id port_id dlci)

resolve_fr_dlci-source :
    (link : WanLink)
    → resolve_fr_dlci (link ∷ []) link.source_node_id link.source_port_id link.source_dlci
      ≡ some (link.target_node_id, link.target_port_id)
unfolding resolve_fr_dlci
resolve_fr_dlci-source link =
    rw (beq_refl link.source_node_id, beq_refl link.source_port_id, beq_refl link.source_dlci) refl

resolve_fr_dlci-target :
    (link : WanLink)
    → resolve_fr_dlci (link ∷ []) link.target_node_id link.target_port_id link.target_dlci
      ≡ some (link.source_node_id, link.source_port_id)
unfolding resolve_fr_dlci
resolve_fr_dlci-target link = ground (
  arith,
  eq_iff link.source_node_id link.target_node_id,
  eq_iff link.source_port_id link.target_port_id,
  beq_refl link.target_node_id,
  beq_refl link.target_port_id,
)

-- A Frame Relay link between two ends that no link uses yet connects them in both directions, and
-- the circuits at both ends are active.
pub resolve_fr_dlci-add_fr_link :
    (keys : Keys) (w : WanManager) (link : WanLink)
    → resolve_fr_dlci w.fr_links link.source_node_id link.source_port_id link.source_dlci ≡ none
    → resolve_fr_dlci w.fr_links link.target_node_id link.target_port_id link.target_dlci ≡ none
    → let after = add_fr_link keys w link in
      (resolve_fr_dlci after.fr_links link.source_node_id link.source_port_id link.source_dlci
        ≡ some (link.target_node_id, link.target_port_id))
      × (resolve_fr_dlci after.fr_links link.target_node_id link.target_port_id link.target_dlci
          ≡ some (link.source_node_id, link.source_port_id))
      × (pvc_status_of keys after link.source_node_id link.source_port_id link.source_dlci ≡ active)
      × (pvc_status_of keys after link.target_node_id link.target_port_id link.target_dlci ≡ active)
unfolding add_fr_link activate pvc_status_of
resolve_fr_dlci-add_fr_link keys w link source target =
    let s = keys.lmi_key link.source_node_id link.source_port_id link.source_dlci in
    let t = keys.lmi_key link.target_node_id link.target_port_id link.target_dlci in
    let m = put w.pvc_status s active in
    (
      resolve_fr_dlci-append w.fr_links link link.source_node_id link.source_port_id
            link.source_dlci source
          ∙ resolve_fr_dlci-source link,
      resolve_fr_dlci-append w.fr_links link link.target_node_id link.target_port_id
            link.target_dlci target
          ∙ resolve_fr_dlci-target link,
      ground (arith, get-put m t s active, get-put w.pvc_status s s active, beq_refl s),
      ground (arith, get-put m t t active, beq_refl t),
    )
