-- ===== src/ConfigStore/Startup.antt =====
-- What survives in the startup configuration.
use netforge.Prelude.{
  String, ◌≡◌, refl, List, [], ◌∷◌, ◌++◌, arith, sym, ap, ◌∙◌, beq_refl, append-nil, append_assoc,
  ◌==◌, string_eq, if◌then◌else◌,
}
use netforge.Prelude.GoMap.{get-put}
use text.Mathlib.TextEquality.{eq_iff}
use netforge.ConfigStore.{
  ConfigStore, DeviceConfig, config_or_empty, get_or_create, append_running, get_running,
  get_startup, write_memory,
}

-- The command lines that come after a save, a line at a time.
unfoldable pub append_lines : ConfigStore → String → List String → ConfigStore
append_lines c device_id [] = c
append_lines c device_id (line ∷ lines) =
    append_lines (append_running c device_id line) device_id lines

get_startup-append_lines :
    (c : ConfigStore) (device_id other : String) (lines : List String)
    → get_startup (append_lines c device_id lines) other ≡ get_startup c other
unfolding append_lines append_running get_startup get_or_create
get_startup-append_lines c device_id other [] = refl
get_startup-append_lines c device_id other (line ∷ lines) = ground (
  arith,
  get_startup-append_lines (append_running c device_id line) device_id other lines,
  get-put c device_id other (record (get_or_create c device_id) {
    running = (get_or_create c device_id).running ++ line ∷ [];
  }),
  eq_iff device_id other,
)

get_running-append_lines :
    (c : ConfigStore) (device_id : String) (lines : List String)
    → get_running (append_lines c device_id lines) device_id ≡ get_running c device_id ++ lines
unfolding append_lines append_running get_running get_or_create
get_running-append_lines c device_id [] = sym (append-nil (get_running c device_id))
get_running-append_lines c device_id (line ∷ lines) =
    get_running-append_lines (append_running c device_id line) device_id lines
    ∙ ap (λ o. (config_or_empty o).running ++ lines)
        (get-put c device_id device_id (record (get_or_create c device_id) {
          running = (get_or_create c device_id).running ++ line ∷ [];
        }))
    ∙ rw (beq_refl device_id) (append_assoc (get_running c device_id) (line ∷ []) lines)

-- After a save and any command lines that follow it, the device's startup configuration is the
-- running configuration of the moment of the save, its running configuration has the lines behind
-- what it had, and the startup configuration of every other device is what it was.
pub get_startup-write_memory :
    (c : ConfigStore) (device_id other : String) (lines : List String)
    → let after = append_lines (write_memory c device_id) device_id lines in
      (get_startup after other
        ≡ (if device_id == other then get_running c device_id else get_startup c other))
      × (get_running after device_id ≡ get_running c device_id ++ lines)
unfolding write_memory get_startup get_running get_or_create
get_startup-write_memory c device_id other lines =
    let saved : DeviceConfig = record (get_or_create c device_id) {
      startup = get_running c device_id;
    } in
    (
      get_startup-append_lines (write_memory c device_id) device_id other lines
          ∙ ground (arith, get-put c device_id other saved),
      get_running-append_lines (write_memory c device_id) device_id lines
          ∙ ground (arith, get-put c device_id device_id saved, beq_refl device_id),
    )
