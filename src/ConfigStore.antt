-- ===== src/ConfigStore.antt =====
-- The running and startup configurations of the devices
-- (src-tauri/engine/network/config_store.go). The source copies a list wherever it hands one over
-- or takes one in, so that no two share storage; a list is a value here.
pub mod Startup
use netforge.Prelude.{String, Option, none, some, List, [], ◌∷◌, ◌++◌, string_eq}
use netforge.Prelude.GoMap.{GoMap, get, put}

pub record DeviceConfig : Type 0 where
  pub running : List String
  pub startup : List String

abbrev pub ConfigStore : Type 0
ConfigStore = GoMap String DeviceConfig

unfoldable pub new_config_store : ConfigStore
new_config_store = []

abbrev pub config_or_empty : Option DeviceConfig → DeviceConfig
config_or_empty none = record { running = []; startup = [] }
config_or_empty (some cfg) = cfg

-- The store that it leaves is that of the write that each caller makes.
unfoldable pub get_or_create : ConfigStore → String → DeviceConfig
get_or_create c device_id = config_or_empty (get c device_id)

unfoldable pub append_running : ConfigStore → String → String → ConfigStore
unfolding get_or_create
append_running c device_id line =
    let cfg = get_or_create c device_id in
    put c device_id (record cfg { running = cfg.running ++ line ∷ [] })

unfoldable pub get_running : ConfigStore → String → List String
get_running c device_id = (config_or_empty (get c device_id)).running

unfoldable pub get_startup : ConfigStore → String → List String
get_startup c device_id = (config_or_empty (get c device_id)).startup

unfoldable pub write_memory : ConfigStore → String → ConfigStore
unfolding get_or_create
write_memory c device_id =
    let cfg = get_or_create c device_id in put c device_id (record cfg { startup = cfg.running })

unfoldable pub set_running : ConfigStore → String → List String → ConfigStore
unfolding get_or_create
set_running c device_id lines =
    let cfg = get_or_create c device_id in put c device_id (record cfg { running = lines })
