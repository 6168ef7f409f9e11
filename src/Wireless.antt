-- ===== src/Wireless.antt =====
-- A wireless access point (src-tauri/engine/network/wireless.go): which clients it lets in and whose
-- frames it bridges.
pub mod Association
use netforge.Prelude.{
  String, Bool, true, false, ◌&&◌, not, Option, none, some, List, [], ◌==◌, string_eq,
  if◌then◌else◌,
}
use netforge.Prelude.Int64.{Int64}
use netforge.Prelude.GoMap.{GoMap, get, put}

pub record WirelessClient : Type 0 where
  pub mac : String
  pub ip : String
  pub ipv6 : String
  pub associated : Bool

pub record AccessPoint : Type 0 where
  pub id : String
  pub ssid : String
  pub channel : Int64
  pub security : String
  pub password : String
  pub bssid : String
  pub clients : GoMap String WirelessClient

unfoldable pub new_access_point : String → AccessPoint
new_access_point id = record {
  id = id;
  ssid = "NetForge-WiFi";
  channel = 6;
  security = "wpa2";
  password = "";
  bssid = "AA:BB:CC:DD:EE:FF";
  clients = [];
}

unfoldable pub configure : AccessPoint → String → String → String → AccessPoint
configure ap ssid security password = record ap {
  ssid = ssid;
  security = security;
  password = password;
}

-- The test that turns a client away.
abbrev pub is_refused : AccessPoint → String → Bool
is_refused ap password = ap.security == "wpa2" && not (password == ap.password)

unfoldable pub associate : AccessPoint → String → String → AccessPoint × Bool
associate ap client_mac password = if is_refused ap password then (ap, false) else (
  record ap {
    clients =
        put ap.clients client_mac
          (record { mac = client_mac; ip = ""; ipv6 = ""; associated = true });
  },
  true,
)

-- The frame is the type `W`; the access point only passes it on.
unfoldable pub forward_wireless : {W : Type 0} → AccessPoint → String → W → Option W
forward_wireless ap client_mac wire = elim (get ap.clients client_mac) [
  | none ↦ none
  | some client ↦ some wire
]
