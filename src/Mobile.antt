-- ===== src/Mobile.antt =====
-- Cellular gateways and handsets (src-tauri/engine/network/mobile.go and mobile_5g.go). Errors are
-- values; the event log is left out. A gateway that no operation has reached is not in the map. The
-- name of a base station, a text with "-gnb" behind, is made by the library's append.
pub mod Uplink
use Prim.Native.String.{◌++◌ as append}
use netforge.Prelude.{
  String, Bool, true, false, ◌||◌, not, Option, none, some, List, [], ◌∷◌, ◌==◌, string_eq,
  if◌then◌else◌, Result, ok, err,
}
use netforge.Prelude.Int64.{Int64}
use netforge.Prelude.GoMap.{GoMap, get, put}

-- NRBandConfig
pub record NrBandConfig : Type 0 where
  pub band : String
  pub arfcn : Int64
  pub scs : Int64
  pub bandwidth : Int64
  pub mimo : String

pub record FiveGCoreConfig : Type 0 where
  pub gnb_id : String
  pub plmn : String
  pub nssai : String
  pub pdu_session : Int64
  pub dnn : String
  pub slice_type : Int64

pub record CellularGateway : Type 0 where
  pub id : String
  pub hostname : String
  pub carrier : String
  pub apn : String
  pub public_ip : String
  pub private_ip : String
  pub rat : String
  pub nr : Option NrBandConfig
  pub five_gc : Option FiveGCoreConfig
  pub interfaces : GoMap String String
  pub interface_mac : GoMap String String
  pub interface_mask : GoMap String String
  pub ue_table : GoMap String String
  pub lte_band : String
  pub signal_dbm : Int64
  pub connected : Bool

pub record MobileUe : Type 0 where
  pub id : String
  pub imsi : String
  pub imei : String
  pub ip : String
  pub mac : String
  pub gateway_id : String
  pub technology : String
  pub rat : String
  pub nr_band : String
  pub nr_arfcn : Int64
  pub pdu_session_id : Int64
  pub registered : Bool
  pub port_id : String

abbrev pub ra_lte : String
ra_lte = "LTE"

abbrev pub ra_5gn : String
ra_5gn = "5G-NR"

abbrev pub cellular_port : String
cellular_port = "Cellular0/0/0"

-- -75, as a 64-bit pattern
abbrev pub start_signal : Int64
start_signal = 18_446_744_073_709_551_541

unfoldable pub new_cellular_gateway : String → CellularGateway
new_cellular_gateway id = record {
  id = id;
  hostname = "";
  carrier = "LTE";
  apn = "internet";
  public_ip = "";
  private_ip = "";
  rat = ra_lte;
  nr = none;
  five_gc = none;
  interfaces = [];
  interface_mac = [];
  interface_mask = [];
  ue_table = [];
  lte_band = "";
  signal_dbm = start_signal;
  connected = true;
}

unfoldable pub add_interface : CellularGateway → String → String → String → String → CellularGateway
add_interface g port_id ip mask mac = record g {
  interfaces = put g.interfaces port_id ip;
  interface_mask = put g.interface_mask port_id mask;
  interface_mac = put g.interface_mac port_id mac;
  public_ip = if port_id == cellular_port then ip else g.public_ip;
}

unfoldable pub connect_lte : CellularGateway → String → String → String → CellularGateway
connect_lte g carrier apn public_ip = record g {
  carrier = carrier;
  apn = apn;
  public_ip = public_ip;
  connected = true;
}

unfoldable pub configure_5g_nr : CellularGateway → String → Int64 → Int64 → Int64 → CellularGateway
configure_5g_nr g band arfcn scs bandwidth_mhz = record g {
  rat = ra_5gn;
  nr =
      some
        (record { band = band; arfcn = arfcn; scs = scs; bandwidth = bandwidth_mhz; mimo = "4x4" });
  lte_band = band;
}

unfoldable pub attach_5g_core : CellularGateway → String → String → String → CellularGateway
attach_5g_core g plmn nssai dnn = record g {
  five_gc = some (record {
    gnb_id = append g.id "-gnb";
    plmn = plmn;
    nssai = nssai;
    pdu_session = 1;
    dnn = dnn;
    slice_type = 1;
  });
  connected = true;
}

-- The two configurations that Connect5GNR makes where there is none.
abbrev pub band_or : Option NrBandConfig → Option NrBandConfig
band_or (some nr) = some nr
band_or none =
    some (record { band = "n78"; arfcn = 620000; scs = 30; bandwidth = 100; mimo = "4x4" })

abbrev pub core_or : String → Option FiveGCoreConfig → Option FiveGCoreConfig
core_or dnn (some core) = some core
core_or dnn none = some (record {
  gnb_id = "";
  plmn = "001-01";
  nssai = "1-000001";
  pdu_session = 1;
  dnn = dnn;
  slice_type = 0;
})

unfoldable pub connect_5g_nr : CellularGateway → String → String → String → CellularGateway
connect_5g_nr g carrier dnn public_ip = record g {
  carrier = carrier;
  apn = dnn;
  public_ip = public_ip;
  rat = ra_5gn;
  connected = true;
  nr = band_or g.nr;
  five_gc = core_or dnn g.five_gc;
}

unfoldable pub new_mobile_ue : String → MobileUe
new_mobile_ue id = record {
  id = id;
  imsi = "001010000000001";
  imei = "";
  ip = "";
  mac = "";
  gateway_id = "";
  technology = "LTE";
  rat = "";
  nr_band = "";
  nr_arfcn = 0;
  pdu_session_id = 0;
  registered = false;
  port_id = "Cellular0";
}

unfoldable pub attach : MobileUe → String → String → MobileUe
attach ue gateway_id ip = record ue { gateway_id = gateway_id; ip = ip }

unfoldable pub attach_5g_nr : MobileUe → String → String → String → Int64 → MobileUe
attach_5g_nr ue gateway_id ip band arfcn = record ue {
  gateway_id = gateway_id;
  ip = ip;
  technology = ra_5gn;
  rat = ra_5gn;
  nr_band = band;
  nr_arfcn = arfcn;
  pdu_session_id = 1;
  registered = true;
}
