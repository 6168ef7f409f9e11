-- ===== src/VpnConfig.antt =====
-- The configuration and the state of the VPN of a router (src-tauri/engine/network/ipsec.go and
-- src-tauri/engine/pdu/ipsec.go).
use netforge.Prelude.{ℕ, String, Bool, Option}
use netforge.Prelude.Int64.{Int64}
use netforge.Pdu.{Ipv4Packet}

pub data IkePhase1State : Type 0 where
  ike_down ike_negotiating ike_active : IkePhase1State

pub record IsakmpPolicy : Type 0 where
  pub priority : Int64
  pub encryption : String
  pub hash : String
  pub authentication : String
  pub group : Int64
  pub lifetime : Int64

pub record IpSecTransformSet : Type 0 where
  pub name : String
  pub esp_auth : String
  pub esp_encrypt : String
  pub mode : String

pub record CryptoMapEntry : Type 0 where
  pub seq : Int64
  pub map_name : String
  pub peer_ip : String
  pub transform_set : String
  pub acl_name : String
  pub local_subnet : String
  pub remote_subnet : String
  pub pfs : Bool

pub record IkePeerState : Type 0 where
  pub peer_ip : String
  pub state : IkePhase1State
  pub transform_set : String
  pub local_subnet : String
  pub remote_subnet : String
  pub spi_in : ℕ
  pub spi_out : ℕ
  pub established : Int64

-- The inner packet is behind a pointer, which may be nil.
pub record EspPacket (B : Type 0) : Type 0 where
  pub spi : ℕ
  pub seq_num : ℕ
  pub peer_ip : String
  pub transform : String
  pub inner : Option (Ipv4Packet B)
