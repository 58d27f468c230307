-- ===== src/Cdp/Message.antt =====
-- `CDPMessage` of cdp.go and `CDPDetails` of model.go, and `Reset`.
use omnidiscover.Prelude.{ℕ, Bool, false, List, [], ◌∷◌, Bytes}
use omnidiscover.Net.{Mac, zero_mac, Addr}

pub record CdpDetails : Type 0 where
  pub version : ℕ
  pub checksum : ℕ
  pub native_vlan : ℕ
  pub has_native_vlan : Bool
  pub duplex : ℕ
  pub has_duplex : Bool
  pub capabilities : ℕ
  pub software_version : Bytes
  pub platform : Bytes
  pub management_address : List Addr

pub record CdpMessage : Type 0 where
  pub source_mac : Mac
  pub capture_vlans : List ℕ
  pub capture_vlan_count : ℕ
  pub ttl_seconds : ℕ
  pub device_id : Bytes
  pub port_id : Bytes
  pub system_name : Bytes
  pub addresses : List Addr
  pub details : CdpDetails

-- `CDPMessage.Reset`, statement by statement
unfoldable pub reset : CdpMessage → CdpMessage
reset m = record m {
  source_mac = zero_mac;
  capture_vlans = 0 ∷ 0 ∷ 0 ∷ [];
  capture_vlan_count = 0;
  ttl_seconds = 0;
  device_id = [];
  port_id = [];
  system_name = [];
  addresses = [];
  details = record m.details {
    version = 0;
    checksum = 0;
    native_vlan = 0;
    has_native_vlan = false;
    duplex = 0;
    has_duplex = false;
    capabilities = 0;
    software_version = [];
    platform = [];
    management_address = [];
  };
}
