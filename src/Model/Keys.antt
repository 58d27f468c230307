-- ===== src/Model/Keys.antt =====
-- `==` on the keys of model.go.
use omnidiscover.Prelude.{◌≡◌, ◌↔◌, Bool, true, false, ◌&&◌, ◌==◌, equal, equal_iff, arith}
use omnidiscover.Net.{addr_eq}
use omnidiscover.Net.Unique.{addr_eq_iff}
use omnidiscover.Model.{DeviceKeyKind, key_unknown, key_mac, key_ip, DeviceKey, LinkKey}

kind_eq : DeviceKeyKind → DeviceKeyKind → Bool
kind_eq key_unknown key_unknown = true
kind_eq key_mac key_mac = true
kind_eq key_ip key_ip = true
kind_eq _ _ = false

pub device_key_eq : DeviceKey → DeviceKey → Bool
unfolding kind_eq
device_key_eq a b =
    kind_eq a.kind b.kind
    && equal a.mac b.mac
    && addr_eq a.ip b.ip
    && a.interface_index == b.interface_index

unfoldable pub link_key_eq : LinkKey → LinkKey → Bool
unfolding device_key_eq
link_key_eq a b =
    a.interface_index == b.interface_index
    && equal a.source_mac b.source_mac
    && device_key_eq a.device b.device

kind_eq_iff : (a b : DeviceKeyKind) → (kind_eq a b ≡ true) ↔ (a ≡ b)
unfolding kind_eq
kind_eq_iff a b = ground arith

pub device_key_eq_iff : (a b : DeviceKey) → (device_key_eq a b ≡ true) ↔ (a ≡ b)
unfolding device_key_eq
device_key_eq_iff a b =
    ground (arith, kind_eq_iff a.kind b.kind, equal_iff a.mac b.mac, addr_eq_iff a.ip b.ip)

pub link_key_eq_iff : (a b : LinkKey) → (link_key_eq a b ≡ true) ↔ (a ≡ b)
unfolding link_key_eq
link_key_eq_iff a b =
    ground (arith, equal_iff a.source_mac b.source_mac, device_key_eq_iff a.device b.device)
