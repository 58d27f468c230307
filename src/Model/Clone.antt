-- ===== src/Model/Clone.antt =====
-- clone.go: the deep copies that an event owns. The destination is written field by field, and its
-- storage is the destination's own.
use omnidiscover.Prelude.{ℕ, zero, suc, List, [], ◌∷◌, Option, none, some, length, ◌≡◌, refl}
use omnidiscover.Model.{
  TextValue, TextField, no_value, Service, no_service, DiscoveredDevice, reset_device,
  DiscoveredLink, reset_link, EventView, Event,
}

module _ {ℓ} {A : Type ℓ} where
  -- `dst[:n]`, or a fresh slice of n zero values where the capacity is too small
  pub resize : ℕ → A → List A → List A
  resize zero fresh xs = []
  resize (suc n) fresh [] = fresh ∷ resize n fresh []
  resize (suc n) fresh (x ∷ xs) = x ∷ resize n fresh xs

  -- `for i := range src { ... dst[i] ... src[i] ... }`, over destinations of the same length
  pub copy_each : (A → A → A) → List A → List A → List A
  copy_each f (d ∷ ds) (s ∷ ss) = f d s ∷ copy_each f ds ss
  copy_each f ds [] = ds
  copy_each f [] (s ∷ ss) = []

clone_text_value : TextValue → TextValue → TextValue
clone_text_value dst src = record dst {
  value = src.value;
  protocols = src.protocols;
  confidence = src.confidence;
  first_seen = src.first_seen;
  last_seen = src.last_seen;
}

-- `cloneTextFieldInto`
pub clone_text_field_into : TextField → TextField → TextField
unfolding resize copy_each clone_text_value
clone_text_field_into dst src = record dst {
  values = copy_each clone_text_value (resize (length src.values) no_value dst.values) src.values;
  canonical = src.canonical;
}

clone_service : Service → Service → Service
clone_service ds ss = record ds {
  instance_name = ss.instance_name;
  type = ss.type;
  domain = ss.domain;
  host = ss.host;
  port = ss.port;
  txt = ss.txt;
  addresses = ss.addresses;
  protocols = ss.protocols;
  expires_at = ss.expires_at;
}

-- `cloneDeviceInto`
unfoldable pub clone_device_into : DiscoveredDevice → Option DiscoveredDevice → DiscoveredDevice
unfolding reset_device clone_text_field_into resize copy_each clone_service
clone_device_into dst none = reset_device dst
clone_device_into dst (some src) = record dst {
  key = src.key;
  observed_macs = src.observed_macs;
  claimed_macs = src.claimed_macs;
  addresses = src.addresses;
  system_name = clone_text_field_into dst.system_name src.system_name;
  host_name = clone_text_field_into dst.host_name src.host_name;
  protocol_device_id = clone_text_field_into dst.protocol_device_id src.protocol_device_id;
  vendor = clone_text_field_into dst.vendor src.vendor;
  model = clone_text_field_into dst.model src.model;
  platform = clone_text_field_into dst.platform src.platform;
  software_version = clone_text_field_into dst.software_version src.software_version;
  uptime = src.uptime;
  capabilities = src.capabilities;
  services =
      copy_each clone_service (resize (length src.services) no_service dst.services) src.services;
  protocols = src.protocols;
  class = src.class;
  matched_rule = src.matched_rule;
  first_seen = src.first_seen;
  last_seen = src.last_seen;
}

-- `cloneLinkInto`
unfoldable pub clone_link_into : DiscoveredLink → Option DiscoveredLink → DiscoveredLink
unfolding reset_link clone_text_field_into
clone_link_into dst none = reset_link dst
clone_link_into dst (some src) = record dst {
  key = src.key;
  kind = src.kind;
  local_interface = src.local_interface;
  device = src.device;
  observed_source_mac = src.observed_source_mac;
  remote_chassis = record dst.remote_chassis {
    subtype = src.remote_chassis.subtype;
    value = src.remote_chassis.value;
  };
  remote_port = record dst.remote_port {
    subtype = src.remote_port.subtype;
    value = src.remote_port.value;
  };
  remote_interface = clone_text_field_into dst.remote_interface src.remote_interface;
  vlans = src.vlans;
  protocols = src.protocols;
  ttl = src.ttl;
  expires_at = src.expires_at;
  first_seen = src.first_seen;
  last_seen = src.last_seen;
}

-- `cloneEventInto`
unfoldable pub clone_event_into : Event → EventView → Event
unfolding clone_device_into clone_link_into
clone_event_into dst src = record dst {
  kind = src.kind;
  changed = src.changed;
  device = clone_device_into dst.device src.device;
  link = clone_link_into dst.link src.link;
}

module _ {ℓ} {A : Type ℓ} where
  copy_each-overwrites :
      (f : A → A → A)
      → ((d s : A) → f d s ≡ s)
      → (fresh : A) (ds ss : List A) → copy_each f (resize (length ss) fresh ds) ss ≡ ss
  unfolding copy_each resize
  copy_each-overwrites f h fresh ds [] = refl
  copy_each-overwrites f h fresh [] (s ∷ ss) = rw (h fresh s, copy_each-overwrites f h fresh [] ss)
  copy_each-overwrites f h fresh (d ∷ ds) (s ∷ ss) =
      rw (h d s, copy_each-overwrites f h fresh ds ss)

clone_text_field_into-same : (dst src : TextField) → clone_text_field_into dst src ≡ src
unfolding clone_text_field_into clone_text_value
clone_text_field_into-same dst src =
    rw (copy_each-overwrites clone_text_value (λ d s. refl) no_value dst.values src.values)

-- What a view shows: nil is the zero value.
pub clone_device_into-same : (dst src : DiscoveredDevice) → clone_device_into dst (some src) ≡ src
unfolding clone_device_into clone_service
clone_device_into-same dst src = rw (
  clone_text_field_into-same dst.system_name src.system_name,
  clone_text_field_into-same dst.host_name src.host_name,
  clone_text_field_into-same dst.protocol_device_id src.protocol_device_id,
  clone_text_field_into-same dst.vendor src.vendor,
  clone_text_field_into-same dst.model src.model,
  clone_text_field_into-same dst.platform src.platform,
  clone_text_field_into-same dst.software_version src.software_version,
  copy_each-overwrites clone_service (λ d s. refl) no_service dst.services src.services,
)

pub clone_link_into-same : (dst src : DiscoveredLink) → clone_link_into dst (some src) ≡ src
unfolding clone_link_into
clone_link_into-same dst src =
    rw (clone_text_field_into-same dst.remote_interface src.remote_interface)

-- Whatever event lies in the storage, copying a view with a device and a link over it leaves
-- exactly the view's kind, changes, device and link, and nothing of what was there.
pub clone_event_into-same :
    (dst : Event) (v : EventView) (d : DiscoveredDevice) (l : DiscoveredLink)
    → v.device ≡ some d
    → v.link ≡ some l
    → clone_event_into dst v ≡ record { kind = v.kind; changed = v.changed; device = d; link = l }
unfolding clone_event_into
clone_event_into-same dst v d l device link =
    rw (device, link, clone_device_into-same dst.device d, clone_link_into-same dst.link l)
