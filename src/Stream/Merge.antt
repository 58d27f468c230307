-- ===== src/Stream/Merge.antt =====
-- What an event of stream.go holds once it has taken in a view with a link.
use omnidiscover.Prelude.{◌≡◌, refl, Option, none, some, if◌then◌else◌, split_if, bit_or}
use omnidiscover.Model.{
  DiscoveredDevice, DiscoveredLink, reset_device, EventKind, no_event_kind, event_added,
  event_changed, event_expired, event_evicted, EventView, Event,
}
use omnidiscover.Model.Clone.{
  clone_device_into, clone_event_into, clone_device_into-same, clone_link_into-same,
}
use omnidiscover.Stream.{is_still_added, coalesce}

-- An event that adds stays one if the later only changes.
abbrev pub kept_kind : EventKind → EventKind → EventKind
kept_kind event_added event_changed = event_added
kept_kind old new = new

-- The device of the view, or a device that is cleared
abbrev pub device_of : Event → Option DiscoveredDevice → DiscoveredDevice
device_of e none = reset_device e.device
device_of e (some d) = d

-- A view over an event that was empty, and over one that waits
abbrev pub taken : Event → EventView → DiscoveredLink → Event
taken e view l = record {
  kind = view.kind;
  changed = view.changed;
  device = device_of e view.device;
  link = l;
}

abbrev pub merged : Event → EventView → DiscoveredLink → Event
merged e view l = record (taken e view l) {
  kind = kept_kind e.kind view.kind;
  changed = bit_or view.changed e.changed;
}

clone_device_into-device_of :
    (e : Event) (o : Option DiscoveredDevice) → clone_device_into e.device o ≡ device_of e o
unfolding clone_device_into
clone_device_into-device_of e none = refl
clone_device_into-device_of e (some d) = clone_device_into-same e.device d

pub clone_event_into-taken :
    (e : Event) (view : EventView) (l : DiscoveredLink)
    → view.link ≡ some l
    → clone_event_into e view ≡ taken e view l
unfolding clone_event_into
clone_event_into-taken e view l h =
    rw (h, clone_device_into-device_of e view.device, clone_link_into-same e.link l) refl

is_still_added-kept_kind :
    (old new : EventKind)
    → (if is_still_added old new then event_added else new) ≡ kept_kind old new
unfolding is_still_added
is_still_added-kept_kind event_added event_changed = refl
is_still_added-kept_kind event_added no_event_kind = refl
is_still_added-kept_kind event_added event_added = refl
is_still_added-kept_kind event_added event_expired = refl
is_still_added-kept_kind event_added event_evicted = refl
is_still_added-kept_kind no_event_kind new = refl
is_still_added-kept_kind event_changed new = refl
is_still_added-kept_kind event_expired new = refl
is_still_added-kept_kind event_evicted new = refl

pub coalesce-merged :
    (e : Event) (view : EventView) (l : DiscoveredLink)
    → view.link ≡ some l
    → coalesce e view ≡ merged e view l
unfolding coalesce
coalesce-merged e view l h =
    rw (clone_event_into-taken e view l h, ← is_still_added-kept_kind e.kind view.kind)
      (split_if (is_still_added e.kind view.kind) (λ t. rw t refl) λ t. rw t refl)
