-- ===== src/Calls/Devices.antt =====
-- packages/calls/engine/devices.ts: microphones and cameras out of a raw enumeration.
use Prim.Native.String.{String}
use mathlib.Core.List.{append-nil, append_assoc}
use slothfulchat_web.Prelude.{
  ℕ, ◌+◌, ◌≡◌, refl, Bool, true, false, not, ◌&&◌, Option, none, some, List, [], ◌∷◌, ◌++◌, ltb,
  if◌then◌else◌, length, keep, sym, ◌∙◌, Bool-cases, inl, inr,
}

pub data MediaDeviceKind : Type 0 where
  audioinput videoinput audiooutput : MediaDeviceKind

pub record MediaDeviceInfo : Type 0 where
  pub device_id : String
  pub label : String
  pub kind : MediaDeviceKind

-- An entry of a picker; a number stands for a template's `${index}`.
pub data Label : Type 0 where
  given : String → Label
  numbered : String → ℕ → Label

pub record CallDeviceInfo : Type 0 where
  pub device_id : String
  pub label : Label
  pub kind : MediaDeviceKind

pub record InputDevices : Type 0 where
  pub microphones : List CallDeviceInfo
  pub cameras : List CallDeviceInfo

abbrev pub empty_input_devices : InputDevices
empty_input_devices = record { microphones = []; cameras = [] }

-- `s === ''`
unfoldable pub is_empty : String → Bool
is_empty String.[] = true
is_empty (String.◌∷◌ c s) = false

unfoldable pub with_fallback_label : String → String → ℕ → Label
with_fallback_label label kind index = if is_empty label then numbered kind index else given label

-- The loop's variables.
pub record Scan : Type 0 where
  pub microphones : List CallDeviceInfo
  pub cameras : List CallDeviceInfo
  pub mic_index : ℕ
  pub camera_index : ℕ

unfoldable pub mic_of : MediaDeviceInfo → ℕ → CallDeviceInfo
mic_of d i = record {
  device_id = d.device_id;
  label = with_fallback_label d.label "Microphone" i;
  kind = audioinput;
}

unfoldable pub camera_of : MediaDeviceInfo → ℕ → CallDeviceInfo
camera_of d i = record {
  device_id = d.device_id;
  label = with_fallback_label d.label "Camera" i;
  kind = videoinput;
}

-- What the loop does with a device that has an id.
abbrev pub listed : MediaDeviceKind → MediaDeviceInfo → Scan → Scan
listed audioinput d s = record s {
  microphones = s.microphones ++ mic_of d (s.mic_index + 1) ∷ [];
  mic_index = s.mic_index + 1;
}
listed videoinput d s = record s {
  cameras = s.cameras ++ camera_of d (s.camera_index + 1) ∷ [];
  camera_index = s.camera_index + 1;
}
listed audiooutput d s = s

-- `if (device.deviceId === '') continue`
abbrev pub round : MediaDeviceInfo → Scan → Scan
round d s = if is_empty d.device_id then s else listed d.kind d s

unfoldable pub scan : List MediaDeviceInfo → Scan → Scan
scan [] s = s
scan (d ∷ ds) s = scan ds (round d s)

unfoldable pub partition_input_devices : List MediaDeviceInfo → InputDevices
partition_input_devices devices =
    let s =
      scan devices (record { microphones = []; cameras = []; mic_index = 0; camera_index = 0 }) in
    record { microphones = s.microphones; cameras = s.cameras }

-- `none` stands for an enumerator that is absent or throws.
unfoldable pub enumerate_input_devices : Option (List MediaDeviceInfo) → InputDevices
enumerate_input_devices none = empty_input_devices
enumerate_input_devices (some devices) = partition_input_devices devices

unfoldable pub should_show_device_picker : List CallDeviceInfo → Bool
should_show_device_picker devices = ltb 1 (length devices)

-- The picker's list described without the loop: the devices of one kind that have an id, in the
-- order of the enumeration, numbered from `n + 1`.
abbrev pub same_kind : MediaDeviceKind → MediaDeviceKind → Bool
same_kind audioinput audioinput = true
same_kind videoinput videoinput = true
same_kind audiooutput audiooutput = true
same_kind _ _ = false

abbrev pub is_usable : MediaDeviceKind → MediaDeviceInfo → Bool
is_usable k d = not (is_empty d.device_id) && same_kind d.kind k

abbrev pub number_from :
    (MediaDeviceInfo → ℕ → CallDeviceInfo) → ℕ → List MediaDeviceInfo → List CallDeviceInfo
number_from entry n [] = []
number_from entry n (d ∷ ds) = entry d (n + 1) ∷ number_from entry (n + 1) ds

abbrev Lists : Scan → Scan → List MediaDeviceInfo → Type 0
Lists t s ds =
    (t.microphones
      ≡ s.microphones ++ number_from mic_of s.mic_index (keep (is_usable audioinput) ds))
    × (t.cameras
        ≡ s.cameras ++ number_from camera_of s.camera_index (keep (is_usable videoinput) ds))

module _ (d : MediaDeviceInfo) (ds : List MediaDeviceInfo) (s t : Scan) where
  Lists-listed :
      (k : MediaDeviceKind)
      → d.kind ≡ k
      → is_empty d.device_id ≡ false
      → Lists t (listed k d s) ds
      → Lists t s (d ∷ ds)
  unfolding mic_of camera_of
  Lists-listed audioinput e i h =
      rw (e, i) (h.0 ∙ append_assoc s.microphones (mic_of d (s.mic_index + 1) ∷ []) _, h.1)
  Lists-listed videoinput e i h =
      rw (e, i) (h.0, h.1 ∙ append_assoc s.cameras (camera_of d (s.camera_index + 1) ∷ []) _)
  Lists-listed audiooutput e i h = rw (e, i) h

  Lists-cons : Lists t (round d s) ds → Lists t s (d ∷ ds)
  Lists-cons h = elim (Bool-cases (is_empty d.device_id)) [
    | inl e ↦ rw e (rw e at h)
    | inr e ↦ Lists-listed d.kind refl e (rw e at h)
  ]

scan-Lists : (ds : List MediaDeviceInfo) (s : Scan) → Lists (scan ds s) s ds
unfolding scan
scan-Lists [] s = (sym (append-nil _), sym (append-nil _))
scan-Lists (d ∷ ds) s = Lists-cons d ds s (scan ds (round d s)) (scan-Lists ds (round d s))

-- The microphone picker lists exactly the `audioinput` devices that have an id, and the camera
-- picker the `videoinput` ones, in the order of the enumeration; each entry has the device's id,
-- and its label or, where that is empty, its kind with its number in the list, from 1.
pub partition_input_devices_lem :
    (ds : List MediaDeviceInfo)
    → ((partition_input_devices ds).microphones
        ≡ number_from mic_of 0 (keep (is_usable audioinput) ds))
      × ((partition_input_devices ds).cameras
          ≡ number_from camera_of 0 (keep (is_usable videoinput) ds))
unfolding partition_input_devices
partition_input_devices_lem ds = scan-Lists ds _
