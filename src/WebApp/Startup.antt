-- ===== src/WebApp/Startup.antt =====
-- packages/web-app/src/runtime.ts: the start of the core, the fatal messages of its worker, and whether the
-- account needs the bridge. Dialogs are counted by their kind; what the platform answers is an argument.
pub mod Guarded
use mathlib.Core.Option
use Prim.Native.String.{String}
use slothfulchat_web.Prelude.{
  ℕ, Bool, true, false, not, ◌&&◌, Option, none, some, List, [], ◌∷◌, if◌then◌else◌, is_some, find,
  any, Text, codes, is_blank, text_eq,
}
use slothfulchat_web.WebApp.Analytics.{Event}

pub record Startup : Type 0 where
  -- `?persist=0`, and what the tab's own storage says, `none` where reading it throws.
  pub persist_param : Option Text
  pub confirmed_item : Option (Option Text)
  pub confirm_writable : Bool
  pub gate_shown : Bool
  pub fatal_shown : Bool
  -- The core that was started, with whether it saves its data.
  pub core : Option Bool
  -- The calls of `analytics.event` and the kinds of the dialogs, the last one first.
  pub emitted : List Event
  pub dialogs : List Text

abbrev pub is_text : Text → Option Text → Bool
is_text t none = false
is_text t (some s) = text_eq s t

unfoldable pub throwaway_requested : Startup → Bool
throwaway_requested s = is_text (codes "0") s.persist_param

abbrev pub stored_one : Option (Option Text) → Bool
stored_one none = false
stored_one (some item) = is_text (codes "1") item

unfoldable pub throwaway_confirmed : Startup → Bool
throwaway_confirmed s = stored_one s.confirmed_item

unfoldable pub show_throwaway_gate : Startup → Startup
show_throwaway_gate s =
    if s.gate_shown then s else record s { gate_shown = true; fatal_shown = true }

abbrev pub confirmed_store : Bool → Option (Option Text) → Option (Option Text)
confirmed_store writable none = none
confirmed_store writable (some item) = some (if writable then some (codes "1") else item)

-- A page that loads.
abbrev pub loading : Option Text → Option (Option Text) → Bool → Startup
loading persist_param confirmed_item confirm_writable = record {
  persist_param = persist_param;
  confirmed_item = confirmed_item;
  confirm_writable = confirm_writable;
  gate_shown = false;
  fatal_shown = false;
  core = none;
  emitted = [];
  dialogs = [];
}

-- "Keep my data" and "Start throwaway session".
unfoldable pub keep_data : Startup → Startup
keep_data s = if s.gate_shown then loading none s.confirmed_item s.confirm_writable else s

unfoldable pub start_throwaway : Startup → Startup
start_throwaway s =
    if s.gate_shown
    then loading s.persist_param (confirmed_store s.confirm_writable s.confirmed_item)
        s.confirm_writable
    else s

abbrev pub with_kind : String → Text → Event
with_kind name kind = record { name = codes name; props = (codes "kind", kind) ∷ [] }

abbrev pub emit : Event → Startup → Startup
emit e s = record s { emitted = e ∷ s.emitted }

-- `showFatalDialog`
abbrev pub show_fatal_dialog : Text → Startup → Startup
show_fatal_dialog kind s =
    if s.fatal_shown then s else record s { fatal_shown = true; dialogs = kind ∷ s.dialogs }

abbrev pub fatal : Text → Startup → Startup
fatal kind s = show_fatal_dialog kind (emit (with_kind "boot_error" kind) s)

unfoldable pub warn_if_no_web_assembly : Bool → Startup → Startup
warn_if_no_web_assembly available s = if available then s else fatal (codes "no-wasm") s

abbrev pub start_core : Text → Bool → Startup → Startup
start_core bridge_kind available s =
    let t = warn_if_no_web_assembly available (emit (with_kind "bridge" bridge_kind) s) in
    record t { core = some (not (throwaway_requested s)) }

-- Whether the core is there, `false` where it throws.
unfoldable pub get_core : Text → Bool → Startup → Startup × Bool
get_core bridge_kind available s =
    if is_some s.core
    then (s, true)
    else (if throwaway_requested s && not (throwaway_confirmed s)
        then (show_throwaway_gate s, false)
        else (start_core bridge_kind available s, true))

pub data WorkerMessage : Type 0 where
  fatal_opfs_locked fatal_storage_blocked fatal_init_error fatal_worker_died : WorkerMessage
  other : WorkerMessage

abbrev pub fatal_kind : WorkerMessage → Option Text
fatal_kind fatal_opfs_locked = some (codes "opfs-locked")
fatal_kind fatal_storage_blocked = some (codes "storage-blocked")
fatal_kind fatal_init_error = some (codes "init-error")
fatal_kind fatal_worker_died = some (codes "worker-died")
fatal_kind other = none

abbrev pub on_kind : Option Text → Startup → Startup
on_kind none s = s
on_kind (some kind) s = fatal kind s

unfoldable pub on_worker_message : WorkerMessage → Startup → Startup
on_worker_message m s = if s.fatal_shown then s else on_kind (fatal_kind m) s

-- The accounts with the errors that the core reports of them, `none` where it fails or has none.
unfoldable pub check_migration_errors : List (ℕ × Option Text) → Startup → Startup
check_migration_errors [] s = s
check_migration_errors ((account, none) ∷ rest) s = check_migration_errors rest s
check_migration_errors ((account, some e) ∷ rest) s =
    check_migration_errors rest
      (if is_blank e then s else emit (with_kind "boot_error" (codes "migration-error")) s)

pub data BridgeNeed : Type 0 where
  unneeded required fallback : BridgeNeed

abbrev pub unless_onboarding : Bool → BridgeNeed
unless_onboarding true = unneeded
unless_onboarding false = required

-- The address of a transport in lower case, and whether it is a webimap transport.
abbrev pub primary_need : Option (Text × Bool) → BridgeNeed
primary_need none = required
primary_need (some (address, webimap)) = if webimap then fallback else required

abbrev pub need_of : Bool → List (Text × Bool) → Text → BridgeNeed
need_of onboarding [] primary = unless_onboarding onboarding
need_of onboarding (t ∷ ts) primary =
    if any (λ (x : Text × Bool). not x.1) (t ∷ ts)
    then primary_need (find (λ (x : Text × Bool). text_eq x.0 primary) (t ∷ ts))
    else unneeded

-- The account's transports and primary address, `none` where asking for them fails.
unfoldable pub bridge_need : Bool → Bool → Option (List (Text × Bool)) → Option Text → BridgeNeed
bridge_need onboarding false transports primary = unless_onboarding onboarding
bridge_need onboarding true none primary = required
bridge_need onboarding true (some ts) (some primary) = need_of onboarding ts primary
bridge_need onboarding true (some []) none = unless_onboarding onboarding
bridge_need onboarding true (some (t ∷ ts)) none =
    if any (λ (x : Text × Bool). not x.1) (t ∷ ts) then required else unneeded

pub record BridgeNotice : Type 0 where
  pub reachable : Option Bool
  pub toast : Bool

abbrev pub probed : BridgeNeed → Bool → BridgeNotice → BridgeNotice × Bool
probed unneeded up n = (record { reachable = none; toast = false }, true)
probed required up n = (record { reachable = some up; toast = not up }, up)
probed fallback up n = (record { reachable = some up; toast = false }, up)

-- The need, and what a probe of the bridge finds.
unfoldable pub check_bridge : Bool → BridgeNeed → Bool → BridgeNotice → BridgeNotice × Bool
check_bridge fatal_shown need up n =
    if fatal_shown then (record n { toast = false }, true) else probed need up n
