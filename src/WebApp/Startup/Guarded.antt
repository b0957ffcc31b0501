-- ===== src/WebApp/Startup/Guarded.antt =====
-- packages/web-app/src/runtime.ts: a session that saves nothing is confirmed, and one fatal dialog is enough.
use slothfulchat_web.Prelude.{
  ℕ, ◌≤◌, ◌≡◌, refl, inl, inr, Bool, true, false, not, ◌&&◌, Option, none, some, List, [], ◌∷◌,
  arith, Bool-cases, is_some, if-keeps, length, count_if, Text, codes, is_blank,
}
use slothfulchat_web.WebApp.Analytics.{Event}
use slothfulchat_web.WebApp.Startup.{
  Startup, throwaway_requested, throwaway_confirmed, show_throwaway_gate, confirmed_store, loading,
  keep_data, start_throwaway, with_kind, emit, show_fatal_dialog, fatal, warn_if_no_web_assembly,
  start_core, get_core, WorkerMessage, fatal_kind, on_kind, on_worker_message,
  check_migration_errors,
}

-- What happens to a page: something needs the core, its worker posts a message, accounts are checked, or
-- the user answers the gate.
pub data Act : Type 0 where
  needs_core : Text → Bool → Act
  posts : WorkerMessage → Act
  checks : List (ℕ × Option Text) → Act
  keeps_data starts_throwaway : Act

unfoldable pub act : Act → Startup → Startup
act (needs_core bridge_kind available) s = (get_core bridge_kind available s).0
act (posts m) s = on_worker_message m s
act (checks accounts) s = check_migration_errors accounts s
act keeps_data s = keep_data s
act starts_throwaway s = start_throwaway s

unfoldable pub act_all : List Act → Startup → Startup
act_all [] s = s
act_all (a ∷ acts) s = act_all acts (act a s)

abbrev pub is_unsaved : Option Bool → Bool
is_unsaved none = false
is_unsaved (some saves) = not saves

-- A core that saves nothing runs only in a tab that has confirmed that, and a dialog bars all others.
pub record IsGuarded (s : Startup) : Type 0 where
  pub confirmed : (is_unsaved s.core && not (throwaway_confirmed s)) ≡ false
  pub single : length s.dialogs ≤ count_if s.fatal_shown

emit-IsGuarded : (e : Event) (s : Startup) → IsGuarded s → IsGuarded (emit e s)
unfolding throwaway_confirmed
emit-IsGuarded e s h = record { confirmed = h.confirmed; single = h.single }

show-IsGuarded : (kind : Text) (s : Startup) → IsGuarded s → IsGuarded (show_fatal_dialog kind s)
unfolding throwaway_confirmed
show-IsGuarded kind s h = elim (Bool-cases s.fatal_shown) [
  | inl y ↦ simp y h
  | inr n ↦ simp n (record { confirmed = h.confirmed; single = ground (arith, h.single) })
]

fatal-IsGuarded : (kind : Text) (s : Startup) → IsGuarded s → IsGuarded (fatal kind s)
fatal-IsGuarded kind s h = show-IsGuarded kind _ (emit-IsGuarded _ s h)

loading-IsGuarded :
    (persist : Option Text) (item : Option (Option Text)) (writable : Bool)
    → IsGuarded (loading persist item writable)
loading-IsGuarded persist item writable = record { confirmed = refl; single = omega arith }

warn-IsGuarded :
    (available : Bool) (s : Startup) → IsGuarded s → IsGuarded (warn_if_no_web_assembly available s)
unfolding warn_if_no_web_assembly
warn-IsGuarded true s h = h
warn-IsGuarded false s h = fatal-IsGuarded (codes "no-wasm") s h

warn-item :
    (available : Bool) (s : Startup)
    → (warn_if_no_web_assembly available s).confirmed_item ≡ s.confirmed_item
unfolding warn_if_no_web_assembly
warn-item true s = refl
warn-item false s =
    if-keeps (λ (t : Startup). t.confirmed_item ≡ s.confirmed_item) s.fatal_shown _ _ refl refl

start-IsGuarded :
    (bridge_kind : Text) (available : Bool) (s : Startup)
    → (throwaway_requested s && not (throwaway_confirmed s)) ≡ false
    → IsGuarded s
    → IsGuarded (start_core bridge_kind available s)
unfolding throwaway_confirmed
start-IsGuarded bridge_kind available s n h =
    let told = emit (with_kind "bridge" bridge_kind) s in
    let w = warn-IsGuarded available told (emit-IsGuarded _ s h) in
    record { confirmed = simp (warn-item available told) (ground arith); single = w.single }

gate-IsGuarded : (s : Startup) → IsGuarded s → IsGuarded (show_throwaway_gate s)
unfolding show_throwaway_gate throwaway_confirmed
gate-IsGuarded s h = elim (Bool-cases s.gate_shown) [
  | inl y ↦ simp y h
  | inr n ↦ simp n (record { confirmed = h.confirmed; single = ground (arith, h.single) })
]

get_core-IsGuarded :
    (bridge_kind : Text) (available : Bool) (s : Startup)
    → IsGuarded s
    → IsGuarded (get_core bridge_kind available s).0
unfolding get_core
get_core-IsGuarded bridge_kind available s h = elim (Bool-cases (is_some s.core)) [
  | inl y ↦ simp y h
  | inr z ↦ elim (Bool-cases (throwaway_requested s && not (throwaway_confirmed s))) [
    | inl barred ↦ simp (z, barred) (gate-IsGuarded s h)
    | inr free ↦ simp (z, free) (start-IsGuarded bridge_kind available s free h)
  ]
]

kind-IsGuarded : (kind : Option Text) (s : Startup) → IsGuarded s → IsGuarded (on_kind kind s)
kind-IsGuarded none s h = h
kind-IsGuarded (some kind) s h = fatal-IsGuarded kind s h

checked-IsGuarded :
    (accounts : List (ℕ × Option Text)) (s : Startup)
    → IsGuarded s
    → IsGuarded (check_migration_errors accounts s)
unfolding check_migration_errors
checked-IsGuarded [] s h = h
checked-IsGuarded ((account, none) ∷ rest) s h = checked-IsGuarded rest s h
checked-IsGuarded ((account, some e) ∷ rest) s h = checked-IsGuarded rest _ (
    if-keeps IsGuarded (is_blank e) s (emit (with_kind "boot_error" (codes "migration-error")) s) h
      (emit-IsGuarded _ s h))

act-IsGuarded : (a : Act) (s : Startup) → IsGuarded s → IsGuarded (act a s)
unfolding act on_worker_message keep_data start_throwaway
act-IsGuarded (needs_core bridge_kind available) s h = get_core-IsGuarded bridge_kind available s h
act-IsGuarded (posts m) s h =
    if-keeps IsGuarded s.fatal_shown s (on_kind (fatal_kind m) s) h
      (kind-IsGuarded (fatal_kind m) s h)
act-IsGuarded (checks accounts) s h = checked-IsGuarded accounts s h
act-IsGuarded keeps_data s h =
    if-keeps IsGuarded s.gate_shown _ s (loading-IsGuarded none s.confirmed_item s.confirm_writable)
      h
act-IsGuarded starts_throwaway s h =
    let item = confirmed_store s.confirm_writable s.confirmed_item in
    if-keeps IsGuarded s.gate_shown _ s (loading-IsGuarded s.persist_param item s.confirm_writable)
      h

act_all-IsGuarded : (acts : List Act) (s : Startup) → IsGuarded s → IsGuarded (act_all acts s)
unfolding act_all
act_all-IsGuarded [] s h = h
act_all-IsGuarded (a ∷ acts) s h = act_all-IsGuarded acts (act a s) (act-IsGuarded a s h)

-- Whatever needs the core of a page that loads, whatever its worker posts and however the user answers: a
-- core that saves nothing runs only in a tab that has confirmed it, and at most one fatal dialog is shown.
pub session-IsGuarded :
    (persist : Option Text) (item : Option (Option Text)) (writable : Bool) (acts : List Act)
    → IsGuarded (act_all acts (loading persist item writable))
session-IsGuarded persist item writable acts =
    act_all-IsGuarded acts (loading persist item writable) (loading-IsGuarded persist item writable)
