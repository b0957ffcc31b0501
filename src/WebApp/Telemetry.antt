-- ===== src/WebApp/Telemetry.antt =====
-- packages/web-app/src/telemetry.ts: what the calls of the core's API tell the usage statistics and the
-- profile. A call's parameters are what the code reads of them, and a promise is the number of its call;
-- `toLowerCase` is a parameter. A probe of an account stands for its two calls, whose failures are empty
-- answers; what awaits it, and what awaits a value that is there, runs at once.
pub mod Words
pub mod Catalogued
use Prim.Native.String.{String}
use slothfulchat_web.Prelude.{
  ℕ, suc, ◌+◌, Bool, true, false, not, ◌&&◌, ◌||◌, Option, none, some, List, [], ◌∷◌, ◌++◌, map,
  ltb, ◌==◌, if◌then◌else◌, keep, any, member, Text, codes, leb, is_blank, text_eq, after_prefix,
  drop_spaces, starts_with, includes,
}
use slothfulchat_web.WebApp.Analytics.{Event}

pub data Method : Type 0 where
  add_or_update_transport add_transport_from_qr send_msg : Method
  check_qr set_config_from_qr secure_join : Method
  export_backup import_backup export_self_keys import_self_keys : Method
  get_message_list_items get_chatlist_entries other : Method

-- `params[0]` if it is a number, `String(params[1] ?? '')` and `params[2].viewtype`, empty where they are
-- not there, and `JSON.stringify` of all, empty where it throws.
pub record Params : Type 0 where
  pub account : Option ℕ
  pub second : Text
  pub viewtype : Text
  pub json : Text

pub record SendCtx : Type 0 where
  pub transport : Text
  pub chatmail : Text

-- What runs when the promise of a call settles.
pub data Wait : Type 0 where
  action : Text → Wait
  configured : Option ℕ → Text → Text → Wait
  chatlist : Wait

pub record Telemetry : Type 0 where
  pub created_accounts : List ℕ
  pub send_ctx : List (ℕ × SendCtx)
  pub send_ctx_pending : List ℕ
  pub qr_scan_sent : Bool
  pub milestones_sent : List Text
  pub suppress_bridge_warning : Bool
  -- The milestones in the storage, `none` where reading or parsing them throws.
  pub stored_milestones : Option (List Text)
  pub writable : Bool
  -- The calls made, what waits for them, and the sends that wait for the probe of an account.
  pub calls : ℕ
  pub waiting : List (ℕ × Wait)
  pub sends_waiting : List (ℕ × Text)
  -- The calls of `analytics.event`, of `perf.recordAction` and of `perf.boot`, the last one first.
  pub emitted : List Event
  pub recorded : List Text
  pub boots : List Text

abbrev pub starting : Option (List Text) → Bool → Telemetry
starting stored writable = record {
  created_accounts = [];
  send_ctx = [];
  send_ctx_pending = [];
  qr_scan_sent = false;
  milestones_sent = [];
  suppress_bridge_warning = false;
  stored_milestones = stored;
  writable = writable;
  calls = 0;
  waiting = [];
  sends_waiting = [];
  emitted = [];
  recorded = [];
  boots = [];
}

-- `/"webimap"\s*:\s*true/`
abbrev webimap_here : Text → Bool
webimap_here s = elim (after_prefix (codes "\"webimap\"") s) [
  | none ↦ false
  | some t ↦ elim (after_prefix (codes ":") (drop_spaces t)) [
    | none ↦ false
    | some u ↦ starts_with (codes "true") (drop_spaces u)
  ]
]

unfoldable pub says_webimap : Text → Bool
says_webimap [] = false
says_webimap (c ∷ s) = webimap_here (c ∷ s) || says_webimap s

-- A letter of ASCII without its case, as the flag `i` compares.
abbrev pub fold_case : ℕ → ℕ
fold_case c = if leb 65 c && leb c 90 then c + 32 else c

abbrev pub has_scheme : Text → Text → Bool
has_scheme scheme s = starts_with scheme (map fold_case s)

abbrev pub is_webimap_account : Text → Bool
is_webimap_account s = has_scheme (codes "webimapaccount:") s

unfoldable pub viewtype_of : Text → Text
viewtype_of raw =
    if text_eq raw (codes "Text")
    then codes "text"
    else (if text_eq raw (codes "Image") || text_eq raw (codes "Gif")
        then codes "image"
        else (if text_eq raw (codes "Voice")
            then codes "voice"
            else (if text_eq raw (codes "Audio")
                then codes "audio"
                else (if text_eq raw (codes "Video")
                    then codes "video"
                    else (if text_eq raw (codes "Sticker")
                        then codes "sticker"
                        else (if text_eq raw (codes "File")
                            then codes "file"
                            else (if is_blank raw then codes "text" else codes "other")))))))

abbrev network_words : List Text
network_words =
    codes "network"
    ∷ codes "timeout"
    ∷ codes "connect"
    ∷ codes "dns"
    ∷ codes "unreachable"
    ∷ codes "offline"
    ∷ codes "socket"
    ∷ []

abbrev auth_words : List Text
auth_words =
    codes "auth"
    ∷ codes "password"
    ∷ codes "login"
    ∷ codes "credential"
    ∷ codes "certificate"
    ∷ codes "tls"
    ∷ []

-- Of a message in lower case.
unfoldable pub classify_error : Text → Text
classify_error m =
    if any (λ w. includes w m) network_words
    then codes "network"
    else (if any (λ w. includes w m) auth_words then codes "auth" else codes "other")

abbrev pub emit : Event → Telemetry → Telemetry
emit e t = record t { emitted = e ∷ t.emitted }

abbrev pub named : String → List (String × Text) → Event
named name props = record { name = codes name; props = map (λ (k, v). (codes k, v)) props }

-- `timed` on the promise of the latest call.
abbrev pub await : Wait → Telemetry → Telemetry
await w t = record t { waiting = t.waiting ++ ((t.calls, w) ∷ []) }

abbrev pub is_created : Option ℕ → Telemetry → Bool
is_created none t = false
is_created (some n) t = member n t.created_accounts

abbrev pub configuring : Text → Event
configuring method = named "onboarding" (("step", codes "configuring") ∷ ("method", method) ∷ [])

unfoldable pub on_configure : Option ℕ → Text → Text → Telemetry → Telemetry
on_configure account transport method t =
    let timed = await (action (codes "configure account")) t in
    if is_created account t
    then timed
    else await (configured account transport method) (emit (configuring method) timed)

abbrev pub set_suppressed : Bool → Telemetry → Telemetry
set_suppressed on t = record t { suppress_bridge_warning = on }

abbrev pub on_login : Params → Telemetry → Telemetry
on_login params t =
    let webimap = says_webimap params.json in
    on_configure params.account (if webimap then codes "webimap" else codes "imap")
      (if webimap then codes "webimap" else codes "manual") (set_suppressed webimap t)

-- The scheme of the code, or whether one was scanned in this visit.
abbrev pub qr_method : Bool → Bool → Text
qr_method true scanned = codes "webimap"
qr_method false true = codes "qr"
qr_method false false = codes "chatmail"

abbrev pub on_qr_login : Params → Telemetry → Telemetry
on_qr_login params t =
    let webimap = is_webimap_account params.second in
    on_configure params.account (if webimap then codes "webimap" else codes "imap")
      (qr_method webimap t.qr_scan_sent) (set_suppressed webimap t)

abbrev pub send_event : Text → SendCtx → Event
send_event type ctx =
    named "send" (("type", type) ∷ ("transport", ctx.transport) ∷ ("chatmail", ctx.chatmail) ∷ [])

abbrev pub get_ctx : ℕ → List (ℕ × SendCtx) → Option SendCtx
get_ctx n [] = none
get_ctx n ((m, ctx) ∷ rest) = if m == n then some ctx else get_ctx n rest

abbrev pub await_probe : ℕ → Text → Telemetry → Telemetry
await_probe n type t = record t {
  send_ctx_pending =
      if member n t.send_ctx_pending then t.send_ctx_pending else n ∷ t.send_ctx_pending;
  sends_waiting = t.sends_waiting ++ ((n, type) ∷ []);
}

abbrev pub with_ctx : ℕ → Text → Option SendCtx → Telemetry → Telemetry
with_ctx n type (some ctx) t = emit (send_event type ctx) t
with_ctx n type none t = await_probe n type t

abbrev pub ensure_send_ctx : Option ℕ → Text → Telemetry → Telemetry
ensure_send_ctx none type t = t
ensure_send_ctx (some n) type t = with_ctx n type (get_ctx n t.send_ctx) t

abbrev pub on_send : Params → Telemetry → Telemetry
on_send params t =
    let type = viewtype_of params.viewtype in
    ensure_send_ctx params.account type (await (action (codes "send " ++ type)) t)

abbrev pub on_scanned : Telemetry → Telemetry
on_scanned t =
    if t.qr_scan_sent then t else emit (named "qr_scan" []) (record t { qr_scan_sent = true })

abbrev pub on_qr : Params → Telemetry → Telemetry
on_qr params t = on_scanned (
    if is_webimap_account params.second
    then set_suppressed true t
    else (if has_scheme (codes "dcaccount:") params.second then set_suppressed false t else t))

abbrev pub act : String → String → Event
act name what = named name (("action", codes what) ∷ [])

unfoldable pub handle : Method → Params → Telemetry → Telemetry
handle add_or_update_transport params t = on_login params t
handle add_transport_from_qr params t = on_qr_login params t
handle send_msg params t = on_send params t
handle check_qr params t = on_qr params t
handle set_config_from_qr params t = on_qr params t
handle secure_join params t = on_qr params t
handle export_backup params t =
    await (action (codes "export backup")) (emit (act "backup" "export") t)
handle import_backup params t =
    await (action (codes "import backup")) (emit (act "backup" "import") t)
handle export_self_keys params t = emit (act "keys" "export") t
handle import_self_keys params t = emit (act "keys" "import") t
handle get_message_list_items params t = await (action (codes "load chat")) t
handle get_chatlist_entries params t = await chatlist t
handle other params t = t

-- `transport.request` behind `observeTransport`: the call gets the next number.
unfoldable pub request : Method → Params → Telemetry → Telemetry
request method params t = let u = handle method params t in record u { calls = suc u.calls }

abbrev pub holds : Text → Option (List Text) → Bool
holds m none = false
holds m (some seen) = any (text_eq m) seen

-- Storing fails silently.
abbrev pub store : Text → Bool → Option (List Text) → Option (List Text)
store m writable none = none
store m writable (some seen) = some (if writable then seen ++ (m ∷ []) else seen)

abbrev pub milestone_event : Text → Event
milestone_event m = named "chats" (("milestone", m) ∷ [])

unfoldable pub send_milestone_once : Text → Telemetry → Telemetry
send_milestone_once m t =
    if any (text_eq m) t.milestones_sent
    then t
    else (if holds m t.stored_milestones
        then record t { milestones_sent = m ∷ t.milestones_sent }
        else emit (milestone_event m) (record t {
          milestones_sent = m ∷ t.milestones_sent;
          stored_milestones = store m t.writable t.stored_milestones;
        }))

unfoldable pub report_chat_milestones : ℕ → Telemetry → Telemetry
report_chat_milestones n t =
    let first = if leb 2 n then send_milestone_once (codes "first") t else t in
    if ltb 11 n then send_milestone_once (codes "ten") first else first

abbrev pub remember : Option ℕ → Text → Text → Telemetry → Telemetry
remember none transport method t = t
remember (some n) transport method t = record t {
  created_accounts = n ∷ t.created_accounts;
  send_ctx =
      (
        n,
        record {
          transport = transport;
          chatmail = if text_eq method (codes "chatmail") then codes "yes" else codes "no";
        },
      )
      ∷ t.send_ctx;
}

abbrev pub created_event : Text → Text → Event
created_event transport method =
    named "account_created" (("transport", transport) ∷ ("method", method) ∷ [])

abbrev pub succeeded_event : Text → Event
succeeded_event method = named "onboarding" (("step", codes "success") ∷ ("method", method) ∷ [])

abbrev pub failed_event : Text → Text → Event
failed_event method reason =
    named "onboarding" (("step", codes "failed") ∷ ("method", method) ∷ ("reason", reason) ∷ [])

unfoldable pub on_configured : Option ℕ → Text → Text → Telemetry → Telemetry
on_configured account transport method t =
    let u = remember account transport method t in
    let v = emit (succeeded_event method) (emit (created_event transport method) u) in
    record v { boots = codes "first-account" ∷ v.boots }

-- How a call ended: the length of its result, or 0 for what is no array; or the text of its error.
pub data Outcome : Type 0 where
  resolved : ℕ → Outcome
  rejected : Text → Outcome

module _ (lower : Text → Text) where
  unfoldable pub wake : Wait → Outcome → Telemetry → Telemetry
  wake (action label) o t = record t { recorded = label ∷ t.recorded }
  wake (configured account transport method) (resolved n) t =
      on_configured account transport method t
  wake (configured account transport method) (rejected m) t =
      emit (failed_event method (classify_error (lower m))) t
  wake chatlist (resolved n) t = report_chat_milestones n t
  wake chatlist (rejected m) t = t

  unfoldable pub wake_all : ℕ → List (ℕ × Wait) → Outcome → Telemetry → Telemetry
  wake_all call [] o t = t
  wake_all call ((n, w) ∷ rest) o t = wake_all call rest o (if n == call then wake w o t else t)

  -- The promise of a call settles.
  unfoldable pub settle : ℕ → Outcome → Telemetry → Telemetry
  settle call o t =
      wake_all call t.waiting o (record t { waiting = keep (λ w. not (w.0 == call)) t.waiting })

unfoldable pub probed_ctx : Text → Text → SendCtx
probed_ctx is_chatmail transports = record {
  transport = if says_webimap transports then codes "webimap" else codes "imap";
  chatmail = if text_eq is_chatmail (codes "1") then codes "yes" else codes "no";
}

unfoldable pub send_all : ℕ → SendCtx → List (ℕ × Text) → Telemetry → Telemetry
send_all account ctx [] t = t
send_all account ctx ((n, type) ∷ rest) t =
    send_all account ctx rest (if n == account then emit (send_event type ctx) t else t)

-- The probe of an account is answered, with empty texts for what failed.
unfoldable pub probed : ℕ → Text → Text → Telemetry → Telemetry
probed account is_chatmail transports t =
    let ctx = probed_ctx is_chatmail transports in
    send_all account ctx t.sends_waiting (record t {
      send_ctx = (account, ctx) ∷ t.send_ctx;
      sends_waiting = keep (λ s. not (s.0 == account)) t.sends_waiting;
    })

pub data Happening : Type 0 where
  asked : Method → Params → Happening
  settled : ℕ → Outcome → Happening
  answered : ℕ → Text → Text → Happening

module _ (lower : Text → Text) where
  unfoldable pub observe : Happening → Telemetry → Telemetry
  observe (asked method params) t = request method params t
  observe (settled call o) t = settle lower call o t
  observe (answered account is_chatmail transports) t = probed account is_chatmail transports t

  unfoldable pub observe_all : List Happening → Telemetry → Telemetry
  observe_all [] t = t
  observe_all (h ∷ hs) t = observe_all hs (observe h t)
