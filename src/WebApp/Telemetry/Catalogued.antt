-- ===== src/WebApp/Telemetry/Catalogued.antt =====
-- packages/web-app/src/telemetry.ts with events.ts: the events that it tells are the catalogue's.
use mathlib.Core.Path.{subst}
use Prim.Native.String.{String}
use slothfulchat_web.Prelude.{
  ℕ, ◌≡◌, refl, inl, inr, Bool, true, false, Option, none, some, List, [], ◌∷◌, ltb, ◌==◌,
  Bool-cases, if-keeps, any, All, All-append, All-keep, Text, codes, leb, text_eq,
}
use slothfulchat_web.WebApp.Events.{is_catalog_event}
use slothfulchat_web.WebApp.Analytics.{Event}
use slothfulchat_web.WebApp.Telemetry.{
  Method, add_or_update_transport, add_transport_from_qr, send_msg, check_qr, set_config_from_qr,
  secure_join, export_backup, import_backup, export_self_keys, import_self_keys,
  get_message_list_items, get_chatlist_entries, other, Params, SendCtx, Wait, action, configured,
  chatlist, Telemetry, starting, says_webimap, is_webimap_account, classify_error, emit, named,
  await, is_created, configuring, on_configure, set_suppressed, send_event, get_ctx, with_ctx,
  ensure_send_ctx, on_scanned, on_qr, act, handle, request, holds, milestone_event,
  send_milestone_once, report_chat_milestones, remember, failed_event, on_configured, Outcome,
  resolved, rejected, wake, wake_all, settle, probed_ctx, send_all, probed, Happening, asked,
  settled, answered, observe, observe_all,
}
use slothfulchat_web.WebApp.Telemetry.Words.{
  Listed, transports, methods, answers, kinds, Conforms, configuring-Conforms, succeeded-Conforms,
  failed-Conforms, created-Conforms, send-Conforms, viewtype-Listed, reason-Listed,
  qr_method-Listed, webimap-Listed, login-Listed, answer-Listed,
}

-- The words that are kept for later are the catalogue's.
abbrev CtxOk : SendCtx → Type 0
CtxOk ctx = Listed transports ctx.transport × Listed answers ctx.chatmail

abbrev WaitOk : Wait → Type 0
WaitOk (action label) = Unit
WaitOk (configured account transport method) = Listed transports transport × Listed methods method
WaitOk chatlist = Unit

pub record IsCatalogued (t : Telemetry) : Type 0 where
  pub told : All Conforms t.emitted
  pub contexts : All (λ (x : ℕ × SendCtx). CtxOk x.1) t.send_ctx
  pub waits : All (λ (x : ℕ × Wait). WaitOk x.1) t.waiting
  pub sends : All (λ (x : ℕ × Text). Listed kinds x.1) t.sends_waiting

emit-IsCatalogued :
    (e : Event) (t : Telemetry) → Conforms e → IsCatalogued t → IsCatalogued (emit e t)
emit-IsCatalogued e t h k = record {
  told = (h, k.told);
  contexts = k.contexts;
  waits = k.waits;
  sends = k.sends;
}

await-IsCatalogued :
    (w : Wait) (t : Telemetry) → WaitOk w → IsCatalogued t → IsCatalogued (await w t)
await-IsCatalogued w t h k = record {
  told = k.told;
  contexts = k.contexts;
  waits = All-append _ t.waiting ((t.calls, w) ∷ []) k.waits (h, tt);
  sends = k.sends;
}

on_configure-IsCatalogued :
    (account : Option ℕ) (transport method : Text) (t : Telemetry)
    → Listed transports transport
    → Listed methods method
    → IsCatalogued t
    → IsCatalogued (on_configure account transport method t)
unfolding on_configure
on_configure-IsCatalogued account transport method t h k v =
    let timed = await-IsCatalogued (action (codes "configure account")) t tt v in
    if-keeps IsCatalogued (is_created account t) _ _ timed (
      await-IsCatalogued (configured account transport method) _ (h, k)
        (emit-IsCatalogued (configuring method) _ (configuring-Conforms method k) timed))

suppressed-IsCatalogued :
    (b : Bool) (t : Telemetry) → IsCatalogued t → IsCatalogued (set_suppressed b t)
suppressed-IsCatalogued b t k = record {
  told = k.told;
  contexts = k.contexts;
  waits = k.waits;
  sends = k.sends;
}

get_ctx-Ok :
    (n : ℕ) (xs : List (ℕ × SendCtx)) (ctx : SendCtx)
    → All (λ (x : ℕ × SendCtx). CtxOk x.1) xs
    → get_ctx n xs ≡ some ctx
    → CtxOk ctx
get_ctx-Ok n [] ctx h e = cc
get_ctx-Ok n ((m, first) ∷ xs) ctx h e = elim (Bool-cases (m == n)) [
  | inl y ↦ let same : first ≡ ctx = cc (simp y at e) in subst CtxOk same h.0
  | inr z ↦ get_ctx-Ok n xs ctx h.1 (simp z at e)
]

with_ctx-IsCatalogued :
    (n : ℕ) (type : Text) (o : Option SendCtx) (t : Telemetry)
    → Listed kinds type
    → ((ctx : SendCtx) → o ≡ some ctx → CtxOk ctx)
    → IsCatalogued t
    → IsCatalogued (with_ctx n type o t)
with_ctx-IsCatalogued n type none t h ok k = record {
  told = k.told;
  contexts = k.contexts;
  waits = k.waits;
  sends = All-append _ t.sends_waiting ((n, type) ∷ []) k.sends (h, tt);
}
with_ctx-IsCatalogued n type (some ctx) t h ok k =
    let (transport, chatmail) = ok ctx refl in
    emit-IsCatalogued (send_event type ctx) t (send-Conforms type ctx h transport chatmail) k

ensure-IsCatalogued :
    (account : Option ℕ) (type : Text) (t : Telemetry)
    → Listed kinds type
    → IsCatalogued t
    → IsCatalogued (ensure_send_ctx account type t)
ensure-IsCatalogued none type t h k = k
ensure-IsCatalogued (some n) type t h k =
    with_ctx-IsCatalogued n type (get_ctx n t.send_ctx) t h
      (λ ctx. get_ctx-Ok n t.send_ctx ctx k.contexts) k

scanned-IsCatalogued : (t : Telemetry) → IsCatalogued t → IsCatalogued (on_scanned t)
unfolding is_catalog_event
scanned-IsCatalogued t k = if-keeps IsCatalogued t.qr_scan_sent _ _ k (
    emit-IsCatalogued (named "qr_scan" []) _ refl
      (record { told = k.told; contexts = k.contexts; waits = k.waits; sends = k.sends }))

on_qr-IsCatalogued :
    (params : Params) (t : Telemetry) → IsCatalogued t → IsCatalogued (on_qr params t)
on_qr-IsCatalogued params t k = scanned-IsCatalogued _ (
    if-keeps IsCatalogued (is_webimap_account params.second) _ _ (suppressed-IsCatalogued true t k)
      (if-keeps IsCatalogued _ _ _ (suppressed-IsCatalogued false t k) k))

act-IsCatalogued :
    (name what label : String) (t : Telemetry)
    → Conforms (act name what)
    → IsCatalogued t
    → IsCatalogued (await (action (codes label)) (emit (act name what) t))
act-IsCatalogued name what label t h k =
    await-IsCatalogued (action (codes label)) _ tt (emit-IsCatalogued (act name what) t h k)

handle-IsCatalogued :
    (m : Method) (params : Params) (t : Telemetry)
    → IsCatalogued t
    → IsCatalogued (handle m params t)
unfolding handle is_catalog_event
handle-IsCatalogued add_or_update_transport params t k =
    let webimap = says_webimap params.json in
    on_configure-IsCatalogued params.account _ _ _ (webimap-Listed webimap) (login-Listed webimap)
      (suppressed-IsCatalogued webimap t k)
handle-IsCatalogued add_transport_from_qr params t k =
    let webimap = is_webimap_account params.second in
    on_configure-IsCatalogued params.account _ _ _ (webimap-Listed webimap)
      (qr_method-Listed webimap t.qr_scan_sent) (suppressed-IsCatalogued webimap t k)
handle-IsCatalogued send_msg params t k =
    ensure-IsCatalogued params.account _ _ (viewtype-Listed params.viewtype)
      (await-IsCatalogued _ t tt k)
handle-IsCatalogued check_qr params t k = on_qr-IsCatalogued params t k
handle-IsCatalogued set_config_from_qr params t k = on_qr-IsCatalogued params t k
handle-IsCatalogued secure_join params t k = on_qr-IsCatalogued params t k
handle-IsCatalogued export_backup params t k =
    act-IsCatalogued "backup" "export" "export backup" t refl k
handle-IsCatalogued import_backup params t k =
    act-IsCatalogued "backup" "import" "import backup" t refl k
handle-IsCatalogued export_self_keys params t k = emit-IsCatalogued (act "keys" "export") t refl k
handle-IsCatalogued import_self_keys params t k = emit-IsCatalogued (act "keys" "import") t refl k
handle-IsCatalogued get_message_list_items params t k =
    await-IsCatalogued (action (codes "load chat")) t tt k
handle-IsCatalogued get_chatlist_entries params t k = await-IsCatalogued chatlist t tt k
handle-IsCatalogued other params t k = k

remember-IsCatalogued :
    (account : Option ℕ) (transport method : Text) (t : Telemetry)
    → Listed transports transport
    → IsCatalogued t
    → IsCatalogued (remember account transport method t)
remember-IsCatalogued none transport method t h k = k
remember-IsCatalogued (some n) transport method t h k = record {
  told = k.told;
  contexts = ((h, answer-Listed (text_eq method (codes "chatmail"))), k.contexts);
  waits = k.waits;
  sends = k.sends;
}

on_configured-IsCatalogued :
    (account : Option ℕ) (transport method : Text) (t : Telemetry)
    → Listed transports transport
    → Listed methods method
    → IsCatalogued t
    → IsCatalogued (on_configured account transport method t)
unfolding on_configured
on_configured-IsCatalogued account transport method t h m k =
    let r = remember-IsCatalogued account transport method t h k in
    record {
      told = (succeeded-Conforms method m, (created-Conforms transport method h m, r.told));
      contexts = r.contexts;
      waits = r.waits;
      sends = r.sends;
    }

milestone-IsCatalogued :
    (m : Text) (t : Telemetry)
    → Conforms (milestone_event m)
    → IsCatalogued t
    → IsCatalogued (send_milestone_once m t)
unfolding send_milestone_once
milestone-IsCatalogued m t h k = if-keeps IsCatalogued (any (text_eq m) t.milestones_sent) _ _ k (
    if-keeps IsCatalogued (holds m t.stored_milestones) _ _
      (record { told = k.told; contexts = k.contexts; waits = k.waits; sends = k.sends })
      (record { told = (h, k.told); contexts = k.contexts; waits = k.waits; sends = k.sends }))

report-IsCatalogued :
    (n : ℕ) (t : Telemetry) → IsCatalogued t → IsCatalogued (report_chat_milestones n t)
unfolding report_chat_milestones is_catalog_event
report-IsCatalogued n t k =
    let first =
      if-keeps IsCatalogued (leb 2 n) _ _ (milestone-IsCatalogued (codes "first") t refl k) k in
    if-keeps IsCatalogued (ltb 11 n) _ _ (milestone-IsCatalogued (codes "ten") _ refl first) first

module _ (lower : Text → Text) where
  wake-IsCatalogued :
      (w : Wait) (o : Outcome) (t : Telemetry)
      → WaitOk w
      → IsCatalogued t
      → IsCatalogued (wake lower w o t)
  unfolding wake
  wake-IsCatalogued (action label) o t h k = record {
    told = k.told;
    contexts = k.contexts;
    waits = k.waits;
    sends = k.sends;
  }
  wake-IsCatalogued (configured account transport method) (resolved n) t h k =
      on_configured-IsCatalogued account transport method t h.0 h.1 k
  wake-IsCatalogued (configured account transport method) (rejected m) t h k =
      emit-IsCatalogued (failed_event method (classify_error (lower m))) t
        (failed-Conforms method _ h.1 (reason-Listed (lower m))) k
  wake-IsCatalogued chatlist (resolved n) t h k = report-IsCatalogued n t k
  wake-IsCatalogued chatlist (rejected m) t h k = k

  wake_all-IsCatalogued :
      (call : ℕ) (ws : List (ℕ × Wait)) (o : Outcome) (t : Telemetry)
      → All (λ (x : ℕ × Wait). WaitOk x.1) ws
      → IsCatalogued t
      → IsCatalogued (wake_all lower call ws o t)
  unfolding wake_all
  wake_all-IsCatalogued call [] o t h k = k
  wake_all-IsCatalogued call ((n, w) ∷ ws) o t h k =
      wake_all-IsCatalogued call ws o _ h.1
        (if-keeps IsCatalogued (n == call) _ _ (wake-IsCatalogued w o t h.0 k) k)

  settle-IsCatalogued :
      (call : ℕ) (o : Outcome) (t : Telemetry)
      → IsCatalogued t
      → IsCatalogued (settle lower call o t)
  unfolding settle
  settle-IsCatalogued call o t k = wake_all-IsCatalogued call t.waiting o _ k.waits (record {
    told = k.told;
    contexts = k.contexts;
    waits = All-keep (λ (x : ℕ × Wait). WaitOk x.1) _ t.waiting k.waits;
    sends = k.sends;
  })

probed_ctx-Ok : (is_chatmail json : Text) → CtxOk (probed_ctx is_chatmail json)
unfolding probed_ctx
probed_ctx-Ok is_chatmail json =
    (webimap-Listed (says_webimap json), answer-Listed (text_eq is_chatmail (codes "1")))

send_all-IsCatalogued :
    (account : ℕ) (ctx : SendCtx) (xs : List (ℕ × Text)) (t : Telemetry)
    → CtxOk ctx
    → All (λ (x : ℕ × Text). Listed kinds x.1) xs
    → IsCatalogued t
    → IsCatalogued (send_all account ctx xs t)
unfolding send_all
send_all-IsCatalogued account ctx [] t h ks k = k
send_all-IsCatalogued account ctx ((n, type) ∷ xs) t h ks k =
    send_all-IsCatalogued account ctx xs _ h ks.1 (
      if-keeps IsCatalogued (n == account) _ _
        (emit-IsCatalogued (send_event type ctx) t (send-Conforms type ctx ks.0 h.0 h.1) k) k)

probed-IsCatalogued :
    (account : ℕ) (is_chatmail json : Text) (t : Telemetry)
    → IsCatalogued t
    → IsCatalogued (probed account is_chatmail json t)
unfolding probed
probed-IsCatalogued account is_chatmail json t k =
    let ctx = probed_ctx-Ok is_chatmail json in
    send_all-IsCatalogued account (probed_ctx is_chatmail json) t.sends_waiting _ ctx k.sends
      (record {
        told = k.told;
        contexts = (ctx, k.contexts);
        waits = k.waits;
        sends = All-keep (λ (x : ℕ × Text). Listed kinds x.1) _ t.sends_waiting k.sends;
      })

module _ (lower : Text → Text) where
  observe-IsCatalogued :
      (h : Happening) (t : Telemetry) → IsCatalogued t → IsCatalogued (observe lower h t)
  unfolding observe request
  observe-IsCatalogued (asked method params) t k =
      let r = handle-IsCatalogued method params t k in
      record { told = r.told; contexts = r.contexts; waits = r.waits; sends = r.sends }
  observe-IsCatalogued (settled call o) t k = settle-IsCatalogued lower call o t k
  observe-IsCatalogued (answered account is_chatmail json) t k =
      probed-IsCatalogued account is_chatmail json t k

  observe_all-IsCatalogued :
      (hs : List Happening) (t : Telemetry) → IsCatalogued t → IsCatalogued (observe_all lower hs t)
  unfolding observe_all
  observe_all-IsCatalogued [] t k = k
  observe_all-IsCatalogued (h ∷ hs) t k =
      observe_all-IsCatalogued hs (observe lower h t) (observe-IsCatalogued h t k)

  -- Whatever calls are made of the core, with whatever parameters, and however they settle in whatever
  -- order, each event that the telemetry tells is in the catalogue with all its properties.
  pub observe_all-Conforms :
      (stored : Option (List Text)) (writable : Bool) (hs : List Happening)
      → All Conforms (observe_all lower hs (starting stored writable)).emitted
  observe_all-Conforms stored writable hs =
      (observe_all-IsCatalogued hs (starting stored writable)
        (record { told = tt; contexts = tt; waits = tt; sends = tt })).told
