-- ===== src/WebApp/Telemetry/Words.antt =====
-- packages/web-app/src/telemetry.ts with events.ts: the words of its events are the catalogue's.
use slothfulchat_web.Prelude.{
  ◌≡◌, refl, Bool, true, false, ◌||◌, List, [], ◌∷◌, arith, if◌then◌else◌, any, Text, codes,
  text_eq,
}
use slothfulchat_web.WebApp.Events.{is_catalog_event}
use slothfulchat_web.WebApp.Analytics.{Event}
use slothfulchat_web.WebApp.Telemetry.{
  SendCtx, viewtype_of, classify_error, configuring, qr_method, send_event, created_event,
  succeeded_event, failed_event,
}

-- A text is one of some words.
abbrev pub Listed : List Text → Text → Type 0
Listed words t = any (text_eq t) words ≡ true

abbrev pub transports : List Text
transports = codes "imap" ∷ codes "webimap" ∷ []

abbrev pub methods : List Text
methods = codes "chatmail" ∷ codes "qr" ∷ codes "manual" ∷ codes "webimap" ∷ []

abbrev pub reasons : List Text
reasons = codes "network" ∷ codes "auth" ∷ codes "other" ∷ []

abbrev pub answers : List Text
answers = codes "yes" ∷ codes "no" ∷ []

abbrev pub kinds : List Text
kinds =
    codes "text"
    ∷ codes "image"
    ∷ codes "voice"
    ∷ codes "audio"
    ∷ codes "file"
    ∷ codes "sticker"
    ∷ codes "video"
    ∷ codes "other"
    ∷ []

-- The catalogue has the event.
abbrev pub Conforms : Event → Type 0
Conforms e = is_catalog_event e.name e.props ≡ true

pub configuring-Conforms : (method : Text) → Listed methods method → Conforms (configuring method)
unfolding is_catalog_event
configuring-Conforms method h = simp h refl

pub succeeded-Conforms : (method : Text) → Listed methods method → Conforms (succeeded_event method)
unfolding is_catalog_event
succeeded-Conforms method h = simp h refl

pub failed-Conforms :
    (method reason : Text)
    → Listed methods method
    → Listed reasons reason
    → Conforms (failed_event method reason)
unfolding is_catalog_event
failed-Conforms method reason h k = simp (h, k) refl

swap_or :
    (a b d e : Bool)
    → (a || (b || (d || (e || false)))) ≡ true
    → (a || (d || (b || (e || false)))) ≡ true
swap_or a b d e h = ground arith

pub created-Conforms :
    (transport method : Text)
    → Listed transports transport
    → Listed methods method
    → Conforms (created_event transport method)
unfolding is_catalog_event
created-Conforms transport method h k =
    simp
      (
        h,
        swap_or (text_eq method (codes "chatmail")) (text_eq method (codes "qr"))
            (text_eq method (codes "manual")) (text_eq method (codes "webimap")) k,
      )
      refl

pub send-Conforms :
    (type : Text) (ctx : SendCtx)
    → Listed kinds type
    → Listed transports ctx.transport
    → Listed answers ctx.chatmail
    → Conforms (send_event type ctx)
unfolding is_catalog_event
send-Conforms type ctx h k m = simp (h, k, m) refl

pub viewtype-Listed : (raw : Text) → Listed kinds (viewtype_of raw)
unfolding viewtype_of
viewtype-Listed raw = ground arith

pub reason_if-Listed :
    (a b : Bool)
    → Listed reasons (if a then codes "network" else (if b then codes "auth" else codes "other"))
reason_if-Listed true b = refl
reason_if-Listed false true = refl
reason_if-Listed false false = refl

pub reason-Listed : (m : Text) → Listed reasons (classify_error m)
unfolding classify_error
reason-Listed m = reason_if-Listed _ _

pub qr_method-Listed : (a b : Bool) → Listed methods (qr_method a b)
qr_method-Listed true b = refl
qr_method-Listed false true = refl
qr_method-Listed false false = refl

pub webimap-Listed : (b : Bool) → Listed transports (if b then codes "webimap" else codes "imap")
webimap-Listed true = refl
webimap-Listed false = refl

pub login-Listed : (b : Bool) → Listed methods (if b then codes "webimap" else codes "manual")
login-Listed true = refl
login-Listed false = refl

pub answer-Listed : (b : Bool) → Listed answers (if b then codes "yes" else codes "no")
answer-Listed true = refl
answer-Listed false = refl
