-- ===== src/Proxy.antt =====
-- packages/ws-tcp-proxy/ws-tcp-proxy.mjs: which connections the bridge opens. Times are milliseconds; what
-- the bridge does is logged, newest first. `to_lower` is `toLowerCase`, `number_of` is `Number` with `none`
-- for what is no whole number, and `is_loopback` is the check of node's `isIP` and `BlockList`.
pub mod Allowed
pub mod Vetted
pub mod Unfurl
use Prim.Native.Nat.{◌*◌}
use slothfulchat_web.Prelude.{
  ℕ, ◌+◌, Bool, true, false, not, ◌&&◌, ◌||◌, Option, none, some, List, [], ◌∷◌, map, reverse, ltb,
  ◌==◌, if◌then◌else◌, is_some, or_else, keep, any, member, Text, codes, is_blank, text_eq,
  after_prefix, trim, split,
}

-- What the process is started with: `HOST`, `CHATMAIL_ALLOWLIST`, `CHATMAIL_WHITELIST` and `UNFURL`.
pub record Environment : Type 0 where
  pub host : Option Text
  pub chatmail_allowlist : Option Text
  pub chatmail_whitelist : Option Text
  pub unfurl : Option Text

pub record Settings : Type 0 where
  pub host : Text
  pub allowlist : List Text
  pub unfurl : Bool

abbrev is_comma : ℕ → Bool
is_comma c = c == 44

abbrev pub is_empty : List Text → Bool
is_empty [] = true
is_empty (t ∷ ts) = false

unfoldable pub parse_allowlist : (Text → Text) → Environment → List Text
parse_allowlist to_lower e =
    let raw = or_else e.chatmail_allowlist (or_else e.chatmail_whitelist []) in
    keep (λ t. not (is_blank t)) (map (λ t. to_lower (trim t)) (split is_comma raw))

-- An empty HOST is unset.
abbrev pub bind_host : Option Text → Text
bind_host none = codes "127.0.0.1"
bind_host (some []) = codes "127.0.0.1"
bind_host (some (c ∷ s)) = c ∷ s

unfoldable pub binds_loopback_only : (Text → Bool) → Text → Bool
binds_loopback_only is_loopback host = text_eq host (codes "localhost") || is_loopback host

abbrev pub unfurl_setting : Option Text → Bool → Bool
unfurl_setting none by_default = by_default
unfurl_setting (some []) by_default = by_default
unfurl_setting (some (c ∷ s)) by_default = text_eq (c ∷ s) (codes "1")

abbrev pub settings : (Text → Text) → Environment → Settings
settings to_lower e =
    let allowlist = parse_allowlist to_lower e in
    record {
      host = bind_host e.host;
      allowlist = allowlist;
      unfurl = unfurl_setting e.unfurl (is_empty allowlist);
    }

-- The start of the process, which exits with `none`.
unfoldable pub start : (Text → Text) → (Text → Bool) → Environment → Option Settings
start to_lower is_loopback e =
    let s = settings to_lower e in
    if not (binds_loopback_only is_loopback s.host) && is_empty s.allowlist then none else some s

abbrev pub allow_ttl_ms : ℕ
allow_ttl_ms = 600000

abbrev pub allowed_tcp_port : ℕ → Bool
allowed_tcp_port p = member p (143 ∷ 465 ∷ 587 ∷ 993 ∷ [])

pub data ProxyEffect : Type 0 where
  -- The addresses that a name was answered with, and when.
  answered : Text → List Text → ℕ → ProxyEffect
  -- `connect`, when.
  opened : Text → ℕ → ℕ → ProxyEffect
  forbidden : ProxyEffect
  closed : ProxyEffect

pub record Bridge : Type 0 where
  -- `allowedIps`, with the time at which an entry expires.
  pub allowed_ips : List (Text × ℕ)
  -- The names whose resolution is awaited.
  pub resolving : List Text
  pub log : List ProxyEffect

abbrev pub new_bridge : Bridge
new_bridge = record { allowed_ips = []; resolving = []; log = [] }

abbrev pub delete_ip : Text → List (Text × ℕ) → List (Text × ℕ)
delete_ip ip [] = []
delete_ip ip ((k, e) ∷ m) = if text_eq ip k then delete_ip ip m else (k, e) ∷ delete_ip ip m

abbrev pub set_ips : List Text → ℕ → List (Text × ℕ) → List (Text × ℕ)
set_ips [] expires m = m
set_ips (ip ∷ ips) expires m = set_ips ips expires ((ip, expires) ∷ delete_ip ip m)

abbrev pub get_ip : Text → List (Text × ℕ) → Option ℕ
get_ip ip [] = none
get_ip ip ((k, e) ∷ m) = if text_eq ip k then some e else get_ip ip m

abbrev pub check_expiry : Option ℕ → ℕ → Text → List (Text × ℕ) → List (Text × ℕ) × Bool
check_expiry none now ip m = (m, false)
check_expiry (some expires) now ip m =
    if ltb expires now then (delete_ip ip m, false) else (m, true)

-- `ipAllowed`: the map that it leaves, and its answer.
unfoldable pub ip_allowed : ℕ → Text → List (Text × ℕ) → List (Text × ℕ) × Bool
ip_allowed now ip m = check_expiry (get_ip ip m) now ip m

abbrev pub ends_with : Text → Text → Bool
ends_with s suffix = is_some (after_prefix (reverse suffix) (reverse s))

abbrev pub remove_first : Text → List Text → List Text
remove_first t [] = []
remove_first t (u ∷ us) = if text_eq t u then us else u ∷ remove_first t us

module _ (to_lower : Text → Text) (allowlist : List Text) where
  unfoldable pub is_allowlisted : Text → Bool
  is_allowlisted host =
      any (λ d. text_eq (to_lower host) d || ends_with (to_lower host) (46 ∷ d)) allowlist

  -- A name has been resolved: the answer is sent, and remembered in allowlist mode.
  unfoldable pub answer : ℕ → Text → List Text → Bridge → Bridge
  answer now host ips b =
      let c = record b { log = closed ∷ answered host ips now ∷ b.log } in
      if not (is_empty allowlist) && is_allowlisted host
      then record c { allowed_ips = set_ips ips (now + allow_ttl_ms) b.allowed_ips }
      else c

  abbrev pub loopback : List Text
  loopback = codes "127.0.0.1" ∷ codes "::1" ∷ []

  -- A missing name is answered with no address.
  unfoldable pub on_dns : ℕ → Option Text → Bridge → Bridge
  on_dns now none b = record b { log = closed ∷ answered [] [] now ∷ b.log }
  on_dns now (some host) b =
      if text_eq (to_lower host) (codes "localhost")
      then answer now host loopback b
      else record b { resolving = host ∷ b.resolving }

  -- The rest of a `/dns/` connection, behind its await.
  unfoldable pub on_resolved : ℕ → Text → List Text → Bridge → Bridge
  on_resolved now host ips b =
      if any (text_eq host) b.resolving
      then answer now host ips (record b { resolving = remove_first host b.resolving })
      else b

  abbrev pub connect : ℕ → Text → ℕ → Bridge → Bridge
  connect now ip port b = record b { log = opened ip port now ∷ b.log }

  abbrev pub forbid : Bridge → Bridge
  forbid b = record b { log = forbidden ∷ b.log }

  abbrev pub open_checked : List (Text × ℕ) × Bool → ℕ → Text → ℕ → Bridge → Bridge
  open_checked (m, true) now ip port b = connect now ip port (record b { allowed_ips = m })
  open_checked (m, false) now ip port b = forbid (record b { allowed_ips = m })

  unfoldable pub open_port : ℕ → Text → Option ℕ → Bridge → Bridge
  open_port now ip none b = forbid b
  open_port now ip (some port) b =
      if not (allowed_tcp_port port)
      then forbid b
      else (if is_empty allowlist
          then connect now ip port b
          else open_checked (ip_allowed now ip b.allowed_ips) now ip port b)

abbrev pub head_of : List Text → Option Text
head_of [] = none
head_of (t ∷ ts) = some t

-- The handler of a connection, by the parts of its URL.
module _ (to_lower : Text → Text) (number_of : Text → Option ℕ) (allowlist : List Text) where
  abbrev pub on_tcp : ℕ → List Text → Bridge → Bridge
  on_tcp now (ip ∷ port ∷ rest) b = open_port to_lower allowlist now ip (number_of port) b
  on_tcp now _ b = forbid to_lower allowlist b

  abbrev pub on_parts : ℕ → List Text → Bridge → Bridge
  on_parts now (root ∷ kind ∷ rest) b =
      if text_eq kind (codes "dns")
      then on_dns to_lower allowlist now (head_of rest) b
      else (if text_eq kind (codes "tcp") then on_tcp now rest b else forbid to_lower allowlist b)
  on_parts now _ b = forbid to_lower allowlist b

  unfoldable pub on_connection : ℕ → Text → Bridge → Bridge
  on_connection now url b = on_parts now (split (λ c. c == 47) url) b

pub data ProxyEvent : Type 0 where
  connects : Text → ProxyEvent
  resolves : Text → List Text → ProxyEvent

module _ (to_lower : Text → Text) (number_of : Text → Option ℕ) (allowlist : List Text) where
  unfoldable pub step : ℕ → ProxyEvent → Bridge → Bridge
  step now (connects url) b = on_connection to_lower number_of allowlist now url b
  step now (resolves host ips) b = on_resolved to_lower allowlist now host ips b

  unfoldable pub run : List (ℕ × ProxyEvent) → Bridge → Bridge
  run [] b = b
  run ((now, x) ∷ xs) b = run xs (step now x b)
