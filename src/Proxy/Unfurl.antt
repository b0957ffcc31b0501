-- ===== src/Proxy/Unfurl.antt =====
-- packages/ws-tcp-proxy/unfurl.mjs: the guarded fetch of a page for a link preview. Texts are lists of code
-- units. `new URL`, node's `isIP` and the address list behind `isPrivateIp` are parameters. What the
-- network does at the hop of each number of redirects left is an argument, too.
pub mod Guarded
use slothfulchat_web.Prelude.{
  ℕ, zero, suc, ◌+◌, Bool, not, ◌&&◌, ◌||◌, Option, none, some, List, [], ◌∷◌, reverse, ltb, ◌==◌,
  if◌then◌else◌, is_some, length, any, Text, codes, leb, is_blank, text_eq, after_prefix,
}

pub record Url : Type 0 where
  pub is_web : Bool
  pub hostname : Text

pub data Fetched : Type 0 where
  -- The size of the body, and the URL that it came from.
  got : ℕ → Text → Fetched
  refused : Fetched
  -- An exception that nobody catches.
  uncaught : Fetched

pub record Chunk : Type 0 where
  pub size : ℕ
  -- Whether `</head>` stands in what was read with this chunk.
  pub closes_head : Bool

pub record Reply : Type 0 where
  pub status : ℕ
  pub location : Option Text
  pub chunks : List Chunk
  -- `end`, and not `error`.
  pub ends : Bool

pub record Hop : Type 0 where
  -- What `lookup` finds.
  pub addresses : Option (List Text)
  pub reply : Option Reply

-- The options of one fetch.
pub record Fetch : Type 0 where
  pub max_bytes : ℕ
  pub head_only : Bool
  pub allow_private : Bool

abbrev pub max_redirects : ℕ
max_redirects = 5

-- A fetch, and the addresses of each request that it made.
abbrev pub Trace : Type 0
Trace = Fetched × List (List Text)

abbrev pub refuse : Trace
refuse = (refused, [])

-- The body, with the bytes that were read before.
unfoldable pub read_body : Fetch → Text → Bool → ℕ → List Chunk → Fetched
read_body f url ends size [] = if ends then got size url else refused
read_body f url ends size (c ∷ cs) =
    let total = size + c.size in
    let rest = read_body f url ends total cs in
    if f.head_only
    then (if c.closes_head || leb f.max_bytes total then got total url else rest)
    else (if ltb f.max_bytes total then refused else rest)

-- `hostname.replace(/^\[|\]$/g, '')`
abbrev strip_open : Text → Text
strip_open [] = []
strip_open (c ∷ s) = if c == 91 then s else c ∷ s

abbrev strip_close : Text → Text
strip_close [] = []
strip_close (c ∷ s) = if (c == 93) && is_blank s then [] else c ∷ strip_close s

abbrev pub literal_of : Text → Text
literal_of s = strip_close (strip_open s)

abbrev pub is_localhost : Text → Bool
is_localhost s =
    text_eq s (codes "localhost")
    || is_some (after_prefix (reverse (codes ".localhost")) (reverse s))

-- The two parts of a fetch that the URL parser gives: of a text, and of a location relative to a URL.
pub record UrlParser : Type 0 where
  pub parse : Text → Option Url
  pub relative : Text → Text → Option Text

module _ (is_ip is_private : Text → Bool) where
  abbrev pub guard_addresses : Bool → Option (List Text) → Option (List Text)
  guard_addresses allow_private none = none
  guard_addresses allow_private (some as_found) =
      if not allow_private && any is_private as_found then none else some as_found

  unfoldable pub guarded_lookup : Bool → Text → Option (List Text) → Option (List Text)
  guarded_lookup allow_private hostname found =
      guard_addresses allow_private
        (if is_localhost hostname then some (codes "127.0.0.1" ∷ []) else found)

  -- The addresses that a request connects to: a literal is not looked up.
  unfoldable pub connect_to : Bool → Text → Option (List Text) → Option (List Text)
  connect_to allow_private hostname found =
      if is_ip (literal_of hostname)
      then (if not allow_private && is_private (literal_of hostname)
          then none
          else some (literal_of hostname ∷ []))
      else guarded_lookup allow_private hostname found

-- A redirect, by the fetch of the rest if one is left.
abbrev pub follow : Option (Text → Trace) → Option Text → Trace
follow none target = refuse
follow (some fetch) none = (uncaught, [])
follow (some fetch) (some url) = fetch url

abbrev pub real_location : Reply → Option Text
real_location r = elim r.location [
  | none ↦ none
  | some l ↦ if leb 300 r.status && ltb r.status 400 && not (is_blank l) then some l else none
]

module _ (parser : UrlParser) (f : Fetch) (url : Text) (next : Option (Text → Trace)) where
  unfoldable pub on_reply : Option Text → Reply → Trace
  on_reply (some l) r = follow next (parser.relative l url)
  on_reply none r =
      if ltb r.status 200 || leb 300 r.status
      then refuse
      else (read_body f url r.ends 0 r.chunks, [])

  abbrev pub replied : Option Reply → Trace
  replied none = refuse
  replied (some r) = on_reply (real_location r) r

  abbrev pub request_to : Option (List Text) → Option Reply → Trace
  request_to none reply = refuse
  request_to (some as_found) reply = let (result, more) = replied reply in (result, as_found ∷ more)

  abbrev pub visit : (Text → Bool) → (Text → Bool) → Option Url → Hop → Trace
  visit is_ip is_private none h = refuse
  visit is_ip is_private (some u) h =
      if u.is_web
      then request_to (connect_to is_ip is_private f.allow_private u.hostname h.addresses) h.reply
      else refuse

module _ (is_ip is_private : Text → Bool) (parser : UrlParser) (net : ℕ → Hop) (f : Fetch) where
  unfoldable pub guarded_get : ℕ → Text → Trace
  guarded_get zero url = visit parser f url none is_ip is_private (parser.parse url) (net zero)
  guarded_get (suc n) url =
      visit parser f url (some (guarded_get n)) is_ip is_private (parser.parse url) (net (suc n))

-- `rateLimited`: requests are counted by client and minute.
abbrev pub rate_limit : ℕ
rate_limit = 30

abbrev pub bump : Text → ℕ → List ((Text × ℕ) × ℕ) → List ((Text × ℕ) × ℕ) × ℕ
bump ip minute [] = (((ip, minute), 1) ∷ [], 1)
bump ip minute (((k, m), n) ∷ rest) =
    let (counted, total) = bump ip minute rest in
    if text_eq ip k && (minute == m)
    then (((k, m), suc n) ∷ rest, suc n)
    else (((k, m), n) ∷ counted, total)

unfoldable pub rate_limited : Text → ℕ → List ((Text × ℕ) × ℕ) → List ((Text × ℕ) × ℕ) × Bool
rate_limited ip minute hits =
    let (counted, n) = bump ip minute (if ltb 10000 (length hits) then [] else hits) in
    (counted, ltb rate_limit n)
