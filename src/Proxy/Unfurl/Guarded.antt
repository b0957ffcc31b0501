-- ===== src/Proxy/Unfurl/Guarded.antt =====
-- packages/ws-tcp-proxy/unfurl.mjs: a fetch connects to public addresses only.
use mathlib.Core.Path.{subst}
use slothfulchat_web.Prelude.{
  ℕ, zero, suc, ◌+◌, ◌≤◌, ◌≡◌, refl, ap, ◌⊎◌, inl, inr, Bool, true, false, ◌||◌, Option, none, some,
  List, [], ◌∷◌, arith, ltb, Bool-cases, length, any, All, Text, leb,
}
use slothfulchat_web.Proxy.Unfurl.{
  Url, Fetched, got, Chunk, Reply, Hop, Fetch, max_redirects, Trace, refuse, read_body, literal_of,
  UrlParser, guard_addresses, guarded_lookup, connect_to, follow, real_location, on_reply, replied,
  request_to, visit, guarded_get,
}

-- A body that is read whole stays below the limit.
abbrev pub Fits : Fetch → Fetched → Type 0
Fits f (got size url) = (f.head_only ≡ true) ⊎ (size ≤ f.max_bytes)
Fits f _ = Unit

read_body-Fits :
    (f : Fetch) (url : Text) (ends : Bool) (size : ℕ) (cs : List Chunk)
    → (f.head_only ≡ true) ⊎ (size ≤ f.max_bytes)
    → Fits f (read_body f url ends size cs)
unfolding read_body
read_body-Fits f url true size [] h = h
read_body-Fits f url false size [] h = tt
read_body-Fits f url ends size (c ∷ cs) h =
    ground (arith, read_body-Fits f url ends (size + c.size) cs)

module _ (is_ip is_private : Text → Bool) where
  abbrev pub Public : List Text → Type 0
  Public found = any is_private found ≡ false

  guard_addresses-Public :
      (found : Option (List Text)) (to : List Text)
      → guard_addresses is_ip is_private false found ≡ some to
      → Public to
  guard_addresses-Public none to h = cc
  guard_addresses-Public (some found) to h = elim (Bool-cases (any is_private found)) [
    | inl y ↦ cc (simp y at h)
    | inr n ↦ let same : found ≡ to = cc (simp n at h) in cc (n, ap (any is_private) same)
  ]

  connect_to-Public :
      (hostname : Text) (found : Option (List Text)) (to : List Text)
      → connect_to is_ip is_private false hostname found ≡ some to
      → Public to
  unfolding connect_to guarded_lookup
  connect_to-Public hostname found to h = elim (Bool-cases (is_ip (literal_of hostname))) [
    | inr n ↦ guard_addresses-Public _ to (simp n at h)
    | inl y ↦ elim (Bool-cases (is_private (literal_of hostname))) [
      | inl z ↦ cc (simp (y, z) at h)
      | inr z ↦
          let same : literal_of hostname ∷ [] ≡ to = cc (simp (y, z) at h) in
          let alone : any is_private (literal_of hostname ∷ []) ≡ false = rw z refl in
          cc (alone, ap (any is_private) same)
    ]
  ]

  -- The requests of a fetch with `n` redirects left.
  record IsGuarded (f : Fetch) (n : ℕ) (t : Trace) : Type 0 where
    public : All Public t.1
    bounded : length t.1 ≤ n
    fits : Fits f t.0

  refuse-IsGuarded : (f : Fetch) (n : ℕ) → IsGuarded f n refuse
  refuse-IsGuarded f n = record { public = tt; bounded = omega arith; fits = tt }

  module _ (parser : UrlParser) (f : Fetch) (n : ℕ) (url : Text) (next : Option (Text → Trace))
      (guarded : (fetch : Text → Trace) (u : Text)
        → next ≡ some fetch
        → IsGuarded f n (fetch u)) where
    follow-IsGuarded :
        (o : Option (Text → Trace)) (target : Option Text)
        → next ≡ o
        → IsGuarded f n (follow o target)
    follow-IsGuarded none target q = refuse-IsGuarded f n
    follow-IsGuarded (some fetch) none q = record { public = tt; bounded = omega arith; fits = tt }
    follow-IsGuarded (some fetch) (some u) q = guarded fetch u q

    on_reply-IsGuarded :
        (l : Option Text) (r : Reply) → IsGuarded f n (on_reply parser f url next l r)
    unfolding on_reply
    on_reply-IsGuarded (some l) r = follow-IsGuarded next (parser.relative l url) refl
    on_reply-IsGuarded none r = elim (Bool-cases (ltb r.status 200 || leb 300 r.status)) [
      | inl y ↦ simp y (refuse-IsGuarded f n)
      | inr q ↦ simp q (record {
        public = tt;
        bounded = omega arith;
        fits = read_body-Fits f url r.ends 0 r.chunks (inr (omega arith));
      })
    ]

    replied-IsGuarded : (o : Option Reply) → IsGuarded f n (replied parser f url next o)
    replied-IsGuarded none = refuse-IsGuarded f n
    replied-IsGuarded (some r) = on_reply-IsGuarded (real_location r) r

    request_to-IsGuarded :
        (to : Option (List Text)) (o : Option Reply)
        → ((found : List Text) → to ≡ some found → Public found)
        → IsGuarded f (suc n) (request_to parser f url next to o)
    request_to-IsGuarded none o p = refuse-IsGuarded f (suc n)
    request_to-IsGuarded (some found) o p =
        let g = replied-IsGuarded o in
        record {
          public = (p found refl, g.public);
          bounded = omega (arith, g.bounded);
          fits = g.fits;
        }

    visit-IsGuarded :
        (u : Option Url) (h : Hop)
        → f.allow_private ≡ false
        → IsGuarded f (suc n) (visit parser f url next is_ip is_private u h)
    visit-IsGuarded none h a = refuse-IsGuarded f (suc n)
    visit-IsGuarded (some u) h a = elim (Bool-cases u.is_web) [
      | inr q ↦ simp q (refuse-IsGuarded f (suc n))
      | inl y ↦ simp y (
          request_to-IsGuarded _ h.reply
            (λ found q. connect_to-Public u.hostname h.addresses found (simp a at q)))
    ]

  guarded_get-IsGuarded :
      (parser : UrlParser) (net : ℕ → Hop) (f : Fetch) (n : ℕ) (url : Text)
      → f.allow_private ≡ false
      → IsGuarded f (suc n) (guarded_get is_ip is_private parser net f n url)
  unfolding guarded_get
  guarded_get-IsGuarded parser net f zero url a =
      visit-IsGuarded parser f 0 url none (λ fetch u q. cc) (parser.parse url) (net 0) a
  guarded_get-IsGuarded parser net f (suc n) url a =
      visit-IsGuarded parser f (suc n) url (some (guarded_get is_ip is_private parser net f n))
        (λ fetch u q.
          let same : guarded_get is_ip is_private parser net f n ≡ fetch = cc in
          subst (λ g. IsGuarded f (suc n) (g u)) same (guarded_get-IsGuarded parser net f n u a))
        (parser.parse url) (net (suc n)) a

-- Unless the guard is switched off, every request of a fetch, also behind redirects, goes to addresses
-- none of which is private, whatever the resolver and the servers answer; there are at most six requests;
-- and a body that is not cut at its head is no longer than the limit.
pub guarded_get-Public :
    (is_ip is_private : Text → Bool) (parser : UrlParser) (net : ℕ → Hop) (f : Fetch) (url : Text)
    → f.allow_private ≡ false
    → let t = guarded_get is_ip is_private parser net f max_redirects url in
      All (Public is_ip is_private) t.1 × (length t.1 ≤ 6) × Fits f t.0
guarded_get-Public is_ip is_private parser net f url a =
    let g = guarded_get-IsGuarded is_ip is_private parser net f 5 url a in
    (g.public, g.bounded, g.fits)
