-- ===== src/Proxy/Allowed.antt =====
-- packages/ws-tcp-proxy/ws-tcp-proxy.mjs: the addresses that a bridge with an allowlist remembers.
use slothfulchat_web.Prelude.{
  ℕ, ◌+◌, ◌≡◌, refl, inl, inr, Bool, true, false, not, ◌&&◌, Option, none, some, List, [], ◌∷◌,
  arith, ltb, Bool-cases, any, All, Text, codes, leb, text_eq, text_eq_sound, text_eq_refl,
}
use slothfulchat_web.Proxy.{
  is_empty, allowed_tcp_port, ProxyEffect, answered, opened, forbidden, closed, Bridge, delete_ip,
  set_ips, get_ip, check_expiry, ip_allowed, is_allowlisted, answer, on_dns, on_resolved, forbid,
  open_checked, open_port,
}

module _ (to_lower : Text → Text) (allowlist : List Text) where
  -- An answer that lets the bridge connect to `ip` at the time `t`.
  abbrev pub vouches : Text → ℕ → ProxyEffect → Bool
  vouches ip t (answered host ips at) =
      is_allowlisted to_lower allowlist host && any (text_eq ip) ips && leb t (at + 600000)
  vouches ip t _ = false

  -- Each tunnel goes to a mail port, of an address that an answer before it vouches for.
  abbrev pub Justified : List ProxyEffect → Type 0
  Justified [] = Unit
  Justified (opened ip port t ∷ l) =
      (any (vouches ip t) l ≡ true) × (allowed_tcp_port port ≡ true) × Justified l
  Justified (x ∷ l) = Justified l

  -- An address of the map is vouched for until it expires.
  abbrev pub Known : List ProxyEffect → Text × ℕ → Type 0
  Known l (k, e) = (t : ℕ) → leb t e ≡ true → any (vouches k t) l ≡ true

  pub record IsVetted (b : Bridge) : Type 0 where
    pub justified : Justified b.log
    pub known : All (Known b.log) b.allowed_ips

  Known-more :
      (x : ProxyEffect) (l : List ProxyEffect) (m : List (Text × ℕ))
      → All (Known l) m
      → All (Known (x ∷ l)) m
  Known-more x l [] h = tt
  Known-more x l ((k, e) ∷ m) (h, hs) = ((λ t q. ground (arith, h t q)), Known-more x l m hs)

  delete-Known :
      (l : List ProxyEffect) (ip : Text) (m : List (Text × ℕ))
      → All (Known l) m
      → All (Known l) (delete_ip ip m)
  delete-Known l ip [] h = tt
  delete-Known l ip ((k, e) ∷ m) (h, hs) = elim (Bool-cases (text_eq ip k)) [
    | inl y ↦ simp y (delete-Known l ip m hs)
    | inr n ↦ simp n (h, delete-Known l ip m hs)
  ]

  get-Known :
      (l : List ProxyEffect) (ip : Text) (m : List (Text × ℕ)) (e : ℕ)
      → All (Known l) m
      → get_ip ip m ≡ some e
      → Known l (ip, e)
  get-Known l ip [] e h q = cc
  get-Known l ip ((k, f) ∷ m) e (h, hs) q = elim (Bool-cases (text_eq ip k)) [
    | inl y ↦ let same : f ≡ e = cc (simp y at q) in rw (text_eq_sound ip k y, ← same) h
    | inr n ↦ get-Known l ip m e hs (simp n at q)
  ]

  check_expiry-Known :
      (o : Option ℕ) (l : List ProxyEffect) (now : ℕ) (ip : Text) (m : List (Text × ℕ))
      → get_ip ip m ≡ o
      → All (Known l) m
      → All (Known l) (check_expiry o now ip m).0
        × ((check_expiry o now ip m).1 ≡ true → any (vouches ip now) l ≡ true)
  check_expiry-Known none l now ip m q h = (h, λ r. cc)
  check_expiry-Known (some e) l now ip m q h = elim (Bool-cases (ltb e now)) [
    | inl y ↦ simp y (delete-Known l ip m h, λ r. cc)
    | inr n ↦ simp n (h, λ r. get-Known l ip m e h q now (ground arith))
  ]

  ip_allowed-Known :
      (l : List ProxyEffect) (now : ℕ) (ip : Text) (m : List (Text × ℕ))
      → All (Known l) m
      → All (Known l) (ip_allowed now ip m).0
        × ((ip_allowed now ip m).1 ≡ true → any (vouches ip now) l ≡ true)
  unfolding ip_allowed
  ip_allowed-Known l now ip m h = check_expiry-Known (get_ip ip m) l now ip m refl h

  set_ips-Known :
      (l : List ProxyEffect) (ips : List Text) (e : ℕ) (m : List (Text × ℕ))
      → ((ip : Text) → any (text_eq ip) ips ≡ true → Known l (ip, e))
      → All (Known l) m
      → All (Known l) (set_ips ips e m)
  set_ips-Known l [] e m f h = h
  set_ips-Known l (ip ∷ ips) e m f h =
      set_ips-Known l ips e ((ip, e) ∷ delete_ip ip m) (λ i q. f i (ground arith))
        (f ip (rw (text_eq_refl ip) refl), delete-Known l ip m h)

  answer-IsVetted :
      (now : ℕ) (host : Text) (ips : List Text) (b : Bridge)
      → IsVetted b
      → IsVetted (answer to_lower allowlist now host ips b)
  unfolding answer
  answer-IsVetted now host ips b h =
      let l = closed ∷ answered host ips now ∷ b.log in
      let kept : All (Known l) b.allowed_ips =
        Known-more closed (answered host ips now ∷ b.log) b.allowed_ips
          (Known-more (answered host ips now) b.log b.allowed_ips h.known) in
      elim (Bool-cases (not (is_empty allowlist) && is_allowlisted to_lower allowlist host)) [
        | inl y ↦ simp y (record {
          justified = h.justified;
          known = set_ips-Known l ips (now + 600000) b.allowed_ips (λ ip q t r. ground arith) kept;
        })
        | inr n ↦ simp n (record { justified = h.justified; known = kept })
      ]

  pub forbid-IsVetted : (b : Bridge) → IsVetted b → IsVetted (forbid to_lower allowlist b)
  forbid-IsVetted b h = record {
    justified = h.justified;
    known = Known-more forbidden b.log b.allowed_ips h.known;
  }

  open_checked-IsVetted :
      (r : List (Text × ℕ) × Bool) (now : ℕ) (ip : Text) (port : ℕ) (b : Bridge)
      → IsVetted b
      → allowed_tcp_port port ≡ true
      → All (Known b.log) r.0
      → (r.1 ≡ true → any (vouches ip now) b.log ≡ true)
      → IsVetted (open_checked to_lower allowlist r now ip port b)
  open_checked-IsVetted (m, true) now ip port b h p k v = record {
    justified = (v refl, p, h.justified);
    known = Known-more (opened ip port now) b.log m k;
  }
  open_checked-IsVetted (m, false) now ip port b h p k v = record {
    justified = h.justified;
    known = Known-more forbidden b.log m k;
  }

  pub open_port-IsVetted :
      (now : ℕ) (ip : Text) (port : Option ℕ) (b : Bridge)
      → is_empty allowlist ≡ false
      → IsVetted b
      → IsVetted (open_port to_lower allowlist now ip port b)
  unfolding open_port
  open_port-IsVetted now ip none b n h = forbid-IsVetted b h
  open_port-IsVetted now ip (some port) b n h = elim (Bool-cases (allowed_tcp_port port)) [
    | inr q ↦ simp q (forbid-IsVetted b h)
    | inl p ↦
        let (k, v) = ip_allowed-Known b.log now ip b.allowed_ips h.known in
        simp (p, n) (open_checked-IsVetted (ip_allowed now ip b.allowed_ips) now ip port b h p k v)
  ]

  pub on_dns-IsVetted :
      (now : ℕ) (host : Option Text) (b : Bridge)
      → IsVetted b
      → IsVetted (on_dns to_lower allowlist now host b)
  unfolding on_dns
  on_dns-IsVetted now none b h = record {
    justified = h.justified;
    known =
        Known-more closed (answered [] [] now ∷ b.log) b.allowed_ips
          (Known-more (answered [] [] now) b.log b.allowed_ips h.known);
  }
  on_dns-IsVetted now (some host) b h =
      elim (Bool-cases (text_eq (to_lower host) (codes "localhost"))) [
        | inl y ↦ simp y (answer-IsVetted now host _ b h)
        | inr n ↦ simp n (record { justified = h.justified; known = h.known })
      ]

  pub on_resolved-IsVetted :
      (now : ℕ) (host : Text) (ips : List Text) (b : Bridge)
      → IsVetted b
      → IsVetted (on_resolved to_lower allowlist now host ips b)
  unfolding on_resolved
  on_resolved-IsVetted now host ips b h = elim (Bool-cases (any (text_eq host) b.resolving)) [
    | inl y ↦
        simp y
          (answer-IsVetted now host ips _ (record { justified = h.justified; known = h.known }))
    | inr n ↦ simp n h
  ]
