-- ===== src/Proxy/Vetted.antt =====
-- packages/ws-tcp-proxy/ws-tcp-proxy.mjs: a bridge with an allowlist opens no tunnel to any other server.
use mathlib.Core.Path.{subst}
use slothfulchat_web.Prelude.{
  ℕ, ◌≡◌, refl, ◌⊎◌, inl, inr, Bool, true, false, not, ◌&&◌, Option, some, List, [], ◌∷◌, ◌==◌,
  Bool-cases, Text, codes, text_eq, split,
}
use slothfulchat_web.Proxy.{
  Environment, Settings, is_empty, binds_loopback_only, settings, start, Bridge, new_bridge,
  loopback, head_of, on_tcp, on_parts, on_connection, ProxyEvent, connects, resolves, step, run,
}
use slothfulchat_web.Proxy.Allowed.{
  Justified, IsVetted, forbid-IsVetted, open_port-IsVetted, on_dns-IsVetted, on_resolved-IsVetted,
}

module _ (to_lower : Text → Text) (number_of : Text → Option ℕ) (allowlist : List Text) where
  on_tcp-IsVetted :
      (now : ℕ) (rest : List Text) (b : Bridge)
      → is_empty allowlist ≡ false
      → IsVetted to_lower allowlist b
      → IsVetted to_lower allowlist (on_tcp to_lower number_of allowlist now rest b)
  on_tcp-IsVetted now [] b n h = forbid-IsVetted to_lower allowlist b h
  on_tcp-IsVetted now (ip ∷ []) b n h = forbid-IsVetted to_lower allowlist b h
  on_tcp-IsVetted now (ip ∷ port ∷ rest) b n h =
      open_port-IsVetted to_lower allowlist now ip (number_of port) b n h

  on_parts-IsVetted :
      (now : ℕ) (ps : List Text) (b : Bridge)
      → is_empty allowlist ≡ false
      → IsVetted to_lower allowlist b
      → IsVetted to_lower allowlist (on_parts to_lower number_of allowlist now ps b)
  on_parts-IsVetted now [] b n h = forbid-IsVetted to_lower allowlist b h
  on_parts-IsVetted now (root ∷ []) b n h = forbid-IsVetted to_lower allowlist b h
  on_parts-IsVetted now (root ∷ kind ∷ rest) b n h =
      elim (Bool-cases (text_eq kind (codes "dns"))) [
        | inl y ↦ simp y (on_dns-IsVetted to_lower allowlist now (head_of rest) b h)
        | inr q ↦ elim (Bool-cases (text_eq kind (codes "tcp"))) [
          | inl y ↦ simp (q, y) (on_tcp-IsVetted now rest b n h)
          | inr r ↦ simp (q, r) (forbid-IsVetted to_lower allowlist b h)
        ]
      ]

  step-IsVetted :
      (now : ℕ) (x : ProxyEvent) (b : Bridge)
      → is_empty allowlist ≡ false
      → IsVetted to_lower allowlist b
      → IsVetted to_lower allowlist (step to_lower number_of allowlist now x b)
  unfolding step on_connection
  step-IsVetted now (connects url) b n h = on_parts-IsVetted now (split (λ c. c == 47) url) b n h
  step-IsVetted now (resolves host ips) b n h =
      on_resolved-IsVetted to_lower allowlist now host ips b h

  run-IsVetted :
      (xs : List (ℕ × ProxyEvent)) (b : Bridge)
      → is_empty allowlist ≡ false
      → IsVetted to_lower allowlist b
      → IsVetted to_lower allowlist (run to_lower number_of allowlist xs b)
  unfolding run
  run-IsVetted [] b n h = h
  run-IsVetted ((now, x) ∷ xs) b n h = run-IsVetted xs _ n (step-IsVetted now x b n h)

either_lem : (a b : Bool) → (not a && b) ≡ false → (a ≡ true) ⊎ (b ≡ false)
either_lem true b h = inl refl
either_lem false b h = inr h

start-cases :
    (to_lower : Text → Text) (is_loopback : Text → Bool) (e : Environment) (s : Settings)
    → start to_lower is_loopback e ≡ some s
    → (binds_loopback_only is_loopback s.host ≡ true) ⊎ (is_empty s.allowlist ≡ false)
unfolding start
start-cases to_lower is_loopback e s h =
    let t = settings to_lower e in
    elim (Bool-cases (not (binds_loopback_only is_loopback t.host) && is_empty t.allowlist)) [
      | inl y ↦ cc (simp y at h)
      | inr n ↦
          let same : t ≡ s = cc (simp n at h) in
          subst
            (λ u. (binds_loopback_only is_loopback u.host ≡ true) ⊎ (is_empty u.allowlist ≡ false))
            same (either_lem _ _ n)
    ]

-- A bridge that starts is bound to the loopback interface only and allows every server, or it opens a
-- tunnel only to a mail port of an address that it has sent as the answer for an allowlisted name, at most
-- ten minutes before, whatever connections and answers come in whatever order.
pub start-Justified :
    (to_lower : Text → Text) (number_of : Text → Option ℕ) (is_loopback : Text → Bool)
    (e : Environment) (s : Settings) (xs : List (ℕ × ProxyEvent))
    → start to_lower is_loopback e ≡ some s
    → ((binds_loopback_only is_loopback s.host ≡ true) × (is_empty s.allowlist ≡ true))
      ⊎ Justified to_lower s.allowlist (run to_lower number_of s.allowlist xs new_bridge).log
start-Justified to_lower number_of is_loopback e s xs h = elim (Bool-cases (is_empty s.allowlist)) [
  | inl y ↦ elim (start-cases to_lower is_loopback e s h) [
    | inl loopback ↦ inl (loopback, y)
    | inr n ↦ cc
  ]
  | inr n ↦
      inr
        (run-IsVetted to_lower number_of s.allowlist xs new_bridge n
          (record { justified = tt; known = tt })).justified
]
