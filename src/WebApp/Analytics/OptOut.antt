-- ===== src/WebApp/Analytics/OptOut.antt =====
-- packages/web-app/src/analytics.ts: an opt-out ends all sending, also after a reload.
use slothfulchat_web.Prelude.{
  ◌≡◌, refl, ◌∙◌, ◌⊎◌, inl, inr, true, false, ◌&&◌, List, [], arith, Bool-cases,
}
use slothfulchat_web.WebApp.Analytics.{
  Config, Location, denied, Event, Analytics, get_consent, set_consent, is_denied, is_enabled,
  admit,
}
use slothfulchat_web.WebApp.Analytics.Calls.{Call, run, reload, all_keep_consent, run-keeps}

-- The page is opted out, has sent what `before` had sent, and left the stored choice alone.
pub record OptedOut (before a : Analytics) : Type 0 where
  pub silent : a.sent ≡ before.sent
  pub out : is_denied (get_consent a) ≡ true
  pub item : a.consent_item ≡ before.consent_item
  pub readable : a.readable ≡ before.readable
  pub writable : a.writable ≡ before.writable

module _ (c : Config) (l : Location) (before : Analytics) where
  admit-OptedOut : (e : Event) (a : Analytics) → OptedOut before a → OptedOut before (admit c l e a)
  unfolding admit is_enabled get_consent
  admit-OptedOut e a h = ground arith

  run-OptedOut :
      (xs : List Call) (a : Analytics)
      → all_keep_consent xs ≡ true
      → OptedOut before a
      → OptedOut before (run c l xs a)
  unfolding get_consent
  run-OptedOut =
      run-keeps c l (OptedOut before) admit-OptedOut (λ a h. ground arith) (λ a h. ground arith)
        (λ a h. ground arith) (λ b a h. ground arith)

OptedOut-set : (a : Analytics) → OptedOut (set_consent denied a) (set_consent denied a)
unfolding set_consent get_consent
OptedOut-set a = ground arith

set-sent : (a : Analytics) → (set_consent denied a).sent ≡ a.sent
unfolding set_consent
set-sent a = refl

OptedOut-reload :
    (a b : Analytics)
    → a.readable ≡ true
    → a.writable ≡ true
    → OptedOut (set_consent denied a) b
    → OptedOut (reload b) (reload b)
unfolding set_consent get_consent
OptedOut-reload a b r w h = ground (arith, h.item)

pub after_reload :
    (c : Config) (l : Location) (a b : Analytics) (later : List Call)
    → all_keep_consent later ≡ true
    → OptedOut (set_consent denied a) b
    → ((run c l later (reload b)).sent ≡ []) ⊎ ((a.readable && a.writable) ≡ false)
after_reload c l a b later keeps h = elim (Bool-cases a.readable) [
  | inr n ↦ inr (simp n)
  | inl r ↦ elim (Bool-cases a.writable) [
    | inr n ↦ inr (ground arith)
    | inl w ↦
        inl (run-OptedOut c l (reload b) later (reload b) keeps (OptedOut-reload a b r w h)).silent
  ]
]

-- From an opt-out on, the page sends nothing more, whatever is called, until a choice is made again; and
-- unless reading or writing its storage throws, a page that is loaded after it sends nothing either.
pub opt_out_lasts :
    (c : Config) (l : Location) (a : Analytics) (xs later : List Call)
    → all_keep_consent xs ≡ true
    → all_keep_consent later ≡ true
    → ((run c l xs (set_consent denied a)).sent ≡ a.sent)
      × (((run c l later (reload (run c l xs (set_consent denied a)))).sent ≡ [])
          ⊎ ((a.readable && a.writable) ≡ false))
opt_out_lasts c l a xs later hx hl =
    let h = run-OptedOut c l (set_consent denied a) xs (set_consent denied a) hx (OptedOut-set a) in
    (h.silent ∙ set-sent a, after_reload c l a (run c l xs (set_consent denied a)) later hl h)
