-- ===== src/WebApp/BridgeChoice/Chosen.antt =====
-- packages/web-app/src/runtime.ts: a link alone never leads to a bridge of its own.
use mathlib.Core.Path.{subst}
use slothfulchat_web.Prelude.{
  ◌≡◌, refl, inl, inr, Bool, true, false, not, ◌&&◌, ◌||◌, Option, none, some, List, [], ◌∷◌, arith,
  if◌then◌else◌, Bool-cases, if-keeps, any, any-append, Text, codes, is_blank, text_eq,
  text_eq_sound, text_eq_refl,
}
use slothfulchat_web.WebApp.BridgeChoice.{
  BridgeConfig, default_local_bridge, norm_bridge_url, or_text, item, unseen_bridges,
  default_option, bridge_options, listed, is_local_host, Page, is_saved, trusted_at, trusted_bridge,
  from_query, resolve_bridge_url, ask_query, confirm_query_bridge, accept_asked, accept_bridge,
  keep_bridge, use_bridge,
}

-- What happens to a page: a link is opened, the page starts, or the user decides.
pub data Act : Type 0 where
  open_link : Option Text → Act
  boot : Bool → Act
  accepts keeps : Act
  uses : Text → Act

-- The page of a browser in which no bridge was chosen.
abbrev pub fresh : Page
fresh = record { query = none; saved = none; asking = none; chosen = [] }

abbrev pub is_chosen : Text → List Text → Bool
is_chosen n chosen = any (λ c. text_eq (norm_bridge_url c) n) chosen

-- What the code takes for a host on the user's own machine: `localhost`, `[::1]`, and every name that begins
-- with `127.`, be it an address or not.
abbrev pub looks_local : Option Text → Bool
looks_local none = false
looks_local (some host) = is_local_host host

abbrev pub shipped : BridgeConfig → Text → Bool
shipped cfg n =
    text_eq (norm_bridge_url default_local_bridge) n
    || (text_eq (norm_bridge_url cfg.default_proxy_url) n || listed n cfg.public_bridges)

unseen-listed :
    (n : Text) (seen : List Text) (bs : List (Text × Text))
    → listed n (unseen_bridges seen bs).0 ≡ true
    → listed n bs ≡ true
unfolding unseen_bridges
unseen-listed n seen [] h = h
unseen-listed n seen ((url, description) ∷ bs) h =
    ground (arith, unseen-listed n seen bs, unseen-listed n (norm_bridge_url url ∷ seen) bs)

default-listed :
    (cfg : BridgeConfig) (n : Text) (seen : List Text)
    → listed n (default_option cfg seen) ≡ true
    → text_eq (norm_bridge_url cfg.default_proxy_url) n ≡ true
default-listed cfg n seen =
    if-keeps (λ o. listed n o ≡ true → text_eq (norm_bridge_url cfg.default_proxy_url) n ≡ true)
      (is_blank cfg.default_proxy_url || any (text_eq (norm_bridge_url cfg.default_proxy_url)) seen)
      [] ((cfg.default_proxy_url, codes "Default bridge of this instance") ∷ []) (λ h. cc)
      (λ h. ground arith)

options-shipped :
    (cfg : BridgeConfig) (n : Text) → listed n (bridge_options cfg) ≡ true → shipped cfg n ≡ true
unfolding bridge_options
options-shipped cfg n h =
    let start = norm_bridge_url default_local_bridge ∷ [] in
    let parts = unseen_bridges start cfg.public_bridges in
    ground (
      arith,
      any-append (λ (o : Text × Text). text_eq (norm_bridge_url o.0) n) (default_option cfg parts.1)
          parts.0,
      default-listed cfg n parts.1,
      unseen-listed n start cfg.public_bridges,
    )

abbrev SavedOk : List Text → Option Text → Type 0
SavedOk chosen none = Unit
SavedOk chosen (some s) = is_chosen (norm_bridge_url s) chosen ≡ true

is_chosen_self :
    (url : Text) (chosen : List Text) → is_chosen (norm_bridge_url url) (url ∷ chosen) ≡ true
is_chosen_self url chosen = simp (text_eq_refl (norm_bridge_url url)) refl

or_text-keeps :
    (P : Text → Type 0) (s t : Text) → (is_blank s ≡ false → P s) → P t → P (or_text s t)
or_text-keeps P [] t p q = q
or_text-keeps P (c ∷ s) t p q = p refl

module _ (hostname : Text → Option Text) (cfg : BridgeConfig) where
  unfoldable pub act : Act → Page → Page
  act (open_link q) p = record p { query = q; asking = none }
  act (boot replaced) p = confirm_query_bridge hostname cfg replaced p
  act accepts p = accept_bridge hostname cfg p
  act keeps p = keep_bridge hostname cfg p
  act (uses value) p = use_bridge hostname cfg value p

  unfoldable pub act_all : List Act → Page → Page
  act_all [] p = p
  act_all (a ∷ acts) p = act_all acts (act a p)

  -- A bridge whose host looks local, one that the instance ships, or one that the user has chosen.
  abbrev pub allowed : List Text → Text → Bool
  allowed chosen url =
      looks_local (hostname url)
      || (shipped cfg (norm_bridge_url url) || is_chosen (norm_bridge_url url) chosen)

  abbrev PageOk : Page → Type 0
  PageOk p = SavedOk p.chosen p.saved

  asked-PageOk :
      (replaced : Bool) (query : Option Text) (p : Page)
      → PageOk p
      → PageOk (ask_query hostname cfg replaced query p)
  asked-PageOk replaced none p h = h
  asked-PageOk replaced (some url) p h =
      if-keeps PageOk (is_blank url || trusted_bridge hostname cfg p.saved url) p
        (record p {
          query = if replaced then none else p.query;
          asking = some (or_text (item p.asking) url);
        })
        h h

  accept-PageOk :
      (asking : Option Text) (p : Page) → PageOk p → PageOk (accept_asked hostname cfg asking p)
  accept-PageOk none p h = h
  accept-PageOk (some url) p h = is_chosen_self url p.chosen

  used-SavedOk :
      (b : Bool) (value : Text) (chosen : List Text)
      → SavedOk (value ∷ chosen) (if b then none else some value)
  used-SavedOk true value chosen = tt
  used-SavedOk false value chosen = is_chosen_self value chosen

  act-PageOk : (a : Act) (p : Page) → PageOk p → PageOk (act a p)
  unfolding act confirm_query_bridge accept_bridge keep_bridge use_bridge
  act-PageOk (open_link q) p h = h
  act-PageOk (boot replaced) p h = asked-PageOk replaced p.query p h
  act-PageOk accepts p h = accept-PageOk p.asking p h
  act-PageOk keeps p h = h
  act-PageOk (uses value) p h = if-keeps PageOk (is_blank value) p _ h (
      used-SavedOk
        (text_eq (norm_bridge_url value)
          (norm_bridge_url (or_text cfg.default_proxy_url default_local_bridge)))
        value p.chosen)

  act_all-PageOk : (acts : List Act) (p : Page) → PageOk p → PageOk (act_all acts p)
  unfolding act_all
  act_all-PageOk [] p h = h
  act_all-PageOk (a ∷ acts) p h = act_all-PageOk acts (act a p) (act-PageOk a p h)

  saved-chosen :
      (n : Text) (saved : Option Text) (chosen : List Text)
      → SavedOk chosen saved
      → is_saved n saved ≡ true
      → is_chosen n chosen ≡ true
  saved-chosen n none chosen h e = cc
  saved-chosen n (some s) chosen h e = elim (Bool-cases (text_eq (norm_bridge_url s) n)) [
    | inl y ↦ subst (λ m. is_chosen m chosen ≡ true) (text_eq_sound (norm_bridge_url s) n y) h
    | inr z ↦ absurd (ground arith)
  ]

  trusted_at-allowed :
      (host : Option Text) (url : Text) (p : Page)
      → PageOk p
      → trusted_at hostname cfg p.saved url host ≡ true
      → (looks_local host
          || (shipped cfg (norm_bridge_url url) || is_chosen (norm_bridge_url url) p.chosen))
        ≡ true
  trusted_at-allowed none url p h t = cc
  trusted_at-allowed (some host) url p h t = ground (
    arith,
    saved-chosen (norm_bridge_url url) p.saved p.chosen h,
    options-shipped cfg (norm_bridge_url url),
  )

  query-allowed :
      (query : Option Text) (p : Page)
      → PageOk p
      → is_blank (from_query hostname cfg p.saved query) ≡ false
      → allowed p.chosen (from_query hostname cfg p.saved query) ≡ true
  unfolding trusted_bridge
  query-allowed none p h n = cc
  query-allowed (some q) p h n =
      elim (Bool-cases (not (is_blank q) && trusted_bridge hostname cfg p.saved q)) [
        | inl y ↦ rw y (trusted_at-allowed (hostname q) q p h (ground arith))
        | inr z ↦ cc (rw z at n)
      ]

  stored-allowed :
      (saved : Option Text) (chosen : List Text)
      → SavedOk chosen saved
      → is_blank (item saved) ≡ false
      → allowed chosen (item saved) ≡ true
  stored-allowed none chosen h n = cc
  stored-allowed (some s) chosen h n = ground arith

  default-allowed :
      (chosen : List Text)
      → allowed chosen (or_text cfg.default_proxy_url default_local_bridge) ≡ true
  default-allowed chosen =
      or_text-keeps (λ u. allowed chosen u ≡ true) cfg.default_proxy_url default_local_bridge
        (λ _. ground (arith, text_eq_refl (norm_bridge_url cfg.default_proxy_url)))
        (ground (arith, text_eq_refl (norm_bridge_url default_local_bridge)))

  resolved-allowed :
      (p : Page) → PageOk p → allowed p.chosen (resolve_bridge_url hostname cfg p) ≡ true
  unfolding resolve_bridge_url
  resolved-allowed p h =
      or_text-keeps (λ u. allowed p.chosen u ≡ true) (from_query hostname cfg p.saved p.query) _
        (query-allowed p.query p h)
        (or_text-keeps (λ u. allowed p.chosen u ≡ true) (item p.saved) _
          (stored-allowed p.saved p.chosen h) (default-allowed p.chosen))

  -- Whatever links are opened and whatever the user decides, in a browser in which no bridge was chosen
  -- before: the bridge that the page uses has the host `localhost` or `[::1]` or one whose name begins with
  -- `127.`, which need not be on the user's own machine; or it is, up to spaces around it and slashes at its
  -- end, one that the instance ships or one that the user has chosen since.
  pub resolve-allowed :
      (acts : List Act)
      → let p = act_all acts fresh in allowed p.chosen (resolve_bridge_url hostname cfg p) ≡ true
  resolve-allowed acts = resolved-allowed (act_all acts fresh) (act_all-PageOk acts fresh tt)
