-- ===== src/WebApp/BridgeChoice.antt =====
-- packages/web-app/src/runtime.ts: which bridge to TCP the page uses, and how a link's `?proxy=` or a choice
-- in a dialog changes that. `new URL(url).hostname` is a parameter, `none` where it throws; so is the
-- configuration. The descriptions of the offered bridges are left out but for the operator's own.
pub mod Chosen
use slothfulchat_web.Prelude.{
  Bool, false, not, ◌&&◌, ◌||◌, Option, none, some, List, [], ◌∷◌, ◌++◌, reverse, ◌==◌,
  if◌then◌else◌, is_some, any, Text, codes, is_blank, text_eq, after_prefix, trim,
}

pub record BridgeConfig : Type 0 where
  pub default_proxy_url : Text
  -- A missing URL or description is empty.
  pub public_bridges : List (Text × Text)

abbrev pub default_local_bridge : Text
default_local_bridge = codes "ws://localhost:8641"

-- `trim` and `replace(/\/+$/, '')`
abbrev drop_slashes : Text → Text
drop_slashes [] = []
drop_slashes (c ∷ s) = if c == 47 then drop_slashes s else c ∷ s

unfoldable pub norm_bridge_url : Text → Text
norm_bridge_url u = reverse (drop_slashes (reverse (trim u)))

-- Of two texts, the first that is not empty.
abbrev pub or_text : Text → Text → Text
or_text s t = if is_blank s then t else s

abbrev pub item : Option Text → Text
item none = []
item (some s) = s

-- The URLs of some bridges that are not empty and, normalized, not seen before, in their order; and all
-- that is seen then.
unfoldable pub unseen_bridges : List Text → List (Text × Text) → List (Text × Text) × List Text
unseen_bridges seen [] = ([], seen)
unseen_bridges seen ((url, description) ∷ rest) =
    let n = norm_bridge_url url in
    let kept = unseen_bridges (n ∷ seen) rest in
    let dropped = unseen_bridges seen rest in
    if is_blank url || any (text_eq n) seen then dropped else ((url, description) ∷ kept.0, kept.1)

abbrev pub default_option : BridgeConfig → List Text → List (Text × Text)
default_option cfg seen =
    if is_blank cfg.default_proxy_url || any (text_eq (norm_bridge_url cfg.default_proxy_url)) seen
    then []
    else (cfg.default_proxy_url, codes "Default bridge of this instance") ∷ []

unfoldable pub bridge_options : BridgeConfig → List (Text × Text)
bridge_options cfg =
    let (offered, seen) =
      unseen_bridges (norm_bridge_url default_local_bridge ∷ []) cfg.public_bridges in
    (default_local_bridge, codes "Local bridge on this device — most private and secure")
    ∷ (default_option cfg seen ++ offered)

-- The URL is, normalized, one of some.
abbrev pub listed : Text → List (Text × Text) → Bool
listed n options = any (λ (o : Text × Text). text_eq (norm_bridge_url o.0) n) options

abbrev pub is_local_host : Text → Bool
is_local_host host =
    text_eq host (codes "localhost")
    || (text_eq host (codes "[::1]") || is_some (after_prefix (codes "127.") host))

-- What the page's URL and its storage say, the bridge that the dialog asks about, and, beside them, the
-- URLs that the user has chosen since.
pub record Page : Type 0 where
  pub query : Option Text
  pub saved : Option Text
  pub asking : Option Text
  pub chosen : List Text

abbrev pub is_saved : Text → Option Text → Bool
is_saved n none = false
is_saved n (some s) = not (is_blank s) && text_eq (norm_bridge_url s) n

module _ (hostname : Text → Option Text) (cfg : BridgeConfig) where
  abbrev pub trusted_at : Option Text → Text → Option Text → Bool
  trusted_at saved url none = false
  trusted_at saved url (some host) =
      is_local_host host
      || (is_saved (norm_bridge_url url) saved || listed (norm_bridge_url url) (bridge_options cfg))

  unfoldable pub trusted_bridge : Option Text → Text → Bool
  trusted_bridge saved url = trusted_at saved url (hostname url)

  abbrev pub from_query : Option Text → Option Text → Text
  from_query saved none = []
  from_query saved (some q) = if not (is_blank q) && trusted_bridge saved q then q else []

  unfoldable pub resolve_bridge_url : Page → Text
  resolve_bridge_url p =
      or_text (from_query p.saved p.query)
        (or_text (item p.saved) (or_text cfg.default_proxy_url default_local_bridge))

  abbrev pub ask_about : Bool → Text → Page → Page
  ask_about replaced url p = if is_blank url || trusted_bridge p.saved url then p else record p {
    query = if replaced then none else p.query;
    asking = some (or_text (item p.asking) url);
  }

  abbrev pub ask_query : Bool → Option Text → Page → Page
  ask_query replaced none p = p
  ask_query replaced (some url) p = ask_about replaced url p

  -- Whether the page's URL could be replaced. A dialog that is open already stays as it is.
  unfoldable pub confirm_query_bridge : Bool → Page → Page
  confirm_query_bridge replaced p = ask_query replaced p.query p

  -- `bridgeKind`
  unfoldable pub bridge_kind : Text → Text
  bridge_kind url =
      if text_eq (norm_bridge_url url) (norm_bridge_url default_local_bridge)
      then codes "local"
      else (if listed (norm_bridge_url url) (bridge_options cfg)
          then codes "provided"
          else codes "custom")

  abbrev pub accept_asked : Option Text → Page → Page
  accept_asked none p = p
  accept_asked (some url) p = record p { saved = some url; asking = none; chosen = url ∷ p.chosen }

  -- "Use this bridge" in the dialog that asks: the page reloads at its URL.
  unfoldable pub accept_bridge : Page → Page
  accept_bridge p = accept_asked p.asking p

  unfoldable pub keep_bridge : Page → Page
  keep_bridge p = record p { asking = none }

  -- "Use this bridge" in the bridge dialog, with the URL that is selected there.
  unfoldable pub use_bridge : Text → Page → Page
  use_bridge value p =
      let app_default = or_text cfg.default_proxy_url default_local_bridge in
      if is_blank value then p else record p {
        query = none;
        saved =
            if text_eq (norm_bridge_url value) (norm_bridge_url app_default)
            then none
            else some value;
        asking = none;
        chosen = value ∷ p.chosen;
      }
