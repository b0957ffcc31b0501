-- ===== src/Examples/Runtime.antt =====
-- The page's bridge, its transport to the core, its start and its reports at concrete inputs.
use slothfulchat_web.Prelude.{
  ◌≡◌, refl, true, Option, some, List, [], ◌∷◌, reverse, length, Text, codes, after_prefix,
  drop_spaces,
}
use slothfulchat_web.WebApp.BridgeChoice.{
  BridgeConfig, norm_bridge_url, unseen_bridges, bridge_options, trusted_bridge, resolve_bridge_url,
  confirm_query_bridge, keep_bridge,
}
use slothfulchat_web.WebApp.BridgeChoice.Chosen.{
  Act, open_link, boot, keeps, fresh, act, act_all, allowed, resolve-allowed,
}

abbrev shipped_one : BridgeConfig
shipped_one = record {
  default_proxy_url = codes "wss://bridge.example/";
  public_bridges =
      (codes "wss://other.example", codes "Another") ∷ (codes "wss://bridge.example", []) ∷ [];
}

-- Every URL of these has the host that follows its scheme.
abbrev hostname : Text → Option Text
hostname url = some (reverse (drop_spaces (reverse url)))

options_test : length (bridge_options shipped_one) ≡ 3
unfolding bridge_options unseen_bridges norm_bridge_url
options_test = refl

abbrev luring : List Act
luring = open_link (some (codes "wss://evil.example")) ∷ boot true ∷ keeps ∷ []

lured_test :
    resolve_bridge_url hostname shipped_one (act_all hostname shipped_one luring fresh)
    ≡ codes "wss://bridge.example/"
unfolding resolve_bridge_url act_all act confirm_query_bridge keep_bridge trusted_bridge
    bridge_options unseen_bridges norm_bridge_url
lured_test = refl

resolve-allowed_example :
    let p = act_all hostname shipped_one luring fresh in
    allowed hostname shipped_one p.chosen (resolve_bridge_url hostname shipped_one p) ≡ true
resolve-allowed_example = resolve-allowed hostname shipped_one luring

-- The host of a secure URL without a port or a path.
abbrev secure_host : Text → Option Text
secure_host url = after_prefix (codes "wss://") url

abbrev lookalike : List Act
lookalike = open_link (some (codes "wss://127.evil.example")) ∷ boot true ∷ []

-- A link's bridge is used unasked if the name of its host only looks like an address of this machine.
lookalike_is_used :
    resolve_bridge_url secure_host shipped_one (act_all secure_host shipped_one lookalike fresh)
    ≡ codes "wss://127.evil.example"
unfolding resolve_bridge_url act_all act confirm_query_bridge trusted_bridge
lookalike_is_used = refl
