-- ===== src/Examples/Unfurl.antt =====
-- packages/ws-tcp-proxy/unfurl.mjs: the theorem on guarded fetches, and runs of them.
use slothfulchat_web.Prelude.{
  ℕ, ◌≤◌, ◌≡◌, refl, Bool, true, false, none, some, [], ◌∷◌, ◌==◌, if◌then◌else◌, length, All, Text,
  codes, text_eq,
}
use slothfulchat_web.Proxy.Unfurl.{
  refused, uncaught, Hop, Fetch, max_redirects, UrlParser, guarded_lookup, connect_to, on_reply,
  guarded_get,
}
use slothfulchat_web.Proxy.Unfurl.Guarded.{Fits, Public, guarded_get-Public}

abbrev public_page : Text
public_page = codes "http://a.example/"

-- Every text is the URL of a web page on `a.example`, and a location resolves to itself if it is not empty.
abbrev parser : UrlParser
parser = record {
  parse = λ t. some (record { is_web = true; hostname = codes "a.example" });
  relative = λ l base. if text_eq l (codes "http://") then none else some l;
}

abbrev private_address : Text → Bool
private_address t = text_eq t (codes "127.0.0.1")

abbrev no_literal : Text → Bool
no_literal t = false

abbrev page : Fetch
page = record { max_bytes = 100; head_only = false; allow_private = false }

-- A server that redirects, and then answers; the second hop resolves to a private address.
abbrev rebinding : ℕ → Hop
rebinding n = record {
  addresses = some ((if n == 5 then codes "93.184.216.34" else codes "127.0.0.1") ∷ []);
  reply =
      some (record { status = 302; location = some (codes "http://b"); chunks = []; ends = true });
}

guarded_get-Public_example :
    let t =
      guarded_get no_literal private_address parser rebinding page max_redirects public_page in
    All (Public no_literal private_address) t.1 × (length t.1 ≤ 6) × Fits page t.0
guarded_get-Public_example =
    guarded_get-Public no_literal private_address parser rebinding page public_page refl

rebinding_test :
    guarded_get no_literal private_address parser rebinding page 5 public_page
    ≡ (refused, (codes "93.184.216.34" ∷ []) ∷ [])
unfolding guarded_get connect_to guarded_lookup on_reply
rebinding_test = refl

-- A location that is no URL.
abbrev malformed : ℕ → Hop
malformed n = record {
  addresses = some (codes "93.184.216.34" ∷ []);
  reply =
      some (record { status = 302; location = some (codes "http://"); chunks = []; ends = true });
}

malformed_location_is_uncaught :
    (guarded_get no_literal private_address parser malformed page 5 public_page).0 ≡ uncaught
unfolding guarded_get connect_to guarded_lookup on_reply
malformed_location_is_uncaught = refl
