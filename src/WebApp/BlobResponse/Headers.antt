-- ===== src/WebApp/BlobResponse/Headers.antt =====
-- packages/web-app/src/blob-response.ts: no response leaves its sandbox.
use slothfulchat_web.Prelude.{
  ℕ, ◌≡◌, refl, inl, inr, Bool, true, false, ◌||◌, Option, none, some, List, [], ◌∷◌, ◌++◌, arith,
  ltb, ◌==◌, Bool-cases, Option-cases, any, All, Text, leb,
}
use slothfulchat_web.WebApp.BlobResponse.{
  Header, content_security_policy, nosniff, attachment, Range, first_byte, last_byte, serve_range,
  without_quotes, base_headers, asked_range, blob_response_init,
}

abbrev is_policy : Header → Bool
is_policy content_security_policy = true
is_policy _ = false

abbrev is_nosniff : Header → Bool
is_nosniff nosniff = true
is_nosniff _ = false

-- Neither a quote nor a backslash.
abbrev breaks_out : ℕ → Bool
breaks_out c = (c == 34) || (c == 92)

abbrev pub Quoted : Header → Type 0
Quoted (attachment s) = any breaks_out s ≡ false
Quoted _ = Unit

without_quotes-Quoted : (s : Text) → any breaks_out (without_quotes s) ≡ false
without_quotes-Quoted [] = refl
without_quotes-Quoted (c ∷ s) = ground (arith, without_quotes-Quoted s)

abbrev pub Secured : List Header → Type 0
Secured hs = (any is_policy hs ≡ true) × (any is_nosniff hs ≡ true) × All Quoted hs

base_headers-Secured :
    (mime name : Option Text) (hs : List Header)
    → All Quoted hs
    → Secured (base_headers mime name ++ hs)
unfolding base_headers
base_headers-Secured mime none hs h = (refl, refl, (tt, (tt, (tt, (tt, h)))))
base_headers-Secured mime (some []) hs h = (refl, refl, (tt, (tt, (tt, (tt, h)))))
base_headers-Secured mime (some (c ∷ s)) hs h =
    (refl, refl, (tt, (tt, (tt, (tt, (without_quotes-Quoted (c ∷ s), h))))))

serve_range-Secured :
    (total : ℕ) (mime name : Option Text) (r : Range)
    → Secured (serve_range total (base_headers mime name) r).headers
unfolding serve_range
serve_range-Secured total mime name r =
    elim (Bool-cases
      (ltb (last_byte total r) (first_byte total r) || leb total (first_byte total r))) [
        | inl y ↦ rw y (base_headers-Secured mime name _ (tt, tt))
        | inr n ↦ rw n (base_headers-Secured mime name _ (tt, (tt, tt)))
      ]

-- Every response, also a partial one and a refusal, carries the sandbox policy and `nosniff`, and the file
-- name of a download cannot end its quoted string.
pub blob_response_init-Secured :
    (total : ℕ) (mime name range : Option Text)
    → Secured (blob_response_init total mime name range).headers
unfolding blob_response_init
blob_response_init-Secured total mime name range = elim (Option-cases (asked_range range)) [
  | inl q ↦ rw q (base_headers-Secured mime name _ (tt, tt))
  | inr (r, q) ↦ rw q (serve_range-Secured total mime name r)
]
