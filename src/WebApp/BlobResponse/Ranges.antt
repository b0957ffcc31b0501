-- ===== src/WebApp/BlobResponse/Ranges.antt =====
-- packages/web-app/src/blob-response.ts: a range gets the bytes that it asks for.
use slothfulchat_web.Prelude.{
  ℕ, ◌+◌, ◌-◌, ◌≤◌, ◌≡◌, refl, ap, ◌∙◌, inl, inr, Bool, ◌&&◌, Option, none, some, List, [], ◌∷◌,
  ◌++◌, arith, ltb, ◌==◌, if◌then◌else◌, Option-cases, Text, leb,
}
use slothfulchat_web.WebApp.BlobResponse.{
  Header, content_length, BlobResponseInit, Range, from, between, last_bytes, serve_range,
  base_headers, asked_range, blob_response_init,
}

-- What a `Range` header means: whether it asks for the byte at `i` of a blob, by the position of its
-- first and last byte, or by their number at the end.
abbrev pub wants : ℕ → Option Range → ℕ → Bool
wants total none i = ltb i total
wants total (some (from a)) i = leb a i && ltb i total
wants total (some (between a b)) i = leb a i && leb i b && ltb i total
wants total (some (last_bytes n)) i = ltb i total && leb total (i + n)

abbrev pub sends : BlobResponseInit → ℕ → Bool
sends b i = leb b.start i && ltb i b.end_excluded

serve_range-sends :
    (total : ℕ) (hs : List Header) (r : Range) (i : ℕ)
    → sends (serve_range total hs r) i ≡ wants total (some r) i
unfolding serve_range
serve_range-sends total hs (from a) i = ground arith
serve_range-sends total hs (between a b) i = ground arith
serve_range-sends total hs (last_bytes n) i = ground arith

serve_range-within :
    (total : ℕ) (hs : List Header) (r : Range) → (serve_range total hs r).end_excluded ≤ total
unfolding serve_range
serve_range-within total hs r = ground arith

-- The length that the headers declare.
abbrev pub declared : List Header → Option ℕ
declared [] = none
declared (content_length n ∷ hs) = some n
declared (h ∷ hs) = declared hs

base_headers-declared :
    (mime name : Option Text) (hs : List Header)
    → declared (base_headers mime name ++ hs) ≡ declared hs
unfolding base_headers
base_headers-declared mime none hs = refl
base_headers-declared mime (some []) hs = refl
base_headers-declared mime (some (c ∷ s)) hs = refl

abbrev pub body_length : BlobResponseInit → Option ℕ
body_length b = if b.status == 416 then none else some (b.end_excluded - b.start)

serve_range-declared :
    (total : ℕ) (mime name : Option Text) (r : Range)
    → let b = serve_range total (base_headers mime name) r in declared b.headers ≡ body_length b
unfolding serve_range
serve_range-declared total mime name r = grind (arith, base_headers-declared)

-- Whatever the headers of the request, the body holds exactly the bytes of the blob that the range asks
-- for, or all of them without a range that can be read, and none past its end; the declared length is the
-- length of the body, and is missing only from a refusal.
pub blob_response_init-exact :
    (total : ℕ) (mime name range : Option Text) (i : ℕ)
    → let b = blob_response_init total mime name range in
      (sends b i ≡ wants total (asked_range range) i)
      × (b.end_excluded ≤ total)
      × (declared b.headers ≡ body_length b)
unfolding blob_response_init
blob_response_init-exact total mime name range i = elim (Option-cases (asked_range range)) [
  | inl q ↦
      rw q (ground arith, omega arith, base_headers-declared mime name _ ∙ ap some (omega arith))
  | inr (r, q) ↦ rw q (
    serve_range-sends total _ r i,
    serve_range-within total _ r,
    serve_range-declared total mime name r,
  )
]
