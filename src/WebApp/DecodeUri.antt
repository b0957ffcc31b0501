-- ===== src/WebApp/DecodeUri.antt =====
-- `decodeURIComponent`, as packages/web-app/src/blob-route.ts uses it: percent escapes are octets of
-- UTF-8, and whatever is not well formed throws, here `none`.
use Prim.Native.Nat.{◌*◌, ◌/◌, ◌%◌}
use slothfulchat_web.Prelude.{
  ℕ, zero, suc, ◌+◌, ◌-◌, ◌≡◌, refl, Bool, true, false, ◌&&◌, ◌||◌, Option, none, some, List, [],
  ◌∷◌, ltb, ◌==◌, if◌then◌else◌, Text, codes, leb, is_digit,
}

pub data Piece : Type 0 where
  unit : ℕ → Piece
  octet : ℕ → Piece

abbrev hex_digit : ℕ → Option ℕ
hex_digit c =
    if is_digit c
    then some (c - 48)
    else (if leb 65 c && leb c 70
        then some (c - 55)
        else (if leb 97 c && leb c 102 then some (c - 87) else none))

-- What was read of an escape.
pub data Pending : Type 0 where
  plain percent : Pending
  high : ℕ → Pending

abbrev cons {ℓ} : {A : Type ℓ} → A → Option (List A) → Option (List A)
cons a none = none
cons a (some rest) = some (a ∷ rest)

pieces : Pending → Text → Option (List Piece)
pieces plain [] = some []
pieces plain (c ∷ s) = elim (c == 37) [
  | true ↦ pieces percent s
  | false ↦ cons (unit c) (pieces plain s)
]
pieces percent [] = none
pieces percent (c ∷ s) = elim (hex_digit c) [ none ↦ none | some h ↦ pieces (high h) s ]
pieces (high h) [] = none
pieces (high h) (c ∷ s) = elim (hex_digit c) [
  | none ↦ none
  | some l ↦ cons (octet (16 * h + l)) (pieces plain s)
]

abbrev is_surrogate : ℕ → Bool
is_surrogate v = leb 55296 v && leb v 57343

-- The code units of a code point, put before a text.
abbrev encode : ℕ → Option Text → Option Text
encode v none = none
encode v (some t) =
    if leb v 65535
    then some (v ∷ t)
    else some ((55296 + (v - 65536) / 1024) ∷ (56320 + (v - 65536) % 1024) ∷ t)

-- `n` octets of a sequence are missing, `v` is its value so far, and `least` what its length is for.
utf8 : ℕ → ℕ → ℕ → List Piece → Option Text
utf8 zero v least [] = some []
utf8 zero v least (unit c ∷ ps) = cons c (utf8 0 0 0 ps)
utf8 zero v least (octet b ∷ ps) = elim (ltb b 128) [
  | true ↦ cons b (utf8 0 0 0 ps)
  | false ↦ elim (leb 192 b && ltb b 224) [
    | true ↦ utf8 1 (b - 192) 128 ps
    | false ↦ elim (leb 224 b && ltb b 240) [
      | true ↦ utf8 2 (b - 224) 2048 ps
      | false ↦ elim (leb 240 b && ltb b 248) [ true ↦ utf8 3 (b - 240) 65536 ps | false ↦ none ]
    ]
  ]
]
utf8 (suc n) v least [] = none
utf8 (suc n) v least (unit c ∷ ps) = none
utf8 (suc n) v least (octet b ∷ ps) =
    let w = 64 * v + (b - 128) in
    elim (leb 128 b && ltb b 192) [
      | false ↦ none
      | true ↦ elim (n == 0) [
        | false ↦ utf8 n w least ps
        | true ↦ elim (ltb w least || is_surrogate w || ltb 1114111 w) [
          | true ↦ none
          | false ↦ encode w (utf8 0 0 0 ps)
        ]
      ]
    ]

unfoldable pub decode_uri_component : Text → Option Text
unfolding pieces utf8
decode_uri_component s = elim (pieces plain s) [ none ↦ none | some ps ↦ utf8 0 0 0 ps ]

decoded_slash : decode_uri_component (codes "%2e%2E%2f") ≡ some (codes "../")
unfolding decode_uri_component pieces utf8
decoded_slash = refl

decoded_umlaut : decode_uri_component (codes "%C3%A4") ≡ some (228 ∷ [])
unfolding decode_uri_component pieces utf8
decoded_umlaut = refl

overlong : decode_uri_component (codes "%C0%AE") ≡ none
unfolding decode_uri_component pieces utf8
overlong = refl
