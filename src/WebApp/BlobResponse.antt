-- ===== src/WebApp/BlobResponse.antt =====
-- packages/web-app/src/blob-response.ts: the status, headers and slice of a blob that the service worker
-- sends. Sizes are whole numbers below 2 ^ 53, where the numbers of the source are exact; a larger bound
-- of a range is rounded there, and stays above every size.
pub mod Ranges
pub mod Headers
use Prim.Native.Nat.{◌*◌}
use slothfulchat_web.Prelude.{
  ℕ, suc, ◌+◌, ◌-◌, not, ◌||◌, Option, none, some, List, [], ◌∷◌, ◌++◌, ltb, ◌==◌, if◌then◌else◌,
  or_else, keep, Text, codes, leb, is_blank, after_prefix, trim, is_digit,
}

pub data ContentRange : Type 0 where
  -- `bytes */total`
  unsatisfied : ℕ → ContentRange
  -- `bytes first-last/total`
  satisfied : ℕ → ℕ → ℕ → ContentRange

pub data Header : Type 0 where
  content_type : Text → Header
  accept_ranges_bytes : Header
  -- `sandbox allow-downloads; default-src 'none'`
  content_security_policy : Header
  nosniff : Header
  -- `attachment; filename="..."`
  attachment : Text → Header
  content_range : ContentRange → Header
  content_length : ℕ → Header

pub record BlobResponseInit : Type 0 where
  pub status : ℕ
  pub headers : List Header
  pub start : ℕ
  pub end_excluded : ℕ

-- The groups of `/^bytes=(\d*)-(\d*)$/`.
abbrev pub digits : Text → Text × Text
digits [] = ([], [])
digits (c ∷ s) = let (ds, rest) = digits s in if is_digit c then (c ∷ ds, rest) else ([], c ∷ s)

abbrev pub range_groups : Text → Option (Text × Text)
range_groups s = elim (after_prefix (codes "bytes=") s) [
  | none ↦ none
  | some rest ↦ elim (after_prefix (codes "-") (digits rest).1) [
    | none ↦ none
    | some t ↦ if is_blank (digits t).1 then some ((digits rest).0, (digits t).0) else none
  ]
]

-- `Number(digits)`
abbrev pub number_from : ℕ → Text → ℕ
number_from n [] = n
number_from n (c ∷ s) = number_from (n * 10 + (c - 48)) s

abbrev pub number : Text → ℕ
number s = number_from 0 s

pub data Range : Type 0 where
  from : ℕ → Range
  between : ℕ → ℕ → Range
  last_bytes : ℕ → Range

-- The range of two groups, where one of them is not empty.
abbrev pub range_of : Text → Text → Option Range
range_of [] [] = none
range_of [] (c ∷ s) = some (last_bytes (number (c ∷ s)))
range_of (c ∷ s) [] = some (from (number (c ∷ s)))
range_of (c ∷ s) (d ∷ t) = some (between (number (c ∷ s)) (number (d ∷ t)))

unfoldable pub parse_range : Text → Option Range
parse_range r = elim (range_groups (trim r)) [ none ↦ none | some (a, b) ↦ range_of a b ]

abbrev pub first_byte : ℕ → Range → ℕ
first_byte total (from a) = a
first_byte total (between a b) = a
first_byte total (last_bytes n) = total - n

-- The last byte that is sent; without bytes there is none, and the range is refused in any case.
abbrev pub last_byte : ℕ → Range → ℕ
last_byte total (from a) = total - 1
last_byte total (between a b) = if leb b (total - 1) then b else total - 1
last_byte total (last_bytes n) = total - 1

unfoldable pub serve_range : ℕ → List Header → Range → BlobResponseInit
serve_range total headers r =
    let start = first_byte total r in
    let last = last_byte total r in
    if ltb last start || leb total start
    then record {
      status = 416;
      headers = headers ++ content_range (unsatisfied total) ∷ [];
      start = 0;
      end_excluded = 0;
    }
    else record {
      status = 206;
      headers =
          headers
          ++ content_range (satisfied start last total) ∷ content_length (suc (last - start)) ∷ [];
      start = start;
      end_excluded = suc last;
    }

-- `downloadName.replace(/["\\]/g, '')`
abbrev pub without_quotes : Text → Text
without_quotes s = keep (λ c. not ((c == 34) || (c == 92))) s

abbrev pub disposition : Option Text → List Header
disposition none = []
disposition (some []) = []
disposition (some (c ∷ s)) = attachment (without_quotes (c ∷ s)) ∷ []

unfoldable pub base_headers : Option Text → Option Text → List Header
base_headers mime download_name =
    content_type (or_else mime (codes "application/octet-stream"))
    ∷ accept_ranges_bytes
    ∷ content_security_policy
    ∷ nosniff
    ∷ disposition download_name

abbrev pub serve : ℕ → List Header → Option Range → BlobResponseInit
serve total headers none = record {
  status = 200;
  headers = headers ++ content_length total ∷ [];
  start = 0;
  end_excluded = total;
}
serve total headers (some r) = serve_range total headers r

abbrev pub asked_range : Option Text → Option Range
asked_range none = none
asked_range (some r) = parse_range r

unfoldable pub blob_response_init : ℕ → Option Text → Option Text → Option Text → BlobResponseInit
blob_response_init total mime download_name range =
    serve total (base_headers mime download_name) (asked_range range)
