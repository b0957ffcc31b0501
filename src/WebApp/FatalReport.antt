-- ===== src/WebApp/FatalReport.antt =====
-- packages/web-app/src/fatal-report.ts: the report of a failed start, and the URL of a report button. What
-- `URL` does is a parameter: whether a text is a URL, and the `href` of one with a title and a body set as
-- parameters, where setting one again replaces it. So is the room that a product of floating-point
-- numbers leaves.
pub mod Clipped
use mathlib.Core.Option
use slothfulchat_web.Prelude.{
  ℕ, zero, suc, ◌-◌, Bool, true, false, not, ◌&&◌, ◌||◌, Option, none, some, List, [], ◌∷◌, ◌++◌,
  map, if◌then◌else◌, length, keep, take, Text, codes, leb, is_blank, is_space, trim, is_digit,
  includes,
}
use slothfulchat_web.WebApp.Events.{join}

pub record FatalReportFields : Type 0 where
  pub kind : Text
  pub details : Text
  pub version : Text
  pub commit_hash : Text
  pub origin : Text
  pub user_agent : Text
  pub display_mode : Text

abbrev is_hex : ℕ → Bool
is_hex c = is_digit c || (leb 97 c && leb c 102)

abbrev hex_run : Text → Text
hex_run [] = []
hex_run (c ∷ s) = if is_hex c then c ∷ hex_run s else []

-- `replace(/\s+/g, ' ')`, behind a space or not.
abbrev squeeze : Bool → Text → Text
squeeze behind [] = []
squeeze behind (c ∷ s) =
    if is_space c
    then (if behind then squeeze true s else 32 ∷ squeeze true s)
    else c ∷ squeeze false s

abbrev pub collapse : Text → Text
collapse value = trim (squeeze false value)

abbrev short_hash : Text → Text
short_hash commit_hash = take 8 (hex_run commit_hash)

abbrev newline : Text
newline = 10 ∷ []

abbrev line : Text × Text → Text
line (label, value) = label ++ (codes ": " ++ value)

abbrev fields_of : FatalReportFields → List (Text × Text)
fields_of f =
    let build =
      join (codes " ") (keep (λ s. not (is_blank s)) (f.version ∷ short_hash f.commit_hash ∷ [])) in
    (codes "failure", f.kind)
    ∷ (codes "build", build)
    ∷ (codes "origin", f.origin)
    ∷ (codes "display", f.display_mode)
    ∷ (codes "browser", collapse f.user_agent)
    ∷ (codes "details", collapse f.details)
    ∷ []

unfoldable pub fatal_report_text : FatalReportFields → Text
fatal_report_text f =
    join newline (map line (keep (λ (l : Text × Text). not (is_blank l.1)) (fields_of f)))

abbrev non_blank_or : Text → Text → Text
non_blank_or s fallback = if is_blank s then fallback else s

unfoldable pub fatal_details : Text → Text → Text
fatal_details message stack =
    if is_blank stack
    then non_blank_or message (codes "unknown error")
    else (if includes message stack then stack else message ++ (newline ++ stack))

abbrev issue_note : Text
issue_note =
    codes "Opening an issue needs an account on the tracker, and the report is public there."

unfoldable pub report_choice_note : Text → Text → Text
report_choice_note tracker direct =
    if is_blank tracker
    then []
    else (if is_blank direct
        then issue_note
        else issue_note ++ codes " Sending it to the developers needs neither.")

abbrev pub max_url : ℕ
max_url = 6000

abbrev pub title_of : Text → Text
title_of kind = if is_blank kind then codes "Crash report" else codes "Crash: " ++ kind

abbrev pub min : ℕ → ℕ → ℕ
min a b = if leb a b then a else b

module _ (parses : Text → Bool) (href : Text → Text → Text → Text) (scaled : ℕ → ℕ → ℕ) where
  -- A round of the loop needs a body and a URL that is too long.
  abbrev pub fits : Text → Text → Text → Bool
  fits url title body = is_blank body || leb (length (href url title body)) max_url

  abbrev pub clipped : Text → Text → Text → Text
  clipped url title body =
      take (min (scaled (length body) (length (href url title body))) (length body - 1)) body

  -- The body that the loop ends with, `none` where the fuel runs out.
  unfoldable pub shrink : ℕ → Text → Text → Text → Option Text
  shrink zero url title body = none
  shrink (suc fuel) url title body =
      let rest = shrink fuel url title (clipped url title body) in
      if fits url title body then some body else rest

  -- `none` where the fuel runs out.
  unfoldable pub fatal_report_url : Text → Text → Text → Option Text
  fatal_report_url support_url report kind =
      if is_blank support_url || is_blank report
      then some []
      else (if not (parses support_url)
          then some []
          else Option.map (href support_url (title_of kind))
              (shrink (suc (length report)) support_url (title_of kind) report))
