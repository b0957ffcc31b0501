-- ===== src/Examples/Reports.antt =====
-- Reports of failed starts, translations and the wait for file handles at concrete inputs.
use slothfulchat_web.Prelude.{
  ℕ, zero, suc, ◌+◌, ◌≡◌, refl, true, false, none, some, [], ◌∷◌, ◌++◌, arith, Text, codes,
}
use slothfulchat_web.WebApp.Events.{join}
use slothfulchat_web.WebApp.FatalReport.{
  FatalReportFields, fatal_report_text, title_of, fits, fatal_report_url,
}
use slothfulchat_web.WebApp.FatalReport.Clipped.{IsClip, fatal_report_url-ends}
use slothfulchat_web.WebApp.TranslationSerialize.{
  get_value, set_value, spread, merge_keys, merge_overlay, escape_android, insert, sort, match_rows,
  match_keys, to_android_xml,
}
use slothfulchat_web.WebApp.TranslationSerialize.RoundTrip.{unescape, unescape-escape}
use slothfulchat_web.CoreWasm.OpfsProbe.{
  Probe, settles, never, hung, Report, ended, raced, rounds, probe_until_deadline,
}
use slothfulchat_web.CoreWasm.OpfsProbe.Ends.{IsEnd, probe_until_deadline-ends}

abbrev crash : FatalReportFields
crash = record {
  kind = codes "init-error";
  details = codes "boom  here ";
  version = codes "1.2.0";
  commit_hash = codes "abc1234-dirty";
  origin = [];
  user_agent = codes "Test";
  display_mode = codes "browser";
}

report_test :
    fatal_report_text crash
    ≡ join (10 ∷ []) (
        codes "failure: init-error"
        ∷ codes "build: 1.2.0 abc1234"
        ∷ codes "display: browser"
        ∷ codes "browser: Test"
        ∷ codes "details: boom here"
        ∷ [])
unfolding fatal_report_text
report_test = refl

abbrev joined : Text → Text → Text → Text
joined url title body = url ++ (title ++ body)

fatal_report_url-ends_example :
    (body : Text) × (fatal_report_url
        (λ u. true)
        joined
        (λ m n. m)
        (codes "https://x.example/")
        (fatal_report_text crash)
        (codes "init-error")
      ≡ some (joined (codes "https://x.example/") (title_of (codes "init-error")) body))
    × IsClip
        (fits
          (λ u. true)
          joined
          (λ m n. m)
          (codes "https://x.example/")
          (title_of (codes "init-error")))
        (fatal_report_text crash)
        body
fatal_report_url-ends_example =
    fatal_report_url-ends (λ u. true) joined (λ m n. m) (codes "https://x.example/")
      (fatal_report_text crash) (codes "init-error") refl (unfold fatal_report_text in refl) refl

unescape-escape_example :
    unescape (escape_android (codes "Tom's <b> & \"q\"")) ≡ some (codes "Tom's <b> & \"q\"")
unescape-escape_example = unescape-escape (codes "Tom's <b> & \"q\"")

matched_test :
    match_keys
      ((codes "OK", codes "ok" ∷ codes "confirm" ∷ []) ∷ (codes "Write", codes "write" ∷ []) ∷ [])
      (codes " OK" ∷ codes "Write" ∷ codes "OK" ∷ codes "no" ∷ [])
    ≡ (codes "Write", codes "write" ∷ []) ∷ (codes "OK", codes "confirm" ∷ codes "ok" ∷ []) ∷ []
unfolding match_keys match_rows sort insert get_value
matched_test = refl

merged_test :
    merge_overlay
      (some ((codes "a", none) ∷ (codes "b", some ((codes "one", codes "x") ∷ [])) ∷ []))
      ((codes "b", (codes "one", codes "y") ∷ (codes "other", codes "z") ∷ []) ∷ [])
    ≡ (codes "b", (codes "one", codes "x") ∷ (codes "other", codes "z") ∷ []) ∷ []
unfolding merge_overlay merge_keys spread set_value get_value
merged_test = refl

xml_test :
    to_android_xml ((codes "ok", (codes "message", codes "It's") ∷ []) ∷ [])
    ≡ join (10 ∷ []) (
        codes "<?xml version=\"1.0\" encoding=\"utf-8\"?>"
        ∷ codes "<resources>"
        ∷ codes "    <string name=\"ok\">It\\'s</string>"
        ∷ codes "</resources>"
        ∷ ([] ∷ []))
unfolding to_android_xml escape_android sort insert get_value
xml_test = refl

-- The first probe finds the handles locked, the second hangs.
abbrev stuck : ℕ → Probe
stuck zero = settles 10 false
stuck (suc n) = never

hung_test : probe_until_deadline stuck 0 2000 500 ≡ some (ended hung 2000 2)
unfolding probe_until_deadline rounds raced
hung_test = refl

probe_until_deadline-ends_example :
    (r : Report) × (probe_until_deadline stuck 5 2000 500 ≡ some r) × IsEnd stuck (5 + 2000) 500 r
probe_until_deadline-ends_example = probe_until_deadline-ends stuck 5 2000 500 (omega arith)
