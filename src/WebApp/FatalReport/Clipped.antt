-- ===== src/WebApp/FatalReport/Clipped.antt =====
-- packages/web-app/src/fatal-report.ts: the loop that clips a report comes to its end.
use slothfulchat_web.Prelude.{
  ℕ, zero, suc, ◌-◌, ◌≤◌, ◌<◌, ◌≡◌, refl, sym, ◌∙◌, inl, inr, Bool, true, false, some, [], ◌∷◌,
  arith, Bool-cases, length, take, length-take, take-take, take-length, Text, is_blank,
}
use slothfulchat_web.WebApp.FatalReport.{title_of, min, fits, shrink, fatal_report_url}

-- The body that is sent: a beginning of the report, all of it if that fits, and empty or in a URL that fits.
pub record IsClip (fits : Text → Bool) (report body : Text) : Type 0 where
  pub kept : ℕ
  pub within : kept ≤ length report
  pub prefix : body ≡ take kept report
  pub whole : fits report ≡ true → body ≡ report
  pub bounded : fits body ≡ true

module _ (parses : Text → Bool) (href : Text → Text → Text → Text) (scaled : ℕ → ℕ → ℕ)
    (url title : Text) where
  shorter-clip :
      (body : Text)
      → fits parses href scaled url title body ≡ false
      → min (scaled (length body) (length (href url title body))) (length body - 1) < length body
  shorter-clip [] n = cc
  shorter-clip (c ∷ s) n = ground arith

  IsClip-again :
      (body b : Text) (k : ℕ)
      → fits parses href scaled url title body ≡ false
      → k ≤ length body
      → IsClip (fits parses href scaled url title) (take k body) b
      → IsClip (fits parses href scaled url title) body b
  IsClip-again body b k n h c =
      let within : c.kept ≤ k = rw (length-take k body h) at c.within in
      record {
        kept = c.kept;
        within = omega arith;
        prefix = c.prefix ∙ take-take c.kept k body within;
        whole = λ y. cc;
        bounded = c.bounded;
      }

  shrink_ends :
      (fuel : ℕ) (body : Text)
      → length body < fuel
      → (b : Text) × (shrink parses href scaled fuel url title body ≡ some b)
        × IsClip (fits parses href scaled url title) body b
  unfolding shrink
  shrink_ends zero body h = absurd (omega arith)
  shrink_ends (suc fuel) body h = elim (Bool-cases (fits parses href scaled url title body)) [
    | inl y ↦ (
      body,
      rw y refl,
      record {
        kept = length body;
        within = omega arith;
        prefix = sym (take-length body);
        whole = λ _. refl;
        bounded = y;
      },
    )
    | inr n ↦
        let k = min (scaled (length body) (length (href url title body))) (length body - 1) in
        let shorter : k < length body = shorter-clip body n in
        let (b, e, c) =
          shrink_ends fuel (take k body) (rw (length-take k body (omega arith)) (omega arith)) in
        (b, rw n e, IsClip-again body b k n (omega arith) c)
  ]

-- A report that goes to a URL comes to an end with a round for each of its characters and one more: the
-- URL carries a beginning of the report, and all of it if the URL is then short enough; it is at most 6000
-- characters long, unless it is too long with no report at all.
pub fatal_report_url-ends :
    (parses : Text → Bool) (href : Text → Text → Text → Text) (scaled : ℕ → ℕ → ℕ)
    (url report kind : Text)
    → is_blank url ≡ false
    → is_blank report ≡ false
    → parses url ≡ true
    → (body : Text) × (fatal_report_url parses href scaled url report kind
        ≡ some (href url (title_of kind) body))
      × IsClip (fits parses href scaled url (title_of kind)) report body
unfolding fatal_report_url
fatal_report_url-ends parses href scaled url report kind u r p =
    let (b, e, c) =
      shrink_ends parses href scaled url (title_of kind) (suc (length report)) report
        (omega arith) in
    (b, simp (u, r, p, e) refl, c)
