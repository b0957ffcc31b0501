-- ===== src/WebApp/BlobRoute/Splitting.antt =====
-- Texts cut at one character or at several, as packages/web-app/src/blob-route.ts and the memfs cut paths.
use slothfulchat_web.Prelude.{
  ℕ, ◌≡◌, refl, ap, inl, inr, Bool, true, false, [], ◌∷◌, ◌++◌, arith, ◌==◌, ==_iff, Bool-cases,
  any, Text, text_eq, parts, split,
}

pub parts-append :
    (p : ℕ → Bool) (c : ℕ) (a b : Text)
    → p c ≡ true
    → (parts p (a ++ c ∷ b)).0 ≡ (parts p a).0
      × ((parts p (a ++ c ∷ b)).1 ≡ (parts p a).1 ++ split p b)
parts-append p c [] b h = ground arith
parts-append p c (d ∷ a) b h = ground (arith, parts-append p c a b h)

pub split-append :
    (p : ℕ → Bool) (c : ℕ) (a b : Text) → p c ≡ true → split p (a ++ c ∷ b) ≡ split p a ++ split p b
split-append p c a b h = let (q, r) = parts-append p c a b h in rw (q, r) refl

parts-single : (p : ℕ → Bool) (a : Text) → any p a ≡ false → parts p a ≡ (a, [])
parts-single p [] h = refl
parts-single p (c ∷ a) h = ground (arith, parts-single p a)

pub split-single : (p : ℕ → Bool) (a : Text) → any p a ≡ false → split p a ≡ a ∷ []
split-single p a h = rw (parts-single p a h) refl

-- A part without separators that stands first, or behind the first, stands there also among finer parts.
module _ (p q : ℕ → Bool) (f : (c : ℕ) → q c ≡ true → p c ≡ true) where
  first_part-finer :
      (w s : Text)
      → any p w ≡ false
      → text_eq w (parts q s).0 ≡ true
      → text_eq w (parts p s).0 ≡ true
  first_part-finer w [] h k = k
  first_part-finer [] (c ∷ s) h k = ground (arith, f c)
  first_part-finer (d ∷ w) (c ∷ s) h k = elim (Bool-cases (d == c)) [
    | inl y ↦ ground (arith, ap p ((==_iff d c).0 y), f c, first_part-finer w s)
    | inr n ↦ ground (arith, f c)
  ]

  later_parts-finer :
      (w s : Text)
      → any p w ≡ false
      → any (text_eq w) (parts q s).1 ≡ true
      → any (text_eq w) (parts p s).1 ≡ true
  later_parts-finer w [] h k = k
  later_parts-finer w (c ∷ s) h k =
      ground (arith, f c, first_part-finer w s h, later_parts-finer w s h)

  pub split-finer :
      (w s : Text)
      → any p w ≡ false
      → any (text_eq w) (split p s) ≡ false
      → any (text_eq w) (split q s) ≡ false
  split-finer w s h k = ground (arith, first_part-finer w s h, later_parts-finer w s h)
