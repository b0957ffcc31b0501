-- ===== src/Prelude/Lists.antt =====
-- Lists measured by native numbers, searched by Boolean tests.
use Prim.Native.Nat.{ℕ, zero, suc, ◌+◌, ◌≤◌}
use mathlib.Core.Path.{◌≡◌, refl, sym}
use mathlib.Core.Logic.{inl, inr}
use mathlib.Core.Bool.{Bool, true, false, not, ◌||◌}
use mathlib.Core.Option.{Option, none, some}
use mathlib.Core.List.{List, [], ◌∷◌, ◌++◌, Memᴰ}
use native.Mathlib.Omega.{arith}
use slothfulchat_web.Prelude.Tests.{Bool-cases, ◌==◌, if◌then◌else◌}

module _ {ℓ} {A : Type ℓ} where
  abbrev pub length : List A → ℕ
  length [] = 0
  length (x ∷ xs) = suc (length xs)

  pub length-append : (xs ys : List A) → length (xs ++ ys) ≡ length xs + length ys
  length-append [] ys = omega arith
  length-append (x ∷ xs) ys = omega (arith, length-append xs ys)

  -- `xs.find(p)`, with `undefined` as `none`.
  abbrev pub find : (A → Bool) → List A → Option A
  find p [] = none
  find p (x ∷ xs) = if p x then some x else find p xs

  -- `xs.filter(p)`
  abbrev pub keep : (A → Bool) → List A → List A
  keep p [] = []
  keep p (x ∷ xs) = if p x then x ∷ keep p xs else keep p xs

  -- `xs.some(p)`
  abbrev pub any : (A → Bool) → List A → Bool
  any p [] = false
  any p (x ∷ xs) = p x || any p xs

  abbrev pub head : List A → Option A
  head [] = none
  head (x ∷ xs) = some x

  abbrev pub take : ℕ → List A → List A
  take zero xs = []
  take (suc n) [] = []
  take (suc n) (x ∷ xs) = x ∷ take n xs

  pub length-take : (n : ℕ) (xs : List A) → n ≤ length xs → length (take n xs) ≡ n
  length-take zero xs h = refl
  length-take (suc n) [] h = absurd (omega arith)
  length-take (suc n) (x ∷ xs) h = omega (arith, length-take n xs (omega arith))

  pub take-take : (m n : ℕ) (xs : List A) → m ≤ n → take m (take n xs) ≡ take m xs
  take-take zero n xs h = refl
  take-take (suc m) zero xs h = absurd (omega arith)
  take-take (suc m) (suc n) [] h = refl
  take-take (suc m) (suc n) (x ∷ xs) h = rw (take-take m n xs (omega arith))

  pub take-length : (xs : List A) → take (length xs) xs ≡ xs
  take-length [] = refl
  take-length (x ∷ xs) = rw (take-length xs)

  pub any-append : (p : A → Bool) (xs ys : List A) → any p (xs ++ ys) ≡ (any p xs || any p ys)
  any-append p [] ys = refl
  any-append p (x ∷ xs) ys = ground (arith, any-append p xs ys)

module _ {ℓ κ} {A : Type ℓ} where
  abbrev pub All : (A → Type κ) → List A → Type κ
  All P [] = Unit
  All P (x ∷ xs) = P x × All P xs

  pub All-append : (P : A → Type κ) (xs ys : List A) → All P xs → All P ys → All P (xs ++ ys)
  All-append P [] ys h k = k
  All-append P (x ∷ xs) ys h k = (h.0, All-append P xs ys h.1 k)

module _ {ℓ κ} {A : Type ℓ} where
  pub All-keep : (P : A → Type κ) (p : A → Bool) (xs : List A) → All P xs → All P (keep p xs)
  All-keep P p [] h = h
  All-keep P p (x ∷ xs) h = elim (Bool-cases (p x)) [
    | inl y ↦ rw y (h.0, All-keep P p xs h.1)
    | inr n ↦ rw n (All-keep P p xs h.1)
  ]

-- Whether a number stands in a list.
abbrev pub member : ℕ → List ℕ → Bool
member n [] = false
member n (x ∷ xs) = (x == n) || member n xs

pub member-append : (n : ℕ) (xs ys : List ℕ) → member n (xs ++ ys) ≡ (member n xs || member n ys)
member-append n [] ys = refl
member-append n (x ∷ xs) ys = ground (arith, member-append n xs ys)

module _ {A : Type 0} (p : A → Bool) where
  pub find-some : (xs : List A) (x : A) → find p xs ≡ some x → Memᴰ x xs × (p x ≡ true)
  find-some [] x h = cc
  find-some (y ∷ ys) x h = elim (Bool-cases (p y)) [
    | inl e ↦
        let found : some y ≡ some x = rw e at h in
        let same : y ≡ x = cc in (Memᴰ.head (sym same), rw (← same) e)
    | inr e ↦ let (later, holds) = find-some ys x (rw e at h) in (Memᴰ.tail later, holds)
  ]

  pub find-none : (xs : List A) → find p xs ≡ none → All (λ x. p x ≡ false) xs
  find-none [] h = tt
  find-none (y ∷ ys) h = elim (Bool-cases (p y)) [
    | inl e ↦ cc (rw e at h)
    | inr e ↦ (e, find-none ys (rw e at h))
  ]

  Memᴰ-cons :
      (y x : A) (xs ys : List A)
      → p y ≡ true
      → (Memᴰ x xs → Memᴰ x ys × (p x ≡ true))
      → Memᴰ x (y ∷ xs)
      → Memᴰ x (y ∷ ys) × (p x ≡ true)
  Memᴰ-cons y x xs ys e later (Memᴰ.head q) = (Memᴰ.head q, rw q e)
  Memᴰ-cons y x xs ys e later (Memᴰ.tail t) = (Memᴰ.tail (later t).0, (later t).1)

  pub mem-keep : (xs : List A) (x : A) → Memᴰ x (keep p xs) → Memᴰ x xs × (p x ≡ true)
  mem-keep [] x h = elim h [ ]
  mem-keep (y ∷ ys) x h = elim (Bool-cases (p y)) [
    | inl e ↦ Memᴰ-cons y x (keep p ys) ys e (mem-keep ys x) (rw e at h)
    | inr e ↦ let (later, holds) = mem-keep ys x (rw e at h) in (Memᴰ.tail later, holds)
  ]

abbrev pub count_if : Bool → ℕ
count_if true = 1
count_if false = 0

-- How often a number stands in a list.
abbrev pub count : ℕ → List ℕ → ℕ
count n [] = 0
count n (x ∷ xs) = count_if (x == n) + count n xs

pub count-append : (n : ℕ) (xs ys : List ℕ) → count n (xs ++ ys) ≡ count n xs + count n ys
count-append n [] ys = omega arith
count-append n (x ∷ xs) ys = omega (arith, count-append n xs ys)

pub count-member : (n : ℕ) (xs : List ℕ) → member n xs ≡ false → count n xs ≡ 0
count-member n [] h = refl
count-member n (x ∷ xs) h = ground (arith, count-member n xs)

pub member-count : (n : ℕ) (xs : List ℕ) → member n xs ≡ true → 1 ≤ count n xs
member-count n [] h = cc
member-count n (x ∷ xs) h = ground (arith, member-count n xs)

-- Dropping a number drops all of its places, and keeps the others.
pub count-drop :
    (n m : ℕ) (xs : List ℕ)
    → count n (keep (λ k. not (k == m)) xs) ≡ (if m == n then 0 else count n xs)
count-drop n m [] = ground arith
count-drop n m (x ∷ xs) = ground (arith, count-drop n m xs)
