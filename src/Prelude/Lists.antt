-- ===== src/Prelude/Lists.antt =====
-- Lists measured by the native numbers, predicates by recursion, and the array methods of the source.
use Prim.Native.Nat.{ℕ, zero, suc, ◌+◌}
use mathlib.Core.Path.{◌≡◌, refl, ap, subst, ◌∙◌}
use mathlib.Core.Logic.{inl, inr}
use mathlib.Core.Bool.{Bool, true, false, ◌||◌}
use mathlib.Core.List.{List, [], ◌∷◌, ◌++◌, map, append_assoc}
use mathlib.Core.Option.{Option, none, some}
use native.Mathlib.Omega.{arith}
use backend_sketch.Prelude.Tests.{Bool-cases, if◌then◌else◌}

module _ {ℓ} {A : Type ℓ} where
  abbrev pub length : List A → ℕ
  length [] = 0
  length (x ∷ xs) = suc (length xs)

  pub length-append : (xs ys : List A) → length (xs ++ ys) ≡ length xs + length ys
  length-append [] ys = omega arith
  length-append (x ∷ xs) ys = omega (arith, length-append xs ys)

  abbrev pub take : ℕ → List A → List A
  take zero xs = []
  take (suc n) [] = []
  take (suc n) (x ∷ xs) = x ∷ take n xs

  abbrev pub drop : ℕ → List A → List A
  drop zero xs = xs
  drop (suc n) [] = []
  drop (suc n) (x ∷ xs) = drop n xs

  -- `Array.prototype.filter`, `find` and `some`, by a Boolean test.
  abbrev pub keep : (A → Bool) → List A → List A
  keep p [] = []
  keep p (x ∷ xs) = if p x then x ∷ keep p xs else keep p xs

  abbrev pub find : (A → Bool) → List A → Option A
  find p [] = none
  find p (x ∷ xs) = if p x then some x else find p xs

  abbrev pub any : (A → Bool) → List A → Bool
  any p [] = false
  any p (x ∷ xs) = p x || any p xs

module _ {ℓ κ} {A : Type ℓ} (P : A → Type κ) where
  abbrev pub All : List A → Type κ
  All [] = Unit
  All (x ∷ xs) = P x × All xs

-- The relation holds between each element and each later one.
module _ {ℓ κ} {A : Type ℓ} (R : A → A → Type κ) where
  abbrev pub AllPairs : List A → Type κ
  AllPairs [] = Unit
  AllPairs (x ∷ xs) = All (R x) xs × AllPairs xs

pub some_inj {ℓ} : {A : Type ℓ} {a b : A} → some a ≡ some b → a ≡ b
some_inj e = cc

module _ {ℓ κ} {A : Type ℓ} (P : A → Type κ) where
  pub All-append : (xs ys : List A) → All P xs → All P ys → All P (xs ++ ys)
  All-append [] ys h k = k
  All-append (x ∷ xs) ys h k = (h.0, All-append xs ys h.1 k)

  pub All-keep : (p : A → Bool) (xs : List A) → All P xs → All P (keep p xs)
  All-keep p [] h = tt
  All-keep p (x ∷ xs) h = ground (arith, All-keep p xs h.1)

  pub All_of_find : (p : A → Bool) (xs : List A) {x : A} → All P xs → find p xs ≡ some x → P x
  All_of_find p [] h e = absurd (cc e)
  All_of_find p (y ∷ xs) h e = elim (Bool-cases (p y)) [
    | inl here ↦ subst P (some_inj (rw here at e)) h.0
    | inr later ↦ All_of_find p xs h.1 (rw later at e)
  ]

module _ {ℓ κ μ} {A : Type ℓ} {P : A → Type κ} {Q : A → Type μ} where
  pub All_imp : (xs : List A) → ((x : A) → P x → Q x) → All P xs → All Q xs
  All_imp [] f h = tt
  All_imp (x ∷ xs) f h = (f x h.0, All_imp xs f h.1)

module _ {ℓ κ μ} {A : Type ℓ} (P : A → Type κ) (Q : A → Type μ) where
  pub All_zip : (xs : List A) → All P xs → All Q xs → All (λ x. P x × Q x) xs
  All_zip [] h k = tt
  All_zip (x ∷ xs) h k = ((h.0, k.0), All_zip xs h.1 k.1)

module _ {ℓ κ} {A : Type ℓ} (R : A → A → Type κ) where
  pub AllPairs-keep : (p : A → Bool) (xs : List A) → AllPairs R xs → AllPairs R (keep p xs)
  AllPairs-keep p [] h = tt
  AllPairs-keep p (x ∷ xs) h = elim (Bool-cases (p x)) [
    | inl t ↦ rw t (All-keep (R x) p xs h.0, AllPairs-keep p xs h.1)
    | inr f ↦ rw f (AllPairs-keep p xs h.1)
  ]

  pub AllPairs-append :
      (xs ys : List A)
      → AllPairs R xs
      → AllPairs R ys
      → All (λ x. All (R x) ys) xs
      → AllPairs R (xs ++ ys)
  AllPairs-append [] ys h k c = k
  AllPairs-append (x ∷ xs) ys h k c =
      (All-append (R x) xs ys h.0 c.0, AllPairs-append xs ys h.1 k c.1)

module _ {ℓ} {A : Type ℓ} where
  -- What the test of `any` says of each element, and back.
  pub All_of_any-false : (p : A → Bool) (xs : List A) → any p xs ≡ false → All (λ x. p x ≡ false) xs
  All_of_any-false p [] h = tt
  All_of_any-false p (x ∷ xs) h = (ground arith, All_of_any-false p xs (ground arith))

  pub any-false_of_All : (p : A → Bool) (xs : List A) → All (λ x. p x ≡ false) xs → any p xs ≡ false
  any-false_of_All p [] h = refl
  any-false_of_All p (x ∷ xs) h = rw h.0 (any-false_of_All p xs h.1)

  -- What `keep` keeps passes its test.
  pub All-keep_self : (p : A → Bool) (xs : List A) → All (λ x. p x ≡ true) (keep p xs)
  All-keep_self p [] = tt
  All-keep_self p (x ∷ xs) = elim (Bool-cases (p x)) [
    | inl t ↦ rw t (t, All-keep_self p xs)
    | inr f ↦ rw f (All-keep_self p xs)
  ]

module _ {ℓ κ μ} {A : Type ℓ} {B : Type κ} (f : A → B) where
  pub All-map : (P : B → Type μ) (xs : List A) → All (λ x. P (f x)) xs → All P (map f xs)
  All-map P [] h = tt
  All-map P (x ∷ xs) h = (h.0, All-map P xs h.1)

  pub AllPairs-map :
      (R : B → B → Type μ) (xs : List A)
      → AllPairs (λ x y. R (f x) (f y)) xs
      → AllPairs R (map f xs)
  AllPairs-map R [] h = tt
  AllPairs-map R (x ∷ xs) h = (All-map (R (f x)) xs h.0, AllPairs-map R xs h.1)

  pub length-map : (xs : List A) → length (map f xs) ≡ length xs
  length-map [] = refl
  length-map (x ∷ xs) = omega (arith, length-map xs)

module _ {ℓ κ μ} {A : Type ℓ} {R : A → A → Type κ} {S : A → A → Type μ} where
  pub AllPairs-imp : (xs : List A) → ((x y : A) → R x y → S x y) → AllPairs R xs → AllPairs S xs
  AllPairs-imp [] f h = tt
  AllPairs-imp (x ∷ xs) f h = (All_imp xs (f x) h.0, AllPairs-imp xs f h.1)

-- An update that the test does not see.
pub find-map {ℓ} :
    {A : Type ℓ} (f : A → A) (p : A → Bool) (xs : List A) (x : A)
    → ((y : A) → p (f y) ≡ p y)
    → find p xs ≡ some x
    → find p (map f xs) ≡ some (f x)
find-map f p [] x same h = absurd (cc h)
find-map f p (y ∷ xs) x same h = elim (Bool-cases (p y)) [
  | inl t ↦ rw (same y, t) (let e : y ≡ x = some_inj (rw t at h) in ap (λ z. some (f z)) e)
  | inr n ↦ rw (same y, n) (find-map f p xs x same (rw n at h))
]

module _ {ℓ κ μ} {A : Type ℓ} {B : Type κ} (R : A → B → Type μ) where
  All_none : (xs : List A) → All (λ x. All (R x) []) xs
  All_none [] = tt
  All_none (x ∷ xs) = (tt, All_none xs)

  All_column :
      (y : B) (ys : List B) (xs : List A)
      → All (λ x. R x y) xs
      → All (λ x. All (R x) ys) xs
      → All (λ x. All (R x) (y ∷ ys)) xs
  All_column y ys [] h k = tt
  All_column y ys (x ∷ xs) h k = ((h.0, k.0), All_column y ys xs h.1 k.1)

  -- A table of facts, read by columns.
  pub All_swap :
      (xs : List A) (ys : List B) → All (λ y. All (λ x. R x y) xs) ys → All (λ x. All (R x) ys) xs
  All_swap xs [] h = All_none xs
  All_swap xs (y ∷ ys) h = All_column y ys xs h.0 (All_swap xs ys h.1)

or_true : (b : Bool) → (b || true) ≡ true
or_true b = ground arith

module _ {ℓ} {A : Type ℓ} where
  -- Updates that a test does not see.
  pub any-map :
      (f : A → A) (p : A → Bool) (xs : List A)
      → ((x : A) → p (f x) ≡ p x)
      → any p (map f xs) ≡ any p xs
  any-map f p [] h = refl
  any-map f p (x ∷ xs) h = rw (h x, any-map f p xs h)

  pub keep-map :
      (f : A → A) (p : A → Bool) (xs : List A)
      → ((x : A) → p (f x) ≡ p x)
      → keep p (map f xs) ≡ map f (keep p xs)
  keep-map f p [] h = refl
  keep-map f p (x ∷ xs) h = elim (Bool-cases (p x)) [
    | inl t ↦ rw (h x, t) (ap (◌∷◌ (f x)) (keep-map f p xs h))
    | inr n ↦ rw (h x, n) (keep-map f p xs h)
  ]

  pub any-append : (p : A → Bool) (xs ys : List A) → any p (xs ++ ys) ≡ (any p xs || any p ys)
  any-append p [] ys = refl
  any-append p (x ∷ xs) ys = ground (arith, any-append p xs ys)

  -- What holds of the kept elements, and of the others for failing the test.
  pub All_of_keep {κ} :
      (P : A → Type κ) (p : A → Bool) (xs : List A)
      → ((x : A) → p x ≡ false → P x)
      → All P (keep p xs)
      → All P xs
  All_of_keep P p [] f h = tt
  All_of_keep P p (x ∷ xs) f h = elim (Bool-cases (p x)) [
    | inl t ↦ let k : P x × All P (keep p xs) = rw t at h in (k.0, All_of_keep P p xs f k.1)
    | inr n ↦ (f x n, All_of_keep P p xs f (rw n at h))
  ]

  pub keep_none : (p : A → Bool) (xs : List A) → All (λ x. p x ≡ false) xs → keep p xs ≡ []
  keep_none p [] h = refl
  keep_none p (x ∷ xs) h = rw h.0 (keep_none p xs h.1)

  -- Each element is among the elements that a reflexive test relates it to.
  pub All_any_self :
      (r : A → A → Bool) (xs ys : List A)
      → ((x : A) → r x x ≡ true)
      → All (λ x. any (λ y. r y x) (ys ++ xs) ≡ true) xs
  All_any_self r [] ys h = tt
  All_any_self r (x ∷ xs) ys h = (
    any-append (λ y. r y x) ys (x ∷ xs) ∙ rw (h x) (or_true (any (λ y. r y x) ys)),
    subst (λ zs. All (λ z. any (λ y. r y z) zs ≡ true) xs) (append_assoc ys (x ∷ []) xs)
        (All_any_self r xs (ys ++ x ∷ []) h),
  )

  pub All_of_find-none : (p : A → Bool) (xs : List A) → find p xs ≡ none → All (λ x. p x ≡ false) xs
  All_of_find-none p [] h = tt
  All_of_find-none p (x ∷ xs) h = (ground arith, All_of_find-none p xs (ground arith))
