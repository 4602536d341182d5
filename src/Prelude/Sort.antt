-- ===== src/Prelude/Sort.antt =====
-- `Array.prototype.sort` with the greatest key first, which keeps the order of equal keys.
use Prim.Native.Nat.{ℕ, zero, suc, ◌≤◌}
use mathlib.Core.Path.{◌≡◌, refl, ◌∙◌}
use mathlib.Core.Logic.{inl, inr}
use mathlib.Core.Bool.{Bool, ◌||◌}
use mathlib.Core.List.{List, [], ◌∷◌}
use native.Mathlib.Omega.{arith}
use backend_sketch.Prelude.Tests.{leb, if◌then◌else◌, Bool-cases}
use backend_sketch.Prelude.Lists.{take, any, All, AllPairs, All_imp}

module _ {ℓ} {A : Type ℓ} (key : A → ℕ) where
  unfoldable pub insert_desc : A → List A → List A
  insert_desc x [] = x ∷ []
  insert_desc x (y ∷ ys) = if leb (key y) (key x) then x ∷ y ∷ ys else y ∷ insert_desc x ys

  unfoldable pub sort_desc : List A → List A
  unfolding insert_desc
  sort_desc [] = []
  sort_desc (x ∷ xs) = insert_desc x (sort_desc xs)

  -- The first is at least as great as the second.
  abbrev pub Descends : A → A → Type 0
  Descends x y = key y ≤ key x

  insert_desc-All {κ} :
      (P : A → Type κ) (x : A) (ys : List A) → P x → All P ys → All P (insert_desc x ys)
  unfolding insert_desc
  insert_desc-All P x [] p h = (p, tt)
  insert_desc-All P x (y ∷ ys) p h = elim (Bool-cases (leb (key y) (key x))) [
    | inl t ↦ rw (t, insert_desc) (p, h)
    | inr f ↦ rw (f, insert_desc) (h.0, insert_desc-All P x ys p h.1)
  ]

  pub sort_desc-All {κ} : (P : A → Type κ) (xs : List A) → All P xs → All P (sort_desc xs)
  unfolding sort_desc
  sort_desc-All P [] h = tt
  sort_desc-All P (x ∷ xs) h = insert_desc-All P x (sort_desc xs) h.0 (sort_desc-All P xs h.1)

  -- What holds of the sorted list holds of the list.
  All_of_insert_desc {κ} :
      (P : A → Type κ) (x : A) (ys : List A) → All P (insert_desc x ys) → P x × All P ys
  unfolding insert_desc
  All_of_insert_desc P x [] h = (h.0, tt)
  All_of_insert_desc P x (y ∷ ys) h = elim (Bool-cases (leb (key y) (key x))) [
    | inl t ↦ rw (t, insert_desc) at h
    | inr f ↦
        let k : P y × All P (insert_desc x ys) = rw (f, insert_desc) at h in
        let r = All_of_insert_desc P x ys k.1 in (r.0, (k.0, r.1))
  ]

  pub All_of_sort_desc {κ} : (P : A → Type κ) (xs : List A) → All P (sort_desc xs) → All P xs
  unfolding sort_desc
  All_of_sort_desc P [] h = tt
  All_of_sort_desc P (x ∷ xs) h =
      let r = All_of_insert_desc P x (sort_desc xs) h in (r.0, All_of_sort_desc P xs r.1)

  insert_desc-Descends :
      (x : A) (ys : List A) → AllPairs Descends ys → AllPairs Descends (insert_desc x ys)
  unfolding insert_desc
  insert_desc-Descends x [] h = (tt, tt)
  insert_desc-Descends x (y ∷ ys) h = elim (Bool-cases (leb (key y) (key x))) [
    | inl t ↦
        rw (t, insert_desc)
          (
            (ground arith, All_imp {P = Descends y} {Q = Descends x} ys (λ z d. ground arith) h.0),
            h,
          )
    | inr f ↦
        rw (f, insert_desc)
          (insert_desc-All (Descends y) x ys (ground arith) h.0, insert_desc-Descends x ys h.1)
  ]

  pub sort_desc-Descends : (xs : List A) → AllPairs Descends (sort_desc xs)
  unfolding sort_desc
  sort_desc-Descends [] = tt
  sort_desc-Descends (x ∷ xs) = insert_desc-Descends x (sort_desc xs) (sort_desc-Descends xs)

  -- A symmetric relation between all pairs does not see the order.
  insert_desc-AllPairs {κ} :
      (R : A → A → Type κ) (x : A) (ys : List A)
      → ((a b : A) → R a b → R b a)
      → All (R x) ys
      → AllPairs R ys
      → AllPairs R (insert_desc x ys)
  unfolding insert_desc
  insert_desc-AllPairs R x [] s h k = (tt, tt)
  insert_desc-AllPairs R x (y ∷ ys) s h k = elim (Bool-cases (leb (key y) (key x))) [
    | inl t ↦ rw (t, insert_desc) (h, k)
    | inr f ↦
        rw (f, insert_desc)
          (insert_desc-All (R y) x ys (s x y h.0) k.0, insert_desc-AllPairs R x ys s h.1 k.1)
  ]

  pub sort_desc-AllPairs {κ} :
      (R : A → A → Type κ) (xs : List A)
      → ((a b : A) → R a b → R b a)
      → AllPairs R xs
      → AllPairs R (sort_desc xs)
  unfolding sort_desc
  sort_desc-AllPairs R [] s h = tt
  sort_desc-AllPairs R (x ∷ xs) s h =
      insert_desc-AllPairs R x (sort_desc xs) s (sort_desc-All (R x) xs h.0)
        (sort_desc-AllPairs R xs s h.1)

  any-insert_desc :
      (p : A → Bool) (x : A) (ys : List A) → any p (insert_desc x ys) ≡ (p x || any p ys)
  unfolding insert_desc
  any-insert_desc p x [] = refl
  any-insert_desc p x (y ∷ ys) = ground (arith, any-insert_desc p x ys)

  pub any-sort_desc : (p : A → Bool) (xs : List A) → any p (sort_desc xs) ≡ any p xs
  unfolding sort_desc
  any-sort_desc p [] = refl
  any-sort_desc p (x ∷ xs) = any-insert_desc p x (sort_desc xs) ∙ rw (any-sort_desc p xs) refl

module _ {ℓ} {A : Type ℓ} where
  pub take-All {κ} : (P : A → Type κ) (n : ℕ) (xs : List A) → All P xs → All P (take n xs)
  take-All P zero xs h = tt
  take-All P (suc n) [] h = tt
  take-All P (suc n) (x ∷ xs) h = (h.0, take-All P n xs h.1)

  pub take-AllPairs {κ} :
      (R : A → A → Type κ) (n : ℕ) (xs : List A) → AllPairs R xs → AllPairs R (take n xs)
  take-AllPairs R zero xs h = tt
  take-AllPairs R (suc n) [] h = tt
  take-AllPairs R (suc n) (x ∷ xs) h = (take-All (R x) n xs h.0, take-AllPairs R n xs h.1)
