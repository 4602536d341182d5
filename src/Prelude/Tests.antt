-- ===== src/Prelude/Tests.antt =====
-- Boolean tests and the conditional, equality as an instance, and case lemmas.
use Prim.Native.Nat.{ℕ, compare, Ordering}
use Prim.Native.String.{String}
use mathlib.Core.Path.{◌≡◌, refl, sym}
use mathlib.Core.Logic.{◌↔◌, ◌⊎◌, inl, inr}
use mathlib.Core.Bool.{Bool, true, false}
use mathlib.Core.Option.{Option, none, some}
use native.Mathlib.Decide.{ℕ_discrete}
use native.Mathlib.Omega.{arith}
use text.Mathlib.Text.{◌==◌ as str_test}
use text.Mathlib.TextEquality.{eq_iff}

abbrev pub ltb : ℕ → ℕ → Bool
ltb a b = elim (compare a b) [ Ordering.lt ↦ true | _ ↦ false ]

abbrev pub leb : ℕ → ℕ → Bool
leb a b = elim (compare a b) [ Ordering.gt ↦ false | _ ↦ true ]

infix 1 if◌then◌else◌
abbrev pub if◌then◌else◌ {ℓ} : {A : Type ℓ} → Bool → A → A → A
if true then x else y = x
if false then x else y = y

pub Bool-cases : (b : Bool) → (b ≡ true) ⊎ (b ≡ false)
Bool-cases true = inl refl
Bool-cases false = inr refl

pub Option-cases {ℓ} : {A : Type ℓ} (o : Option A) → (o ≡ none) ⊎ ((a : A) × (o ≡ some a))
Option-cases none = inl refl
Option-cases (some a) = inr (a, refl)

-- Equality of keys: `===` on texts, identity of sockets.
pub record Eq {ℓ} (A : Type ℓ) : Type ℓ where
  pub eq_dec : Discrete A

infix 50 ◌==◌
abbrev pub ◌==◌ {ℓ} : {A : Type ℓ} ⦃e : Eq A⦄ → A → A → Bool
◌==◌ ⦃e⦄ a b = elim (e.eq_dec a b) [ yes _ ↦ true | no _ ↦ false ]

dec_of_test : (s t : String) (b : Bool) → ((b ≡ true) ↔ (s ≡ t)) → Dec (s ≡ t)
dec_of_test s t true e = yes (e.0 refl)
dec_of_test s t false e = no (λ p. cc (e.1 p))

unfoldable pub str_discrete : Discrete String
unfolding dec_of_test
str_discrete s t = dec_of_test s t (str_test s t) (eq_iff s t)

instance abbrev pub string_eq : Eq String
string_eq = record { eq_dec = str_discrete }

instance abbrev pub nat_eq : Eq ℕ
nat_eq = record { eq_dec = ℕ_discrete }

-- The test and the path that it stands for.
module _ {ℓ} {A : Type ℓ} ⦃e : Eq A⦄ where
  pub eq_of_test : (a b : A) → (a == b) ≡ true → a ≡ b
  eq_of_test a b h = ground arith

  pub test_of_eq : (a b : A) → a ≡ b → (a == b) ≡ true
  test_of_eq a b h = ground arith

  pub test_turned : (a b : A) → (a == b) ≡ false → (b == a) ≡ false
  test_turned a b h = elim (Bool-cases (b == a)) [
    | inr apart ↦ apart
    | inl same ↦ absurd (let e = test_of_eq a b (sym (eq_of_test b a same)) in cc)
  ]

  pub test_self : (a : A) → (a == a) ≡ true
  test_self a = ground arith
