-- ===== src/Redis/Numerals.antt =====
-- Whole numbers as texts: `String` of one, and `Number` of a text.
use Prim.Native.String
use Prim.Native.String.append
use Prim.Native.Char.{code}
use native.Mathlib.Decide.{ℕ_discrete}
use backend_sketch.Prelude.{
  ap, some_inj, ℕ, zero, suc, ◌+◌, ◌-◌, ◌*◌, ◌/◌, ◌%◌, ◌≤◌, ◌<◌, ◌≡◌, refl, String, Option, none,
  some, ◌==◌, nat_eq, if◌then◌else◌, ◌&&◌, leb, ltb, arith, Bool-cases, inl, inr,
}

unfoldable pub digit : ℕ → String
digit n =
    if n == 0
    then "0"
    else if n == 1
    then "1"
    else if n == 2
    then "2"
    else if n == 3
    then "3"
    else if n == 4
    then "4"
    else if n == 5
    then "5"
    else if n == 6
    then "6"
    else if n == 7
    then "7"
    else if n == 8
    then "8"
    else "9"

-- The digits of a number, on fuel: a number has fewer digits than its successor says.
unfoldable pub digits : (fuel : ℕ) → ℕ → String
unfolding digit
digits zero n = ""
digits (suc fuel) n =
    let rest = digits fuel (n / 10) in
    if ltb n 10 then digit n else String.◌++◌ rest (digit (n % 10))

unfoldable pub show : ℕ → String
unfolding digits
show n = digits (suc n) n

-- The number of a text of digits, `acc` before them.
unfoldable pub read_digits : ℕ → String → Option ℕ
read_digits acc String.[] = some acc
read_digits acc (String.◌∷◌ c s) =
    let rest = read_digits (acc * 10 + (code c - 48)) s in
    if leb 48 (code c) && leb (code c) 57 then rest else none

unfoldable pub number : (other : String → Option ℕ) → String → Option ℕ
unfolding read_digits
number other s = elim (read_digits 0 s) [ none ↦ other s | some n ↦ some n ]

read_digit : (acc n : ℕ) → n < 10 → read_digits acc (digit n) ≡ some (acc * 10 + n)
unfolding read_digits digit ℕ_discrete
read_digit acc zero h = refl
read_digit acc (suc zero) h = refl
read_digit acc (suc (suc zero)) h = refl
read_digit acc (suc (suc (suc zero))) h = refl
read_digit acc (suc (suc (suc (suc zero)))) h = refl
read_digit acc (suc (suc (suc (suc (suc zero))))) h = refl
read_digit acc (suc (suc (suc (suc (suc (suc zero)))))) h = refl
read_digit acc (suc (suc (suc (suc (suc (suc (suc zero))))))) h = refl
read_digit acc (suc (suc (suc (suc (suc (suc (suc (suc zero)))))))) h = refl
read_digit acc (suc (suc (suc (suc (suc (suc (suc (suc (suc zero))))))))) h = refl
read_digit acc (suc (suc (suc (suc (suc (suc (suc (suc (suc (suc n)))))))))) h =
    absurd (omega arith)

read-after :
    (acc m : ℕ) (s t : String)
    → read_digits acc s ≡ some m
    → read_digits acc (String.◌++◌ s t) ≡ read_digits m t
unfolding read_digits
read-after acc m String.[] t h = rw (append.nil t) (ap (λ a. read_digits a t) (some_inj h))
read-after acc m (String.◌∷◌ c s) t h = elim (Bool-cases (leb 48 (code c) && leb (code c) 57)) [
  | inl d ↦
      rw (append.cons c s t, d, read_digits)
        (read-after (acc * 10 + (code c - 48)) m s t (rw (d, read_digits) at h))
  | inr e ↦ absurd (cc (rw (e, read_digits) at h))
]

read-digits : (fuel n : ℕ) → n < fuel → read_digits 0 (digits fuel n) ≡ some n
unfolding digits
read-digits zero n h = absurd (omega arith)
read-digits (suc fuel) n h = elim (Bool-cases (ltb n 10)) [
  | inl few ↦
      rw (few, digits)
        (let r = read_digit 0 n (ground arith) in let e : 0 * 10 + n ≡ n = omega arith in cc)
  | inr many ↦
      let big : 10 ≤ n = ground arith in
      let e : (n / 10) * 10 + n % 10 ≡ n = omega arith in
      rw (many, digits)
        (rw
          (read-after 0 (n / 10) (digits fuel (n / 10)) (digit (n % 10))
            (read-digits fuel (n / 10) (omega arith)))
          (rw (read_digit (n / 10) (n % 10) (omega arith)) (ap some e)))
]

-- A number is what its text says.
pub number-show : (other : String → Option ℕ) (n : ℕ) → number other (show n) ≡ some n
unfolding number show
number-show other n = rw (read-digits (suc n) n (omega arith), number) refl
