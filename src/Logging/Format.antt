-- ===== src/Logging/Format.antt =====
-- The texts that the `printf` family builds for clib: decimal numbers and truncation.
use Prim.Native.Char.{code}
use native.Mathlib.Nat.{pow-suc}
use iouring_http_server.Prelude.{
  ℕ, zero, suc, ◌+◌, ◌-◌, ◌*◌, ◌/◌, ◌%◌, ◌^◌, ◌<◌, ◌≤◌, ◌≡◌, ◌∙◌, String, List, [], ◌∷◌, ◌++◌,
  arith, length, length-append, take, ltb, if◌then◌else◌, Bool-cases, inl, inr,
}
use iouring_http_server.Prelude.Int.{ℤ, pos, negsuc}

-- The bytes of an ASCII text.
abbrev pub codes : String → List ℕ
codes String.[] = []
codes (String.◌∷◌ c s) = code c ∷ codes s

digits : ℕ → ℕ → List ℕ
digits zero n = []
digits (suc fuel) n =
    let more = digits fuel (n / 10) in
    if ltb n 10 then (48 + n) ∷ [] else more ++ (48 + n % 10) ∷ []

-- `%d` of a number that is not negative; twenty digits are enough for any 64-bit number.
unfoldable pub decimal : ℕ → List ℕ
unfolding digits
decimal n = digits 20 n

-- `%d`.
unfoldable pub signed_decimal : ℤ → List ℕ
unfolding decimal
signed_decimal (pos n) = decimal n
signed_decimal (negsuc n) = 45 ∷ decimal (suc n)

-- `%03ld` of a number that is not negative.
unfoldable pub decimal3 : ℕ → List ℕ
unfolding decimal
decimal3 n =
    if ltb n 10 then 48 ∷ 48 ∷ decimal n else if ltb n 100 then 48 ∷ decimal n else decimal n

-- What `snprintf` leaves in a buffer of `size` bytes, which it returns the full length beside.
abbrev pub cut : ℕ → List ℕ → List ℕ
cut size text = take (size - 1) text

pub value_of : ℕ → List ℕ → ℕ
value_of acc [] = acc
value_of acc (c ∷ cs) = value_of (acc * 10 + (c - 48)) cs

value_of-append :
    (acc : ℕ) (xs : List ℕ) (d : ℕ) → value_of acc (xs ++ (48 + d) ∷ []) ≡ value_of acc xs * 10 + d
unfolding value_of
value_of-append acc [] d = omega arith
value_of-append acc (x ∷ xs) d = value_of-append (acc * 10 + (x - 48)) xs d

div_below : (n k : ℕ) → n < 10 ^ suc k → n / 10 < 10 ^ k
div_below n k h = omega (arith, pow-suc 10 k)

value_of-digits : (fuel n : ℕ) → n < 10 ^ fuel → value_of 0 (digits fuel n) ≡ n
unfolding digits value_of
value_of-digits zero n h = omega arith
value_of-digits (suc fuel) n h = elim (Bool-cases (ltb n 10)) [
  | inl small ↦ rw small (omega arith)
  | inr large ↦ rw large (
      value_of-append 0 (digits fuel (n / 10)) (n % 10)
      ∙ omega (arith, value_of-digits fuel (n / 10) (div_below n fuel h)))
]

-- The digits that are printed for a 64-bit number are those of the number.
pub value_of-decimal : (n : ℕ) → n < 2 ^ 64 → value_of 0 (decimal n) ≡ n
unfolding decimal
value_of-decimal n h = value_of-digits 20 n (omega arith)

length-digits : (fuel n k : ℕ) → n < 10 ^ suc k → length (digits fuel n) ≤ suc k
unfolding digits
length-digits zero n k h = omega arith
length-digits (suc fuel) n zero h = ground arith
length-digits (suc fuel) n (suc k) h = elim (Bool-cases (ltb n 10)) [
  | inl small ↦ rw small (omega arith)
  | inr large ↦ rw large (
      omega (
        arith,
        length-append (digits fuel (n / 10)) ((48 + n % 10) ∷ []),
        length-digits fuel (n / 10) k (div_below n (suc k) h),
      ))
]

pub length-decimal : (n k : ℕ) → n < 10 ^ suc k → length (decimal n) ≤ suc k
unfolding decimal
length-decimal n k h = length-digits 20 n k h

length-digits-suc :
    (fuel n : ℕ) → 10 ≤ n → length (digits (suc fuel) n) ≡ suc (length (digits fuel (n / 10)))
unfolding digits
length-digits-suc fuel n h = elim (Bool-cases (ltb n 10)) [
  | inl small ↦ absurd (ground arith)
  | inr large ↦ rw large (omega (arith, length-append (digits fuel (n / 10)) ((48 + n % 10) ∷ [])))
]

length-digits_one : (fuel n : ℕ) → n < 10 → length (digits (suc fuel) n) ≡ 1
unfolding digits
length-digits_one fuel n h = ground arith

pub length-decimal3 : (n : ℕ) → n < 1000 → length (decimal3 n) ≡ 3
unfolding decimal3
length-decimal3 n h = ground (
  arith,
  length-digits_one 19 n,
  length-digits-suc 19 n,
  length-digits_one 18 (n / 10),
  length-digits-suc 18 (n / 10),
  length-digits_one 17 (n / 10 / 10),
)

pub decimal-pos : (n : ℕ) → 1 ≤ length (decimal n)
unfolding decimal
decimal-pos n = ground (arith, length-digits_one 19 n, length-digits-suc 19 n)
