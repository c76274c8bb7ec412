-- ===== src/Pool/Removed.antt =====
-- Taking one buffer out of the list of those that clients hold, and how many they can be.
use iouring_http_server.Prelude.{
  ℕ, zero, suc, ◌≡◌, ◌≢◌, refl, ap, List, [], ◌∷◌, ◌++◌, ltb, ◌==◌, if◌then◌else◌, arith,
  Bool-cases, inl, inr, length, length-append,
}
use iouring_http_server.Pool.Ownership.{times, times-append}

-- A list less the first occurrence of a number.
unfoldable pub removed : ℕ → List ℕ → List ℕ
removed x [] = []
removed x (y ∷ ys) = if y == x then ys else y ∷ removed x ys

-- A number that occurs splits the list where `removed` takes it out.
pub removed-split :
    (x : ℕ) (held : List ℕ)
    → times x held ≢ 0
    → (before : List ℕ) × (after : List ℕ) × (held ≡ before ++ x ∷ after)
      × (removed x held ≡ before ++ after)
unfolding removed
removed-split x [] occurs = absurd (occurs refl)
removed-split x (y ∷ ys) occurs = elim (Bool-cases (y == x)) [
  | inl same ↦ let y-x : y ≡ x = ground arith in ([], ys, ap (λ z. z ∷ ys) y-x, rw same refl)
  | inr apart ↦
      let (before, after, whole, rest) = removed-split x ys (λ none_left. occurs (ground arith)) in
      (y ∷ before, after, ap (λ zs. y ∷ zs) whole, rw apart (ap (λ zs. y ∷ zs) rest))
]

-- A list that names each number below `n` once, and no other, has `n` elements.
pub length-of_times :
    (n : ℕ) (held : List ℕ)
    → ((a : ℕ) → times a held ≡ (if ltb a n then 1 else 0))
    → length held ≡ n
length-of_times zero [] once = refl
length-of_times zero (x ∷ rest) once = absurd (ground (arith, once x))
length-of_times (suc n) held once =
    let (before, after, whole, _) = removed-split n held (ground (arith, once n)) in
    let fewer : length (before ++ after) ≡ n = length-of_times n (before ++ after) λ a. ground (
      arith,
      once a,
      ap (times a) whole,
      times-append a before (n ∷ after),
      times-append a before after,
    ) in
    omega
      (arith, ap length whole, length-append before (n ∷ after), length-append before after, fewer)
