-- ===== src/Bindings/Constants.antt =====
-- The flags and operation codes of rexe/src/bindings.rs: what or-ing and testing them relies on.
use Prim.Native.Nat.{bit_and}
use iouring_http_server.Prelude.{
  ℕ, zero, suc, ◌+◌, ◌≡◌, ◌≢◌, refl, Bool, true, ◌&&◌, some, String, List, [], ◌∷◌, arith,
  get_elem?, ◌==◌,
}
use iouring_http_server.Bindings.Flags.{Constant, FlagFamily, flags, setup}

clear_of : ℕ → List Constant → Bool
clear_of v [] = true
clear_of v ((_, w) ∷ cs) = (bit_and v w == 0) && (bit_and w v == 0) && clear_of v cs

pairwise_clear : List Constant → Bool
unfolding clear_of
pairwise_clear [] = true
pairwise_clear ((_, v) ∷ cs) = clear_of v cs && pairwise_clear cs

clear_of-get :
    (v : ℕ) (cs : List Constant) (j : ℕ) (m : String) (w : ℕ)
    → clear_of v cs ≡ true
    → get_elem? cs j ≡ some (m, w)
    → (bit_and v w ≡ 0) × (bit_and w v ≡ 0)
unfolding clear_of
clear_of-get v [] j m w h e = ground arith
clear_of-get v ((k, u) ∷ cs) zero m w h e = ground arith
clear_of-get v ((k, u) ∷ cs) (suc j) m w h e = clear_of-get v cs j m w (ground arith) e

pairwise_clear-get :
    (cs : List Constant) (i j : ℕ) (n m : String) (v w : ℕ)
    → pairwise_clear cs ≡ true
    → get_elem? cs i ≡ some (n, v)
    → get_elem? cs j ≡ some (m, w)
    → i ≢ j
    → bit_and v w ≡ 0
unfolding pairwise_clear
pairwise_clear-get [] i j n m v w h e f d = ground arith
pairwise_clear-get (c ∷ cs) zero zero n m v w h e f d = absurd (d refl)
pairwise_clear-get ((k, u) ∷ cs) zero (suc j) n m v w h e f d =
    ground (arith, clear_of-get u cs j m w)
pairwise_clear-get ((k, u) ∷ cs) (suc i) zero n m v w h e f d =
    ground (arith, clear_of-get u cs i n v)
pairwise_clear-get ((k, u) ∷ cs) (suc i) (suc j) n m v w h e f d =
    pairwise_clear-get cs i j n m v w (ground arith) e f (λ s. d (omega arith))

flags-pairwise_clear : (f : FlagFamily) → pairwise_clear (flags f) ≡ true
unfolding pairwise_clear
flags-pairwise_clear setup = refl
flags-pairwise_clear _ = refl

-- Two different flags of one family have no bit in common, so each can be tested whatever else is
-- or-ed in.
pub flags_apart :
    (f : FlagFamily) (i j : ℕ) (n m : String) (v w : ℕ)
    → get_elem? (flags f) i ≡ some (n, v)
    → get_elem? (flags f) j ≡ some (m, w)
    → i ≢ j
    → bit_and v w ≡ 0
flags_apart f i j n m v w = pairwise_clear-get (flags f) i j n m v w (flags-pairwise_clear f)

numbered_from : ℕ → List Constant → Bool
numbered_from k [] = true
numbered_from k ((_, v) ∷ cs) = (v == k) && numbered_from (k + 1) cs
