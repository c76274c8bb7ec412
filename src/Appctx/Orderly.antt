-- ===== src/Appctx/Orderly.antt =====
-- Rules on the order of the calls that the library of clib makes: what such a rule has to allow.
use iouring_http_server.Prelude.{ℕ, Bool, true, false, some, ◌∷◌, ◌≡◌}
use iouring_http_server.Prelude.Int.{ℤ}
use iouring_http_server.Machine.{
  Text, Sqe, Call, History, Env, get_sqe, buf_ring_add, buf_ring_advance, wait_cqe, cqe_seen,
  prep_multishot_accept, prep_recvmsg_multishot, prep_send_zc, prep_write_fixed, prep_read_fixed,
  or_flags, set_buf_group, set_data64,
}
use iouring_http_server.Appctx.Rings.{adds}

-- A call that neither fills in a submission entry, nor hands a buffer to a ring, nor takes a
-- completion.
abbrev pub is_quiet : Call → Bool
is_quiet get_sqe = false
is_quiet (buf_ring_add br addr len bid mask offset) = false
is_quiet (buf_ring_advance br count) = false
is_quiet wait_cqe = false
is_quiet cqe_seen = false
is_quiet (prep_multishot_accept sqe fd) = false
is_quiet (prep_recvmsg_multishot sqe fd) = false
is_quiet (prep_send_zc sqe fd text len) = false
is_quiet (prep_write_fixed sqe fd addr nbytes offset buf_index) = false
is_quiet (prep_read_fixed sqe fd addr nbytes offset buf_index) = false
is_quiet (or_flags sqe flags) = false
is_quiet (set_buf_group sqe group) = false
is_quiet (set_data64 sqe tag) = false
is_quiet _ = true

-- A rule that allows any quiet call, the whole filling of an entry for a reception of connections or
-- for the write of a log line, and filling a ring with buffers, with the advance that shows them.
pub record Rule (env : Env) (I : History → Type 0) : Type 0 where
  pub quiet : (c : Call) (h : History) → is_quiet c ≡ true → I h → I (c ∷ h)
  pub accepting :
      (h : History) (sqe : Sqe) (fd : ℤ) (tag : ℕ)
      → env.sqe (get_sqe ∷ h) ≡ some sqe
      → I h
      → I (set_data64 sqe tag ∷ prep_multishot_accept sqe fd ∷ get_sqe ∷ h)
  pub writing :
      (h : History) (sqe : Sqe) (fd addr nbytes offset buf_index tag : ℕ)
      → env.sqe (get_sqe ∷ h) ≡ some sqe
      → I h
      → I (set_data64 sqe tag ∷ prep_write_fixed sqe fd addr nbytes offset buf_index ∷ get_sqe ∷ h)
  pub filling :
      (h : History) (br mask base entry_size entries : ℕ)
      → I h
      → I (buf_ring_advance br entries ∷ adds br mask base entry_size entries h)

-- Handing one buffer back to a ring keeps to the rule.
abbrev pub Recycles : (History → Type 0) → Type 0
Recycles I =
    (h : History) (br addr len bid mask offset : ℕ)
    → I h
    → I (buf_ring_advance br 1 ∷ buf_ring_add br addr len bid mask offset ∷ h)

-- Filling an entry for a reception from `fd` leads from one rule to another.
abbrev pub Receives : Env → ℤ → (I K : History → Type 0) → Type 0
Receives env fd I K =
    (h : History) (sqe : Sqe) (flags group tag : ℕ)
    → env.sqe (get_sqe ∷ h) ≡ some sqe
    → I h
    → K (
        set_data64 sqe tag
        ∷ set_buf_group sqe group
        ∷ or_flags sqe flags
        ∷ prep_recvmsg_multishot sqe fd
        ∷ get_sqe
        ∷ h)

-- So does filling one for an answer to `fd`.
abbrev pub Sends : Env → ℕ → (I K : History → Type 0) → Type 0
Sends env fd I K =
    (h : History) (sqe : Sqe) (text : Text) (len tag : ℕ)
    → env.sqe (get_sqe ∷ h) ≡ some sqe
    → I h
    → K (set_data64 sqe tag ∷ prep_send_zc sqe fd text len ∷ get_sqe ∷ h)
