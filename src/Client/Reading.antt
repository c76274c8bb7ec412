-- ===== src/Client/Reading.antt =====
-- What rexe/src/main.rs prints.
use iouring_http_server.Prelude.{
  Bool-cases, Bool, ◌⊎◌, ◌↔◌, false, leb, inl, inr, ◌≢◌, ℕ, ◌≡◌, refl, some, ◌∷◌, ◌++◌, true, false,
}
use iouring_http_server.Prelude.Int.{ℤ, pos, negsuc, is_negative}
use iouring_http_server.Pool.{Bufpool, bufpool_pop}
use iouring_http_server.Machine.{
  Text, Sqe, Env, World, History, undefined, get_sqe, prep_read_fixed, println, submit, wait_cqe,
  cqe_seen,
}
use iouring_http_server.Machine.Laws.{Ends, returns, aborts, Ends-defined}
use iouring_http_server.Logging.Format.{codes}
use iouring_http_server.Logging.{logging_bufsize, pop_buffer, buffer_of}
use iouring_http_server.Client.{read_and_print, as_slice_len}

-- May a slice of the buffer have the length that the result is cast to?
abbrev pub is_slice : ℤ → Bool
is_slice (pos n) = leb n logging_bufsize
is_slice (negsuc n) = false

module _ (env : Env) (w : World) (q : Bufpool) (sqe : Sqe) (regbuf addr bid : ℕ)
    (entry : env.sqe (get_sqe ∷ w.history) ≡ some sqe)
    (popped : bufpool_pop w.appctx.bufpool ≡ some (some regbuf, q))
    (buffer : buffer_of q regbuf ≡ some (addr, bid)) where
  abbrev pub waited : History
  waited =
      wait_cqe ∷ submit ∷ prep_read_fixed sqe 0 addr logging_bufsize 0 bid ∷ get_sqe ∷ w.history

  abbrev pub entered : ℕ → Text
  entered len = env.memory (cqe_seen ∷ waited) addr len

  abbrev pub result : ℤ
  result = (env.cqe (cqe_seen ∷ waited)).res

  abbrev pub printing : ℕ → History
  printing len = println (codes "User entered: " ++ entered len) ∷ cqe_seen ∷ waited

  -- Why the block may panic: what was read is not UTF-8, or the output cannot be written.
  pub data Panicked (len : ℕ) (w' : World) : Type 0 where
    not_text : w'.history ≡ cqe_seen ∷ waited → env.is_utf8 (entered len) ≡ false → Panicked len w'
    unprinted : w'.history ≡ printing len → env.can_print (printing len) ≡ false → Panicked len w'

  pub record Shown (len : ℕ) (u : Unit {0}) (w' : World) : Type 0 where
    pub text : env.is_utf8 (entered len) ≡ true
    pub printed : env.can_print (printing len) ≡ true
    pub result : w' ≡ record w { appctx = record w.appctx { bufpool = q }; history = printing len }

  -- With a wait that does not fail, and a result between 0 and the size of the buffer.
  pub read_and_print-Ends :
      (len : ℕ)
      → is_negative (env.status waited) ≡ false
      → (env.cqe (cqe_seen ∷ waited)).res ≡ pos len
      → leb len logging_bufsize ≡ true
      → Ends (Shown len) (Panicked len) (read_and_print env w)
  unfolding read_and_print as_slice_len
  read_and_print-Ends len fine res fits = elim (Bool-cases (env.is_utf8 (entered len))) [
    | inl text ↦ elim (Bool-cases (env.can_print (printing len))) [
      | inl shown ↦
          rw (entry, popped, pop_buffer)
            (rw buffer (
              rw (fine, res)
                (rw fits (
                  rw text (
                    rw shown (returns (record { text = text; printed = shown; result = refl })))))))
      | inr lost ↦
          rw (entry, popped, pop_buffer)
            (rw buffer
              (rw (fine, res) (rw fits (rw text (rw lost (aborts (unprinted refl lost)))))))
    ]
    | inr other ↦
        rw (entry, popped, pop_buffer)
          (rw buffer (rw (fine, res) (rw fits (rw other (aborts (not_text refl other))))))
  ]

  out_of_range :
      (res : ℤ)
      → is_negative (env.status waited) ≡ false
      → (env.cqe (cqe_seen ∷ waited)).res ≡ res
      → is_slice res ≡ false
      → read_and_print env w ≡ undefined
  unfolding read_and_print as_slice_len
  out_of_range (pos n) fine res outside =
      rw (entry, popped, pop_buffer) (rw buffer (rw (fine, res) (rw outside refl)))
  out_of_range (negsuc n) fine res outside =
      rw (entry, popped, pop_buffer) (rw buffer (rw (fine, res) refl))

  wait_failed : is_negative (env.status waited) ≡ true → read_and_print env w ≡ undefined
  unfolding read_and_print
  wait_failed bad = rw (entry, popped, pop_buffer) (rw buffer (rw bad refl))

  inside :
      (res : ℤ)
      → is_negative (env.status waited) ≡ false
      → (env.cqe (cqe_seen ∷ waited)).res ≡ res
      → is_slice res ≡ true
      → read_and_print env w ≢ undefined
  inside (pos n) fine res within e = Ends-defined (read_and_print-Ends n fine res within) e
  inside (negsuc n) fine res within e = cc

  -- With an entry of the ring and a buffer of the pool, the second block of `main` meets undefined
  -- behaviour exactly where the wait fails, or the completion's result, which is not tested, is
  -- negative or larger than the buffer.
  pub read_and_print-undefined : (read_and_print env w ≡ undefined) ↔ (
      (is_negative (env.status waited) ≡ true)
      ⊎ (is_slice (env.cqe (cqe_seen ∷ waited)).res ≡ false))
  read_and_print-undefined = (
    λ e. elim (Bool-cases (is_negative (env.status waited))) [
      | inl bad ↦ inl bad
      | inr fine ↦ elim (Bool-cases (is_slice (env.cqe (cqe_seen ∷ waited)).res)) [
        | inl within ↦ absurd (inside _ fine refl within e)
        | inr outside ↦ inr outside
      ]
    ],
    λ wrong. elim wrong [
      | inl bad ↦ wait_failed bad
      | inr outside ↦ elim (Bool-cases (is_negative (env.status waited))) [
        | inl bad ↦ wait_failed bad
        | inr fine ↦ out_of_range _ fine refl outside
      ]
    ],
  )
