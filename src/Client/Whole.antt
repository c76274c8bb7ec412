-- ===== src/Client/Whole.antt =====
-- rexe/src/main.rs from its first call on.
use iouring_http_server.Prelude.{
  ◌≤◌, ℕ, ◌<◌, ◌≡◌, refl, some, [], ◌∷◌, ◌++◌, true, false, ◌⊎◌, inl, inr, arith,
}
use iouring_http_server.Prelude.Int.{pos, is_negative}
use iouring_http_server.Pool.Ownership.{Owned, pop-Owned}
use iouring_http_server.Machine.{
  Text, Sqe, Env, World, History, get_sqe, prep_read_fixed, println, submit, wait_cqe, cqe_seen,
}
use iouring_http_server.Machine.Laws.{Ends, Ends-bind, Ends-weaken}
use iouring_http_server.Logging.Format.{codes}
use iouring_http_server.Logging.{logging_bufsize, buffer_of}
use iouring_http_server.Logging.Event.{buffer_of-Owned}
use iouring_http_server.Server.Setup.{StartFailed, HasMemory, HasRoom, appctx_init-Ends}
use iouring_http_server.Client.{client_params, read_and_print, main}
use iouring_http_server.Client.Reading.{
  not_text as text_is_not, unprinted as line_is_not, read_and_print-Ends,
}

-- A wait never fails, and a read neither fails nor brings more bytes than it was asked for.
pub record Reads (env : Env) : Type 0 where
  pub waits : (h : History) → is_negative (env.status (wait_cqe ∷ h)) ≡ false
  pub completes : (h : History) → (len : ℕ) × ((env.cqe h).res ≡ pos len) × (len ≤ logging_bufsize)

-- The calls of a read into the buffer `bid` at `addr` that has brought `len` bytes, and of their print.
abbrev pub reading : Sqe → (addr bid : ℕ) → History → History
reading sqe addr bid h =
    cqe_seen ∷ wait_cqe ∷ submit ∷ prep_read_fixed sqe 0 addr logging_bufsize 0 bid ∷ get_sqe ∷ h

pub record Printed (env : Env) (w : World) : Type 0 where
  pub before : History
  pub sqe : Sqe
  pub addr : ℕ
  pub bid : ℕ
  pub len : ℕ
  pub below : bid < 16
  pub buffer : buffer_of w.appctx.bufpool bid ≡ some (addr, bid)
  pub entry : env.sqe (get_sqe ∷ before) ≡ some sqe
  pub completed : (env.cqe (reading sqe addr bid before)).res ≡ pos len
  pub within : len ≤ logging_bufsize
  pub text : env.is_utf8 (env.memory (reading sqe addr bid before) addr len) ≡ true
  pub calls :
      w.history
      ≡ println (codes "User entered: " ++ env.memory (reading sqe addr bid before) addr len)
        ∷ reading sqe addr bid before

-- Why the program may panic, as the world shows that it panics in: what it read is not UTF-8, or it
-- cannot write its output.
pub data Panics (env : Env) (w : World) : Type 0 where
  not_text :
      (sqe : Sqe) (addr bid len : ℕ) (h : History)
      → w.history ≡ reading sqe addr bid h
      → (env.cqe (reading sqe addr bid h)).res ≡ pos len
      → env.is_utf8 (env.memory (reading sqe addr bid h) addr len) ≡ false
      → Panics env w
  unprinted :
      (line : Text) (h : History)
      → w.history ≡ println line ∷ h
      → env.can_print (println line ∷ h) ≡ false
      → Panics env w

module _ (env : Env) (memory : HasMemory env) (room : HasRoom env) (reads : Reads env) where
  second_block-Ends :
      (w : World)
      → Owned 16 w.appctx.bufpool []
      → Ends (λ _ w'. Printed env w') (Panics env) (read_and_print env w)
  second_block-Ends w v = elim (pop-Owned 16 w.appctx.bufpool [] v) [
    | inl (e, all) ↦ let held : 0 ≡ 1 = all 0 in absurd (omega (arith, held))
    | inr (x, q, e, below, fresh, owned) ↦
        let (addr, eb) = buffer_of-Owned 16 q (x ∷ []) x owned below in
        let (sqe, es) = room (get_sqe ∷ w.history) in
        let fine =
          reads.waits
            (submit ∷ prep_read_fixed sqe 0 addr logging_bufsize 0 x ∷ get_sqe ∷ w.history) in
        let (len, res, within) = reads.completes (reading sqe addr x w.history) in
        Ends-weaken (read_and_print-Ends env w q sqe x addr x es e eb len fine res (ground arith))
          (λ u w' s. record {
            before = w.history;
            sqe = sqe;
            addr = addr;
            bid = x;
            len = len;
            below = below;
            buffer = rw s.result eb;
            entry = es;
            completed = res;
            within = within;
            text = s.text;
            calls = rw s.result refl;
          })
          (λ w' p. elim p [
            | text_is_not e other ↦ not_text sqe addr x len w.history e res other
            | line_is_not e lost ↦ unprinted _ _ e lost
          ])
  ]

  -- The whole program, where `malloc` gives memory, there is always a free entry, a wait never fails,
  -- and a read neither fails nor brings more bytes than it was asked for: it never meets undefined
  -- behaviour; it ends early only for a reason that `StartFailed` or `Panics` lists; else it has read
  -- standard input into one of the sixteen registered buffers, and printed as many bytes of that
  -- buffer as the completion says. The result is read after the completion is marked as seen.
  pub main-Ends :
      (w : World)
      → Ends (λ _ w'. Printed env w') (λ w'. StartFailed env w' ⊎ Panics env w') (main env w)
  unfolding main
  main-Ends w =
      Ends-bind
        (Ends-weaken (appctx_init-Ends env memory client_params w) (λ a w' p. p) (λ w' q. inl q))
        λ self w1 (quiet, owned, conn, handed).
          Ends-weaken (second_block-Ends (record w1 { appctx = self }) owned) (λ u w' p. p)
            (λ w' q. inr q)
