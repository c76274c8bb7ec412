-- ===== src/Logging/Event.antt =====
-- What `log_event` does, on every branch.
use iouring_http_server.Prelude.{
  ℕ, ◌%◌, ◌^◌, ◌<◌, ◌≡◌, refl, sym, subst, ap, ◌∙◌, none, some, ◌⊎◌, inl, inr, List, ◌∷◌, arith,
  length, get_elem?, get_elem?-some, ltb, if◌then◌else◌, Option-cases,
}
use iouring_http_server.Userdata.{op_write_fixed, opcode_value, encode_userdata}
use iouring_http_server.Pool.{Bufpool, Freebuf, Iovec, bufpool_pop}
use iouring_http_server.Pool.Ownership.{Owned, pop-Owned, times}
use iouring_http_server.Machine.{
  Text, Sqe, History, Env, World, get_sqe, store_text, prep_write_fixed, set_data64,
}
use iouring_http_server.Machine.Laws.{Ends, returns, aborts}
use iouring_http_server.Logging.Format.{cut}
use iouring_http_server.Logging.{
  LogLevel, logging_bufsize, log_line, timestamp, pop_buffer, buffer_of, log_event,
}

buffer_of-eq :
    (p : Bufpool) (x : ℕ) (b : Freebuf) (i : Iovec)
    → get_elem? p.freelist_mem x ≡ some b
    → get_elem? p.iovecs b.iov ≡ some i
    → buffer_of p x ≡ some (i.iov_base, b.bid)
unfolding buffer_of
buffer_of-eq p x b i eb ei = rw (eb, buffer_of) (rw (ei, buffer_of))

-- With `n` buffers, each free or held, every buffer has its memory, and its number is its index.
pub buffer_of-Owned :
    (n : ℕ) (p : Bufpool) (held : List ℕ) (x : ℕ)
    → Owned n p held
    → x < n
    → (addr : ℕ) × (buffer_of p x ≡ some (addr, x))
buffer_of-Owned n p held x v h =
    let (b, eb) = get_elem?-some p.freelist_mem x (omega (arith, v.room)) in
    let (bid, iov) = v.is_pool.numbered x b eb in
    let (i, ei) = get_elem?-some p.iovecs x (omega (arith, v.buffers)) in
    (
      i.iov_base,
      buffer_of-eq p x b i eb (subst (λ z. get_elem? p.iovecs z ≡ some i) (sym iov) ei)
          ∙ ap (λ z. some (i.iov_base, z)) bid,
    )

module _ (env : Env) (level : LogLevel) (message : Text) (w : World) where
  abbrev pub event_line : ℕ → Text
  event_line bid =
      log_line level (timestamp (env.local_time w.history) (env.tv_usec w.history)) bid
        (cut logging_bufsize message)

  -- The calls of `log_event` for the buffer `x` at `addr`, up to the one for an entry.
  abbrev pub asked : ℕ → ℕ → History
  asked x addr = get_sqe ∷ store_text addr (cut logging_bufsize (event_line x)) ∷ w.history

  abbrev pub written : ℕ → ℕ → Sqe → History
  written x addr sqe =
      let prepared =
        prep_write_fixed sqe 2 addr (length (event_line x) % 2 ^ 32) 0 x ∷ asked x addr in
      set_data64 sqe (encode_userdata (env.padding prepared) x (opcode_value op_write_fixed))
      ∷ prepared

  -- What is so when `log_event` returns, and when it exits.
  pub record Logged (n : ℕ) (held : List ℕ) (u : Unit {0}) (w' : World) : Type 0 where
    pub bid : ℕ
    pub addr : ℕ
    pub sqe : Sqe
    pub fresh : times bid held ≡ 0
    pub owned : Owned n w'.appctx.bufpool (bid ∷ held)
    pub buffer : buffer_of w'.appctx.bufpool bid ≡ some (addr, bid)
    pub calls : w'.history ≡ written bid addr sqe
    pub same_rings : w'.appctx.bufrings ≡ w.appctx.bufrings
    pub same_addr : w'.fmt_addr ≡ w.fmt_addr

  abbrev pub NoBuffer : ℕ → List ℕ → World → Type 0
  NoBuffer n held w' =
      ((bufpool_pop w'.appctx.bufpool ≡ some (none, w'.appctx.bufpool))
        × ((a : ℕ) → times a held ≡ (if ltb a n then 1 else 0)))
      ⊎ (env.sqe w'.history ≡ none)

  -- With `n` buffers, each free or held, `log_event` never meets undefined behaviour. It exits only
  -- if all buffers are held, or the ring has no free entry. Else it takes a buffer that nobody
  -- held, stores the line in the memory of that buffer, and prepares a write of that memory, from
  -- that buffer, under a `user_data` that names it.
  pub log_event-Ends :
      (n : ℕ) (held : List ℕ)
      → Owned n w.appctx.bufpool held
      → Ends (Logged n held) (NoBuffer n held) (log_event env level message w)
  unfolding log_event
  log_event-Ends n held v = elim (pop-Owned n w.appctx.bufpool held v) [
    | inl (e, all) ↦ rw (e, pop_buffer) (aborts (inl (e, all)))
    | inr (x, q, e, below, fresh, owned) ↦
        let (addr, eb) = buffer_of-Owned n q (x ∷ held) x owned below in
        elim (Option-cases (env.sqe (asked x addr))) [
          | inl es ↦ rw (e, pop_buffer) (rw eb (rw es (aborts (inr es))))
          | inr (sqe, es) ↦
              rw (e, pop_buffer)
                (rw eb (
                  rw es (
                    returns (record {
                      bid = x;
                      addr = addr;
                      sqe = sqe;
                      fresh = fresh;
                      owned = owned;
                      buffer = eb;
                      calls = refl;
                      same_rings = refl;
                      same_addr = refl;
                    }))))
        ]
  ]
