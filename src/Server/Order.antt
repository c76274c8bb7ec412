-- ===== src/Server/Order.antt =====
-- The order in which the writes of log lines complete, as cexe/main.c sees it.
use iouring_http_server.Prelude.{ℕ, ◌%◌, ◌^◌, ◌≡◌, refl, ◌∙◌, List, [], ◌∷◌, ◌++◌, map, arith}
use iouring_http_server.Userdata.{op_write_fixed, opcode_value, userdata_decode}
use iouring_http_server.Pool.Ownership.{Owned, times-append}
use iouring_http_server.Pool.View.{SameBuffers, free_view, Owned-SameBuffers, free_view-Owned}
use iouring_http_server.Machine.{Env, World, Cqe, ok, M, ◌>>◌, pure}
use iouring_http_server.Machine.Laws.{Ends, returns, Ends-bind, Ends-weaken, Ends-returns}
use iouring_http_server.Server.{handle_completion}
use iouring_http_server.Server.Buffers.{Returned, handle_completion-put}

-- The buffer that a completion names.
abbrev pub named : Cqe → ℕ
named cqe = (userdata_decode cqe.user_data).fd % 2 ^ 16

abbrev pub AllWrites : List Cqe → Type 0
AllWrites [] = Unit
AllWrites (cqe ∷ cqes) =
    ((userdata_decode cqe.user_data).op ≡ opcode_value op_write_fixed) × AllWrites cqes

-- The `switch` for one completion after the other.
unfoldable pub handle_all : Env → List Cqe → M (Unit {0})
handle_all env [] = pure tt
handle_all env (cqe ∷ cqes) = do handle_completion env cqe; handle_all env cqes

module _ (env : Env) (n : ℕ) (rest : List ℕ) where
  handle_all-Returned :
      (cqes : List Cqe) (w : World)
      → AllWrites cqes
      → Owned n w.appctx.bufpool (map named cqes ++ rest)
      → Ends (λ _ w'. Returned n rest w w') (λ _. ⊥) (handle_all env cqes w)
  unfolding handle_all
  handle_all-Returned [] w writes v = returns (v, refl, refl, refl)
  handle_all-Returned (cqe ∷ cqes) w writes v =
      Ends-bind (handle_completion-put env w n [] (map named cqes ++ rest) cqe v writes.0) λ u w' r.
        Ends-weaken (handle_all-Returned cqes w' writes.1 r.0)
          (λ u' w'' s. (s.0, s.1 ∙ r.1, s.2 ∙ r.2, s.3 ∙ r.3)) (λ w'' q. q)

  -- Two series of completions of writes that name the same buffers, in whatever order, all of them
  -- held, with each of the `n` buffers free or held: both are handled without an exit, no call is
  -- made, and the same buffers are free after the one as after the other.
  pub handle_all-order :
      (cqes other : List Cqe) (w : World)
      → AllWrites cqes
      → AllWrites other
      → SameBuffers (map named cqes) (map named other)
      → Owned n w.appctx.bufpool (map named cqes ++ rest)
      → (u : World) × (v : World) × (handle_all env cqes w ≡ ok tt u)
        × (handle_all env other w ≡ ok tt v)
        × (free_view u.appctx.bufpool ≡ free_view v.appctx.bufpool)
        × (u.history ≡ w.history)
        × (v.history ≡ w.history)
  handle_all-order cqes other w writes others same v =
      let same_held : SameBuffers (map named cqes ++ rest) (map named other ++ rest) = λ bid.
        omega (
          arith,
          same bid,
          times-append bid (map named cqes) rest,
          times-append bid (map named other) rest,
        ) in
      let moved = Owned-SameBuffers n w.appctx.bufpool _ _ same_held v in
      let (_, u, eu, ru) = Ends-returns (handle_all-Returned cqes w writes v) (λ w' q. q) in
      let (_, u', ev, rv) = Ends-returns (handle_all-Returned other w others moved) (λ w' q. q) in
      (u, u', eu, ev, free_view-Owned n _ _ rest ru.0 rv.0, ru.3, rv.3)
