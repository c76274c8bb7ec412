-- ===== src/Tests/Buffers.antt =====
-- The pool, its clients and the rings of buffers at concrete inputs.
use iouring_http_server.Prelude.{List, ◌+◌, ◌*◌, ◌≤◌, ◌≡◌, refl, none, some, [], ◌∷◌, ◌++◌, arith}
use iouring_http_server.Pool.{Bufpool, bufpool_of, bufpool_put}
use iouring_http_server.Pool.Chain.{IsPool}
use iouring_http_server.Pool.Init.{bufpool_of-IsPool, buffers_apart}
use iouring_http_server.Pool.Stack.{
  PoolCall, pops, puts, stack_results, pool_results, pool_results-bufpool_of,
}
use iouring_http_server.Pool.Ownership.{
  Owned, PopOwned, here, next, takes, pop-Owned, put-Owned, init-Reach-Owned,
}
use iouring_http_server.Machine.{ok}
use iouring_http_server.Appctx.{ring_bufs, bufring_init}
use iouring_http_server.Appctx.Rings.{base, br, ready, bufring_init_lem}
use iouring_http_server.Tests.Kernel.{
  kernel, nothing, full_pool, full_pool-Owned, conn_params, kernel-HasMemory, one_taken,
  takes-full_pool, one_taken-Owned,
}

init-Reach-Owned_example : Owned 16 one_taken (15 ∷ [])
init-Reach-Owned_example =
    init-Reach-Owned 4096 256 16 one_taken (15 ∷ []) (omega arith)
      (next here (takes full_pool one_taken [] 15 takes-full_pool))

pop-Owned_example : PopOwned 16 full_pool []
pop-Owned_example = pop-Owned 16 full_pool [] full_pool-Owned

put-Owned_example : (q : Bufpool) × (bufpool_put one_taken 15 ≡ some q) × Owned 16 q ([] ++ [])
put-Owned_example = put-Owned 16 one_taken [] [] 15 one_taken-Owned

bufpool_of-IsPool_example : IsPool (bufpool_of 4096 256 3) (2 ∷ 1 ∷ 0 ∷ [])
bufpool_of-IsPool_example = bufpool_of-IsPool 4096 256 3 (omega arith)

buffers_apart_example : (4608 + 256 ≤ 4864) × (4864 + 256 ≤ 4096 + 16 * 256)
unfolding bufpool_of
buffers_apart_example =
    buffers_apart 4096 256 16 2 3 (record { iov_base = 4608; iov_len = 256 })
      (record { iov_base = 4864; iov_len = 256 }) (omega arith) refl refl (omega arith)

bufring_init_lem_example :
    bufring_init kernel conn_params nothing
    ≡ ok
        (record {
          br = br kernel conn_params nothing;
          bufs = ring_bufs (base kernel conn_params nothing) 1024 16 0;
          params = conn_params;
        })
        (record nothing { history = ready kernel conn_params nothing })
bufring_init_lem_example =
    bufring_init_lem kernel conn_params nothing (omega arith) (kernel-HasMemory []) refl refl

-- Take two, give the first of them back, take it again, take one more.
abbrev some_calls : List PoolCall
some_calls = pops ∷ pops ∷ puts 2 ∷ pops ∷ pops ∷ pops ∷ []

pool_results-bufpool_of_example :
    pool_results some_calls (bufpool_of 4096 256 3)
    ≡ some (some 2 ∷ some 1 ∷ some 2 ∷ some 0 ∷ none ∷ [])
unfolding stack_results
pool_results-bufpool_of_example =
    pool_results-bufpool_of 4096 256 3 some_calls (omega arith)
      (((λ e. absurd (omega arith)), tt), omega arith, tt)
