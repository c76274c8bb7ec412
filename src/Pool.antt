-- ===== src/Pool.antt =====
-- The pool of registered buffers of clib/appctx.h and clib/appctx.c.
pub mod Chain
pub mod Init
pub mod Ownership
pub mod Removed
pub mod Stack
pub mod View
use iouring_http_server.Prelude.{
  ℕ, zero, suc, ◌+◌, ◌*◌, ◌%◌, ◌^◌, Option, none, some, List, [], ◌∷◌, get_elem?, set,
}

-- `struct iovec`.
pub record Iovec : Type 0 where
  pub iov_base : ℕ
  pub iov_len : ℕ

-- `struct bufpool_freebuf_t`. A pointer to one of these is its index in `freelist_mem`, and `none` is
-- NULL; `iov` is an index in `iovecs`.
pub record Freebuf : Type 0 where
  pub bid : ℕ
  pub iov : ℕ
  pub next : Option ℕ

-- `struct bufpool_t`.
pub record Bufpool : Type 0 where
  pub buf : ℕ
  pub iovecs : List Iovec
  pub freelist_mem : List Freebuf
  pub freelist_head : Option ℕ

-- The loop of `bufpool_init` from `i` on, with `left` rounds to go: the parts of the two arrays that
-- it writes and the last value of `freelist_head`.
unfoldable pub init_loop :
    ℕ
    → ℕ
    → ℕ
    → ℕ
    → Option ℕ
    → record { iovecs : List Iovec; freebs : List Freebuf; head : Option ℕ }
init_loop buf buf_size zero i freelist_head = record {
  iovecs = [];
  freebs = [];
  head = freelist_head;
}
init_loop buf buf_size (suc left) i freelist_head =
    let rest = init_loop buf buf_size left (i + 1) (some i) in
    record {
      iovecs = record { iov_base = buf + i * buf_size % 2 ^ 64; iov_len = buf_size } ∷ rest.iovecs;
      freebs = record { bid = i % 2 ^ 16; iov = i; next = freelist_head } ∷ rest.freebs;
      head = rest.head;
    }

-- `bufpool_init` once `malloc` has returned `buf`: the value that it builds before it registers the
-- buffers.
unfoldable pub bufpool_of : ℕ → ℕ → ℕ → Bufpool
unfolding init_loop
bufpool_of buf buf_size entries =
    let parts = init_loop buf buf_size entries 0 none in
    record {
      buf = buf;
      iovecs = parts.iovecs;
      freelist_mem = parts.freebs;
      freelist_head = parts.head;
    }

-- The result and the pool after it. `none` outside is undefined behaviour, a pointer out of bounds.
unfoldable pub bufpool_pop : Bufpool → Option (Option ℕ × Bufpool)
bufpool_pop self = elim self.freelist_head [
  | none ↦ some (none, self)
  | some head ↦ elim (get_elem? self.freelist_mem head) [
    | none ↦ none
    | some freebuf ↦ some (some head, record self { freelist_head = freebuf.next })
  ]
]

unfoldable pub bufpool_put : Bufpool → ℕ → Option Bufpool
bufpool_put self bid = elim (get_elem? self.freelist_mem bid) [
  | none ↦ none
  | some freebuf ↦ some (record self {
    freelist_mem = set self.freelist_mem bid (record freebuf { next = self.freelist_head });
    freelist_head = some bid;
  })
]
