-- ===== src/Server/Handover.antt =====
-- The buffers that cexe/main.c hands to its rings, against those that the rings have.
use iouring_http_server.Prelude.{
  ℕ, zero, suc, ◌+◌, ◌*◌, ◌%◌, ◌^◌, ◌<◌, ◌≤◌, ◌≡◌, refl, some, List, ◌∷◌, [], get_elem?, arith, ap,
  ◌∙◌,
}
use iouring_http_server.Pool.{Iovec}
use iouring_http_server.Machine.{Env, History, Bufring, buf_ring_add}
use iouring_http_server.Appctx.{ring_bufs}
use iouring_http_server.Appctx.Rings.{adds}

-- A buffer of one of the rings, handed to that ring at its own address, with its own length, under its
-- own number and with the ring's own mask.
pub record OwnBuffer (env : Env) (rings : List Bufring) (br addr len bid mask : ℕ) : Type 0 where
  pub place : ℕ
  pub ring : Bufring
  pub iov : Iovec
  pub listed : get_elem? rings place ≡ some ring
  pub same_ring : br ≡ ring.br
  pub numbered : get_elem? ring.bufs bid ≡ some iov
  pub address : addr ≡ iov.iov_base
  pub size : len ≡ iov.iov_len
  pub masked : mask ≡ env.ring_mask ring.params.entries

-- Every buffer that was handed to a ring is one of its own.
unfoldable pub AllOwn : Env → List Bufring → History → Type 0
AllOwn env rings [] = Unit
AllOwn env rings (buf_ring_add br addr len bid mask offset ∷ h) =
    OwnBuffer env rings br addr len bid mask × AllOwn env rings h
AllOwn env rings (_ ∷ h) = AllOwn env rings h

get_elem?-ring_bufs :
    (base entry_size left i j : ℕ)
    → j < left
    → get_elem? (ring_bufs base entry_size left i) j
      ≡ some (record { iov_base = base + (i + j) * entry_size; iov_len = entry_size })
unfolding ring_bufs
get_elem?-ring_bufs base entry_size zero i j h = absurd (omega arith)
get_elem?-ring_bufs base entry_size (suc left) i zero h =
    ap (λ k. some (record { iov_base = base + k * entry_size; iov_len = entry_size })) {x = i}
      {y = i + 0} (omega arith)
get_elem?-ring_bufs base entry_size (suc left) i (suc j) h =
    get_elem?-ring_bufs base entry_size left (i + 1) j (omega arith)
    ∙ ap (λ k. some (record { iov_base = base + k * entry_size; iov_len = entry_size }))
        {x = i + 1 + j} {y = i + suc j} (omega arith)

-- The loop of `bufring_init`, for a ring that is one of the rings.
pub adds-AllOwn :
    (env : Env) (rings : List Bufring) (place : ℕ) (ring : Bufring) (base m : ℕ) (h : History)
    → get_elem? rings place ≡ some ring
    → ring.bufs ≡ ring_bufs base ring.params.entry_size ring.params.entries 0
    → ring.params.entries ≤ 2 ^ 16
    → m ≤ ring.params.entries
    → AllOwn env rings h
    → AllOwn env rings
        (adds ring.br (env.ring_mask ring.params.entries) base ring.params.entry_size m h)
unfolding AllOwn
adds-AllOwn env rings place ring base zero h listed bufs small fits v = v
adds-AllOwn env rings place ring base (suc m) h listed bufs small fits v =
    let number : m % 2 ^ 16 ≡ m = omega arith in
    (
      record {
        place = place;
        ring = ring;
        iov = record {
          iov_base = base + m * ring.params.entry_size;
          iov_len = ring.params.entry_size;
        };
        listed = listed;
        same_ring = refl;
        numbered =
            rw (number, bufs)
              (get_elem?-ring_bufs base ring.params.entry_size ring.params.entries 0 m (omega arith)
                ∙ ap
                    (λ k. some (record {
                      iov_base = base + k * ring.params.entry_size;
                      iov_len = ring.params.entry_size;
                    }))
                    {x = 0 + m} {y = m} (omega arith));
        address = refl;
        size = refl;
        masked = refl;
      },
      adds-AllOwn env rings place ring base m h listed bufs small (omega arith) v,
    )
