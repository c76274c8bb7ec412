-- ===== src/Tests/Kernel.antt =====
-- A kernel for the runs of cexe/main.c: it completes the writes of log lines, the latest first, and
-- hands over a new connection, or a packet from the last
-- one that has sent none yet, when no write is left.
use iouring_http_server.Prelude.{
  Bool, subst, ◌/◌, ℕ, ◌-◌, ◌%◌, ◌^◌, ◌<◌, ◌≡◌, ◌≢◌, refl, ap, ◌∙◌, none, some, List, [], ◌∷◌,
  arith, ltb, if◌then◌else◌, true, false, Bool-cases, inl, inr, take,
}
use iouring_http_server.Prelude.Int.{pos}
use iouring_http_server.Userdata.{
  op_accept, op_recvmsg, op_write_fixed, opcode_value, encode_userdata, userdata_decode,
}
use iouring_http_server.Userdata.RoundTrip.{decode-encode}
use iouring_http_server.Pool.{Bufpool, bufpool_of, bufpool_pop}
use iouring_http_server.Pool.Ownership.{
  Owned, init-Owned, times, here, next, takes, init-Reach-Owned,
}
use iouring_http_server.Machine.{
  Env, World, History, Cqe, Bufring, BufringInitParams, prep_write_fixed, prep_recvmsg_multishot,
  prep_send_zc, wait_cqe,
}
use iouring_http_server.Logging.Format.{codes}
use iouring_http_server.Appctx.{ring_bufs}
use iouring_http_server.Pool.Removed.{removed}
use iouring_http_server.Server.InFlight.{settled, settled-other, outstanding}
use iouring_http_server.Server.Loop.{Honest, Kept}
use iouring_http_server.Server.Setup.{HasMemory}

-- A packet for descriptor 7 in the buffer 0 of the ring, or a new connection with that descriptor.
unfoldable pub arrival : Bool → Cqe
unfolding encode_userdata
arrival true = record {
  user_data = encode_userdata 0 7 (opcode_value op_recvmsg);
  res = pos 21;
  flags = 2;
}
arrival false = record {
  user_data = encode_userdata 0 3 (opcode_value op_accept);
  res = pos 7;
  flags = 0;
}

unfoldable pub completion : Bool → List ℕ → Cqe
unfolding encode_userdata
completion awaits_packet [] = arrival awaits_packet
completion awaits_packet (x ∷ xs) =
    if ltb x (2 ^ 16)
    then record {
      user_data = encode_userdata 0 x (opcode_value op_write_fixed);
      res = pos 60;
      flags = 0;
    }
    else arrival awaits_packet

-- Is there a reception that has had no packet yet?
unfoldable pub awaits : History → Bool
awaits [] = false
awaits (prep_recvmsg_multishot sqe fd ∷ h) = true
awaits (prep_send_zc sqe fd text len ∷ h) = false
awaits (_ ∷ h) = awaits h

unfoldable pub after : List ℕ → List ℕ
after [] = []
after (x ∷ xs) = if ltb x (2 ^ 16) then xs else x ∷ xs

unfoldable pub writes : History → List ℕ
unfolding after
writes [] = []
writes (prep_write_fixed sqe fd addr nbytes offset buf_index ∷ h) = buf_index ∷ writes h
writes (wait_cqe ∷ h) = after (writes h)
writes (_ ∷ h) = writes h

unfoldable pub next_completion : History → Cqe
unfolding writes completion awaits
next_completion [] = completion false []
next_completion (_ ∷ h) = completion (awaits h) (writes h)

abbrev pub kernel : Env
kernel = record {
  status = λ h. pos 0;
  address = λ h. 4096;
  sqe = λ h. some 7;
  cqe = next_completion;
  ring_mask = λ n. n - 1;
  valid = λ h. true;
  payload = λ h. codes "GET /";
  payload_length = λ h. 5;
  peer_text = λ h. codes "127.0.0.1";
  peer_port = λ h. 50000;
  local_time = λ h. codes "2025-01-01 12:00:00";
  tv_usec = λ h. 250000;
  memory = λ h addr len. take len (codes "hello world");
  is_utf8 = λ t. true;
  can_print = λ h. true;
  padding = λ h. 0;
}

-- What `user_data` says in each case.
decode-arrival :
    (c : Bool)
    → userdata_decode (arrival c).user_data
      ≡ (if c then record { fd = 7; op = 3 } else record { fd = 3; op = 2 })
unfolding arrival
decode-arrival true = decode-encode 0 7 3
decode-arrival false = decode-encode 0 3 2

pub decode-completion_small :
    (c : Bool) (x : ℕ) (xs : List ℕ)
    → ltb x (2 ^ 16) ≡ true
    → userdata_decode (completion c (x ∷ xs)).user_data ≡ record { fd = x; op = 5 }
unfolding completion
decode-completion_small c x xs small =
    let same : x % 2 ^ 16 ≡ x = ground arith in
    rw small (rw (decode-encode 0 x 5) (ap (λ z. record { fd = z; op = 5 }) same))

completion-large :
    (c : Bool) (x : ℕ) (xs : List ℕ) → ltb x (2 ^ 16) ≡ false → completion c (x ∷ xs) ≡ arrival c
unfolding completion
completion-large c x xs large = rw large refl

op-arrival : (c : Bool) → (userdata_decode (arrival c).user_data).op < 4
op-arrival true = rw (decode-arrival true) (omega arith)
op-arrival false = rw (decode-arrival false) (omega arith)

settled-arrival : (c : Bool) (xs : List ℕ) → settled (arrival c) xs ≡ xs
settled-arrival c xs = settled-other (arrival c) xs λ e. omega (arith, op-arrival c, e)

settled-large :
    (c : Bool) (x : ℕ) (xs : List ℕ)
    → ltb x (2 ^ 16) ≡ false
    → settled (completion c (x ∷ xs)) (x ∷ xs) ≡ x ∷ xs
settled-large c x xs large =
    ap (λ k. settled k (x ∷ xs)) (completion-large c x xs large) ∙ settled-arrival c (x ∷ xs)

after-large : (x : ℕ) (xs : List ℕ) → ltb x (2 ^ 16) ≡ false → x ∷ xs ≡ after (x ∷ xs)
unfolding after
after-large x xs large = rw large refl

settled-after : (c : Bool) (xs : List ℕ) → settled (completion c xs) xs ≡ after xs
unfolding settled after removed completion
settled-after c [] = settled-arrival c []
settled-after c (x ∷ xs) = elim (Bool-cases (ltb x (2 ^ 16))) [
  | inl small ↦
      let inside : x < 2 ^ 16 = ground arith in
      rw (decode-completion_small c x xs small) (ground arith)
  | inr large ↦ settled-large c x xs large ∙ after-large x xs large
]

pub outstanding-writes : (h : History) → outstanding kernel h ≡ writes h
unfolding outstanding writes next_completion awaits
outstanding-writes [] = refl
outstanding-writes (wait_cqe ∷ h) = rw (outstanding-writes h) (settled-after (awaits h) (writes h))
outstanding-writes (prep_write_fixed sqe fd addr nbytes offset buf_index ∷ h) =
    ap (λ xs. buf_index ∷ xs) (outstanding-writes h)
outstanding-writes (_ ∷ h) = outstanding-writes h

written-held :
    (c : Bool) (xs : List ℕ)
    → (userdata_decode (completion c xs).user_data).op ≡ opcode_value op_write_fixed
    → times ((userdata_decode (completion c xs).user_data).fd % 2 ^ 16) xs ≢ 0
unfolding completion
written-held c [] h = absurd (omega (arith, op-arrival c, h))
written-held c (x ∷ xs) h = elim (Bool-cases (ltb x (2 ^ 16))) [
  | inl small ↦ rw (decode-completion_small c x xs small) (ground arith)
  | inr large ↦
      let shown : (userdata_decode (arrival c).user_data).op ≡ 5 =
        subst (λ k. (userdata_decode k.user_data).op ≡ 5) (completion-large c x xs large) h in
      absurd (omega (arith, op-arrival c, shown))
]

arrival-flags : (c : Bool) → (arrival c).flags / 2 ^ 16 < 16
unfolding arrival
arrival-flags true = omega arith
arrival-flags false = omega arith

completion-flags : (c : Bool) (xs : List ℕ) → (completion c xs).flags / 2 ^ 16 < 16
unfolding completion
completion-flags c [] = arrival-flags c
completion-flags c (x ∷ xs) = elim (Bool-cases (ltb x (2 ^ 16))) [
  | inl small ↦ rw small (omega arith)
  | inr large ↦ rw large (arrival-flags c)
]

pub kernel-Honest : Honest kernel 16
unfolding next_completion awaits
kernel-Honest = record {
  named = λ fd h. refl;
  room = λ h. (7, refl);
  written = λ h op. rw (outstanding-writes h) (written-held (awaits h) (writes h) op);
  received = λ h op. completion-flags (awaits h) (writes h);
}

-- The state of a server with all buffers free.
abbrev pub full_pool : Bufpool
full_pool = bufpool_of 4096 256 16

abbrev pub conn_params : BufringInitParams
conn_params = record { entries = 16; entry_size = 1024; bgid = 0 }

abbrev pub conn_ring : Bufring
conn_ring = record { br = 8192; bufs = ring_bufs 65536 1024 16 0; params = conn_params }

abbrev pub running : World
running = record {
  appctx = record { bufpool = full_pool; bufrings = conn_ring ∷ [] };
  fmt_addr = [];
  history = [];
}

-- The memory of a program that has not begun.
abbrev pub nothing : World
nothing = record {
  appctx = record {
    bufpool = record { buf = 0; iovecs = []; freelist_mem = []; freelist_head = none };
    bufrings = [];
  };
  fmt_addr = [];
  history = [];
}

pub full_pool-Owned : Owned 16 full_pool []
full_pool-Owned = init-Owned 4096 256 16 (omega arith)

pub running-Kept : Kept kernel 16 16 running
unfolding outstanding ring_bufs
running-Kept = (full_pool-Owned, (conn_ring, refl, refl))

pub kernel-HasMemory : HasMemory kernel
kernel-HasMemory h e = absurd (omega arith)

-- The pool once its last buffer is taken.
abbrev pub one_taken : Bufpool
one_taken = record full_pool { freelist_head = some 14 }

pub takes-full_pool : bufpool_pop full_pool ≡ some (some 15, one_taken)
unfolding bufpool_pop bufpool_of
takes-full_pool = refl

pub one_taken-Owned : Owned 16 one_taken (15 ∷ [])
one_taken-Owned =
    init-Reach-Owned 4096 256 16 one_taken (15 ∷ []) (omega arith)
      (next here (takes full_pool one_taken [] 15 takes-full_pool))
