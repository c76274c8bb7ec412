-- ===== src/Lib.antt =====
-- An HTTP server on io_uring: a library in C (clib), a server in C over it (cexe), and a program in
-- Rust (rexe) that calls the library through bindings that bindgen wrote.
--
-- The parts. `clib/appctx.c` keeps the context: the ring, a pool of registered buffers for log lines,
-- and two rings of provided buffers for packets. `clib/logging.c` writes a log line by taking a buffer
-- from the pool and asking the ring to write it; the line's completion brings the buffer back.
-- `clib/userdata.c` packs a descriptor, or the number of a buffer, with a tag into the 64 bits that go
-- along with each submission. `cexe/main.c` starts the server and hands each completion to its
-- handler by that tag. `rexe/src/main.rs` sets the same context up, reads standard input into a
-- buffer of the pool, and prints it.
--
-- Which file models which part:
--   Userdata (clib/userdata.h, userdata.c): `Opcode`, `Userdata`, `encode_userdata`, `userdata_decode`.
--   Pool (the pool of clib/appctx.h, appctx.c): `Bufpool`, `bufpool_of` (the value that `bufpool_init`
--     builds), `bufpool_pop`, `bufpool_put`. A pointer into `freelist_mem` or `iovecs` is an index.
--     Chain and Init describe the free list, Ownership the clients that hold buffers, Stack what the
--     pool promises them, View the free buffers as a set, Removed lists without one element.
--   Machine: the calls of liburing and of the C library, in order (`History`), their results (`Env`, a
--     parameter), the program's memory (`World`), and runs that return, exit at a failed assertion, or
--     meet undefined behaviour; also the assertion macros of clib/logging.h.
--   Logging (clib/logging.h, logging.c): `log_event`, `format_inet_addr_from_sockfd`, and the texts
--     that they build, byte by byte. Format has the conversions of `printf` that they use.
--   Appctx (clib/appctx.h, appctx.c): `bufring_init`, `bufpool_init`, `appctx_init`,
--     `appctx_handle_accept`, `appctx_handle_recvmsg`. Orderly says what a rule on the order of calls
--     has to allow, and Keeps carries such a rule through these functions.
--   Server (cexe/main.c): `handle_completion` is the switch of `run_event_loop`, `event_round` one
--     round, `start` the part of `main` before the loop. InFlight reads off the calls which buffers are
--     in a write that has not completed; Start is about `main` from its first call, Drain about a loop
--     whose log lines are written, Order about the order in which they are. Rounds carries a rule on the
--     order of the calls through the program; Served, Submissions, Visible and Placement are such rules.
--     Handover says which buffers are a ring's own. Overrun is about long packets, Refusal and Faults
--     about errors. For Placement, the last argument of `io_uring_buf_ring_add` is the offset from the
--     ring's tail, as liburing documents it.
--   Client (rexe/src/main.rs): `read_and_print` is the second `unsafe` block; Whole is about `main`.
--   Layout: `#[repr(C)]` on x86_64 Linux, bindgen's compile-time assertions, ways to have `Default`.
--   Bindings (rexe/src/bindings.rs): each type with its assertions, in Table by name; flags and codes;
--     in Foreign the types of the functions of the `extern "C"` blocks.
--   Headers (the headers of clib): the prototypes, the heads of the definitions in clib/*.c, and what
--     either is in Rust.
--   Build (rexe/build.rs): `build_main` is `main`, as a run that prints lines, calls `make` and bindgen
--     and writes a file, or panics.
--   Tests: a concrete kernel, and each result at a concrete input.
--
-- Choices. Machine integers are natural numbers with their wrap-around written out; `int` overflow in
-- `bufring_init` is undefined behaviour of the model. A result of a call may depend on all the calls
-- before it. The endless loop of the server is run for a number of rounds, which is arbitrary in every
-- statement. `decimal` has fuel for 20 digits, which is enough for 64 bits. A byte that C leaves open,
-- such as the padding of `struct userdata`, is a parameter.
--
-- Hypotheses on the outside. `Server.Loop.Honest` says that io_uring has a free submission entry
-- whenever one is asked for, that a completion tagged as the end of a log line's write names a buffer
-- whose write is outstanding, that a packet lies in a buffer of its ring, and that `getpeername` does
-- not fail: where it does, the code reads an address that was never set. `HasRoom` is the first of
-- these alone, and `HasMemory` says that `malloc` does not return NULL. The concrete
-- kernel of Tests satisfies all of them. `Client.Whole.Reads` says that a wait never fails, and that a
-- read brings at most the bytes that it was asked for.
--
-- Not modelled: the makefiles; what the functions of liburing do, of which the bindings have the types
-- alone; how bindgen comes to its output; clib/errors.h, which nothing uses; the bytes that the kernel
-- moves; threads, since the programs have one.
pub mod Prelude
pub mod Layout
pub mod Bindings
pub mod Userdata
pub mod Pool
pub mod Machine
pub mod Logging
pub mod Appctx
pub mod Server
pub mod Client
pub mod Headers
pub mod Build
pub mod Tests
