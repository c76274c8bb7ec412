-- ===== src/Userdata/RoundTrip.antt =====
-- What userdata_decode recovers of what encode_userdata stored, and the layout that Rust reads.
use iouring_http_server.Prelude.{ℕ, ◌/◌, ◌%◌, ◌^◌, ◌<◌, ◌≡◌, ◌↔◌, Option, none, some, arith, String}
use iouring_http_server.Layout.{Slot, size_of, slots, find_slot}
use iouring_http_server.Bindings.App.{userdata_bindgen_ty_1_bindgen_ty_1}
use iouring_http_server.Userdata.{Opcode, op_listen, opcode_value, encode_userdata, userdata_decode}

-- Whatever the padding holds, decoding gives the operation and the descriptor back, the descriptor
-- cut to 16 bits and the operation to 8.
pub decode-encode :
    (padding fd op : ℕ)
    → userdata_decode (encode_userdata padding fd op) ≡ record { fd = fd % 2 ^ 16; op = op % 2 ^ 8 }
unfolding userdata_decode encode_userdata
decode-encode padding fd op = ground arith

pub op-decode-encode :
    (padding fd : ℕ) (o : Opcode)
    → (userdata_decode (encode_userdata padding fd (opcode_value o))).op ≡ opcode_value o
unfolding userdata_decode encode_userdata
op-decode-encode padding fd op_listen = omega arith
op-decode-encode padding fd _ = omega arith

-- The descriptor survives the round trip exactly when it is below 2 ^ 16.
pub fd-decode-encode :
    (padding fd op : ℕ)
    → ((userdata_decode (encode_userdata padding fd op)).fd ≡ fd) ↔ (fd < 2 ^ 16)
unfolding userdata_decode encode_userdata
fd-decode-encode padding fd op = (λ h. omega arith, λ h. omega arith)

-- A field of a little-endian word.
pub read_slot : ℕ → Option Slot → Option ℕ
unfolding size_of
read_slot val none = none
read_slot val (some s) = some (val / 256 ^ s.offset % 256 ^ size_of s.type)

abbrev pub rust_field : String → ℕ → Option ℕ
rust_field name val = read_slot val (find_slot name (slots userdata_bindgen_ty_1_bindgen_ty_1))

-- The C union and its Rust declaration agree: the fields `fd` and `op`, at the offsets and widths that
-- the bindings give them, are what userdata_decode returns.
pub decode-eq-rust_field :
    (val : ℕ)
    → (rust_field "fd" val ≡ some (userdata_decode val).fd)
      × (rust_field "op" val ≡ some (userdata_decode val).op)
unfolding userdata_decode find_slot slots read_slot
decode-eq-rust_field val = (ground arith, ground arith)
