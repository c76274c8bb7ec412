-- ===== src/Tests/Texts.antt =====
-- `user_data` and the texts of the log at concrete inputs.
use iouring_http_server.Prelude.{◌+◌, ◌^◌, ◌<◌, ◌≤◌, ◌≡◌, ◌↔◌, refl, some, ◌++◌, arith, length}
use iouring_http_server.Userdata.{encode_userdata, userdata_decode}
use iouring_http_server.Userdata.RoundTrip.{
  rust_field, decode-encode, fd-decode-encode, decode-eq-rust_field,
}
use iouring_http_server.Logging.Format.{codes, decimal, cut}
use iouring_http_server.Logging.{
  log_level_info, log_line, timestamp, logging_bufsize, fmt_addrlen, format_inet_addr,
}
use iouring_http_server.Logging.Length.{line_fits, format_inet_addr_fits}

decode-encode_example : userdata_decode (encode_userdata 5 70000 3) ≡ record { fd = 4464; op = 3 }
decode-encode_example = decode-encode 5 70000 3

fd-decode-encode_example :
    ((userdata_decode (encode_userdata 0 70000 3)).fd ≡ 70000) ↔ (70000 < 2 ^ 16)
fd-decode-encode_example = fd-decode-encode 0 70000 3

decode-eq-rust_field_example :
    (rust_field "fd" (2 ^ 32 + 7) ≡ some (userdata_decode (2 ^ 32 + 7)).fd)
    × (rust_field "op" (2 ^ 32 + 7) ≡ some (userdata_decode (2 ^ 32 + 7)).op)
decode-eq-rust_field_example = decode-eq-rust_field (2 ^ 32 + 7)

line_fits_example :
    (cut logging_bufsize (
        log_line log_level_info
          (timestamp (codes "2025-01-01 12:00:00") 250000)
          15
          (cut logging_bufsize (codes "ready")))
      ≡ log_line log_level_info
          (timestamp (codes "2025-01-01 12:00:00") 250000)
          15
          (cut logging_bufsize (codes "ready")))
    × (length (
          log_line log_level_info
            (timestamp (codes "2025-01-01 12:00:00") 250000)
            15
            (cut logging_bufsize (codes "ready")))
        ≤ logging_bufsize)
line_fits_example =
    line_fits log_level_info (codes "2025-01-01 12:00:00") 250000 15 (codes "ready") refl
      (omega arith) (omega arith) (omega arith)

format_inet_addr_fits_example :
    (format_inet_addr fmt_addrlen (codes "127.0.0.1") 50000
      ≡ codes "127.0.0.1" ++ (codes ":" ++ decimal 50000))
    × (length (format_inet_addr fmt_addrlen (codes "127.0.0.1") 50000) < fmt_addrlen)
format_inet_addr_fits_example =
    format_inet_addr_fits (codes "127.0.0.1") 50000 (omega arith) (omega arith)
