-- ===== src/Logging/Length.antt =====
-- How long the texts of clib/logging.c get, against the buffers that they are for.
use iouring_http_server.Prelude.{
  ℕ, ◌+◌, ◌-◌, ◌/◌, ◌^◌, ◌<◌, ◌≤◌, ◌≡◌, refl, ◌++◌, arith, length, length-append, length-take,
  take_all, min, ltb, Bool-cases, inl, inr,
}
use iouring_http_server.Machine.{Text}
use iouring_http_server.Logging.Format.{
  codes, decimal, decimal3, cut, length-decimal, length-decimal3, decimal-pos,
}
use iouring_http_server.Logging.{
  LogLevel, log_level_debug, log_level_str, log_level_color, logging_bufsize, fmt_addrlen,
  format_inet_addr, timestamp, log_line,
}

pub length-log_level_str :
    (l : LogLevel) → (4 ≤ length (log_level_str l)) × (length (log_level_str l) ≤ 5)
unfolding log_level_str
length-log_level_str log_level_debug = omega arith
length-log_level_str _ = omega arith

length-log_level_color : (l : LogLevel) → length (log_level_color l) ≡ 5
unfolding log_level_color
length-log_level_color log_level_debug = refl
length-log_level_color _ = refl

length-log_line :
    (l : LogLevel) (s : Text) (bid : ℕ) (m : Text)
    → length (log_line l s bid m)
      ≡ length s + length (decimal bid) + length (log_level_str l) + length m + 17
unfolding log_line
length-log_line l s bid m = simp length-append (omega (arith, length-log_level_color l))

-- With the nineteen characters of "%Y-%m-%d %H:%M:%S" a timestamp takes 23.
pub length-timestamp :
    (local : Text) (tv_usec : ℕ)
    → length local ≡ 19
    → tv_usec < 10 ^ 6
    → length (timestamp local tv_usec) ≡ 23
unfolding timestamp
length-timestamp local tv_usec h u = elim (Bool-cases (ltb (length local) logging_bufsize)) [
  | inl fits ↦
      rw (fits, length-append local _, length-take _ (codes "." ++ decimal3 (tv_usec / 1000)))
        (omega (arith, length-decimal3 (tv_usec / 1000) (omega arith)))
  | inr not_fits ↦ absurd (ground arith)
]

module _ (level : LogLevel) (local : Text) (tv_usec bid : ℕ) (message : Text)
    (nineteen : length local ≡ 19) (micros : tv_usec < 10 ^ 6) where
  abbrev pub line : Text
  line = log_line level (timestamp local tv_usec) bid (cut logging_bufsize message)

  pub length-line :
      length line
      ≡ 23 + length (decimal bid) + length (log_level_str level) + min 255 (length message) + 17
  length-line = omega (
    arith,
    length-log_line level (timestamp local tv_usec) bid (cut logging_bufsize message),
    length-timestamp local tv_usec nineteen micros,
    length-take 255 message,
  )

  -- With a local time of 19 characters and less than a second of microseconds, a message of at most
  -- 208 bytes, logged from a buffer with a number below 100, fits: `snprintf` stores the whole line,
  -- and the number of bytes to write is at most that of the buffer.
  pub line_fits :
      length message ≤ 208
      → bid < 100
      → (cut logging_bufsize line ≡ line) × (length line ≤ logging_bufsize)
  line_fits short small =
      let bound : length line ≤ 255 =
        omega
          (arith, length-line, length-decimal bid 1 (omega arith), length-log_level_str level) in
      (take_all 255 line bound, omega arith)

  -- With a local time of 19 characters and less than a second of microseconds, a message of more than
  -- 211 bytes overruns: the line, whose length `log_event` passes as the number of bytes to write, is
  -- longer than the registered buffer, whatever the level and the buffer, while `snprintf` has stored
  -- fewer bytes than it has.
  pub line_overruns :
      211 < length message
      → (logging_bufsize < length line) × (length (cut logging_bufsize line) < logging_bufsize)
  line_overruns long =
      let bound : logging_bufsize < length line =
        omega (arith, length-line, decimal-pos bid, length-log_level_str level) in
      (bound, omega (arith, length-take 255 line))

-- The text of an IPv4 address, of at most 15 characters, and its port, below 2 ^ 16, are not cut short
-- by FMT_ADDRLEN, and leave room for the closing NUL.
pub format_inet_addr_fits :
    (ip : Text) (port : ℕ)
    → length ip ≤ 15
    → port < 2 ^ 16
    → (format_inet_addr fmt_addrlen ip port ≡ ip ++ (codes ":" ++ decimal port))
      × (length (format_inet_addr fmt_addrlen ip port) < fmt_addrlen)
unfolding format_inet_addr
format_inet_addr_fits ip port h p = elim (Bool-cases (ltb (length ip) fmt_addrlen)) [
  | inl fits ↦ rw fits (
      let whole : cut (fmt_addrlen - length ip) (codes ":" ++ decimal port)
          ≡ codes ":" ++ decimal port =
        take_all (fmt_addrlen - length ip - 1) _
          (omega (arith, length-decimal port 4 (omega arith))) in
      rw whole (refl, rw (length-append ip _) (omega (arith, length-decimal port 4 (omega arith)))))
  | inr not_fits ↦ absurd (ground arith)
]
