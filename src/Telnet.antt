-- ===== src/Telnet.antt =====
-- telnet_utils: lines that end in TELNET_SUFFIX (telnet_io.c, telnet_msg.h).
pub mod Lines
use smtp_course_work.Base.{
  ℕ, zero, suc, ◌+◌, ◌-◌, Bool, true, false, Option, none, some, List, [], ◌∷◌, ◌++◌, Outcome, done,
  abort, Status, success, failure, Bytes, length, drop, set, c_string, strlen, bytes_eq, ltb, ◌==◌,
  if◌then◌else◌,
}
use smtp_course_work.Buffer.{Buffer, buffer_start, buffer_space, buffer_shift, buffer_find}
use smtp_course_work.Buffer.Contents.{store_at_start}
use smtp_course_work.Kernel.{Call, returns, waits, aborts, RecvReply, SendReply}
use smtp_course_work.Fd.{Sent, safe_recv, send_all}

-- TELNET_SUFFIX, "\r\n"
abbrev pub suffix : Bytes
suffix = 13 ∷ 10 ∷ []

abbrev pub suffix_len : ℕ
suffix_len = 2

-- `cmd` is the block that the pointer is to, its NUL included.
unfoldable pub strip_telnet_cmd : Bytes → Status × Bytes
strip_telnet_cmd cmd =
    let len = strlen cmd in
    if ltb len suffix_len
    then (failure, cmd)
    else if bytes_eq (c_string (drop (len - suffix_len) cmd)) suffix
    then (success, set cmd (len - suffix_len) 0)
    else (failure, cmd)

-- `safe_recv(fd, buffer_start(buf), spc)`: the bytes received and the buffer that holds them, not
-- yet shifted. `none` is -1.
unfoldable pub recv_at_start : Buffer → RecvReply → ℕ → Outcome (Option (Bytes × Buffer))
recv_at_start b r spc = elim (buffer_start b) [
  | abort ↦ abort
  | done off ↦ elim (safe_recv r spc) [
    | none ↦ done none
    | some bs ↦ done (some (bs, store_at_start b bs))
  ]
]

-- What `recv_until` leaves; `none` is -1.
pub record Until : Type 0 where
  pub result : Call (Option ℕ)
  pub buffer : Buffer
  pub stream : Bytes

abbrev pub stop : Call (Option ℕ) → Buffer → Until
stop result b = record { result = result; buffer = b; stream = [] }

-- One round for each answer of the kernel.
unfoldable pub recv_until : List RecvReply → Buffer → Bytes → Until
recv_until [] b sep = elim (buffer_find b sep) [
  | some pos ↦ stop (returns (some (pos + length sep))) b
  | none ↦ elim (buffer_space b) [
    | abort ↦ stop aborts b
    | done spc ↦ if spc == 0 then stop (returns (some 0)) b else stop waits b
  ]
]
recv_until (r ∷ rs) b sep = elim (buffer_find b sep) [
  | some pos ↦ stop (returns (some (pos + length sep))) b
  | none ↦ elim (buffer_space b) [
    | abort ↦ stop aborts b
    | done spc ↦ if spc == 0 then stop (returns (some 0)) b else elim (recv_at_start b r spc) [
      | abort ↦ stop aborts b
      | done none ↦ stop (returns none) b
      | done (some (bs, b')) ↦
          let next = recv_until rs (buffer_shift b' (length bs)).1 sep in
          record next { stream = bs ++ next.stream }
    ]
  ]
]

-- `line` is NULL where it is `none`.
unfoldable pub send_wsuffix : List SendReply → Option Bytes → Bytes → Sent (Option ℕ)
send_wsuffix replies none tail = send_all replies tail
send_wsuffix replies (some line) tail =
    let first = send_all replies line in
    let second = send_all first.rest tail in
    elim first.result [
      | returns none ↦ first
      | returns (some nsent1) ↦ elim second.result [
        | returns (some nsent2) ↦ record {
          result = returns (some (nsent1 + nsent2));
          wire = first.wire ++ second.wire;
          rest = second.rest;
        }
        | other ↦ record second { result = other; wire = first.wire ++ second.wire }
      ]
      | other ↦ first
    ]
