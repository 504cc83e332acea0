-- ===== src/Fd.antt =====
-- fd_utils/src/fd_utils.c: sending, receiving and closing over the kernel's answers.
pub mod Send
pub mod Receive
pub mod Sockets
use smtp_course_work.Base.{
  ℕ, zero, suc, ◌+◌, ◌-◌, Bool, true, false, Option, none, some, List, [], ◌∷◌, ◌++◌, Bytes, length,
  take, drop, ltb, leb, ◌==◌, if◌then◌else◌, Status, success, failure,
}
use smtp_course_work.Kernel.{
  Call, returns, waits, SendReply, took, RecvReply, got, accepted, delivered,
}

-- What a sending function leaves: its result, the bytes that went out, and the answers to come.
pub record Sent (A : Type 0) : Type 0 where
  pub result : Call A
  pub wire : Bytes
  pub rest : List SendReply

-- CHECK_EINTR's test: `errno == EINTR`; -1 with any other value is an error.
unfoldable pub is_error : SendReply → Bool
is_error (took k) = false
is_error SendReply.eintr = false
is_error SendReply.eagain = true
is_error SendReply.broken = true

-- The loop of `send_all` and of `write_all`, which differ in the call alone. `none` is -1.
unfoldable pub send_loop : List SendReply → Bytes → ℕ → Sent (Option ℕ)
unfolding is_error
send_loop [] buf sent =
    if ltb sent (length buf)
    then record { result = waits; wire = []; rest = [] }
    else record { result = returns (some sent); wire = []; rest = [] }
send_loop (r ∷ rs) buf sent =
    let dsent = accepted r (length buf - sent) in
    let next = send_loop rs buf (sent + dsent) in
    if ltb sent (length buf)
    then (if is_error r
        then record { result = returns none; wire = []; rest = rs }
        else record next { wire = take dsent (drop sent buf) ++ next.wire })
    else record { result = returns (some sent); wire = []; rest = r ∷ rs }

unfoldable pub send_all : List SendReply → Bytes → Sent (Option ℕ)
unfolding send_loop
send_all replies buf = send_loop replies buf 0

unfoldable pub write_all : List SendReply → Bytes → Sent (Option ℕ)
unfolding send_loop
write_all replies buf = send_loop replies buf 0

-- `none` is -1; EINTR and EAGAIN are 0.
unfoldable pub safe_send : SendReply → ℕ → Option ℕ
safe_send (took k) len = some (accepted (took k) len)
safe_send SendReply.eintr len = some 0
safe_send SendReply.eagain len = some 0
safe_send SendReply.broken len = none

unfoldable pub received : Bytes → Option Bytes
received [] = none
received (x ∷ bs) = some (x ∷ bs)

-- The bytes stored; `none` is -1, which the end of the stream is too.
unfoldable pub safe_recv : RecvReply → ℕ → Option Bytes
unfolding received
safe_recv (got bs) len = received (delivered (got bs) len)
safe_recv RecvReply.eintr len = some []
safe_recv RecvReply.eagain len = some []
safe_recv RecvReply.broken len = none

-- What `read_all` leaves: its result, the bytes stored, and the answers to come.
pub record Read : Type 0 where
  pub result : Call (Option ℕ)
  pub stored : Bytes
  pub rest : List RecvReply

-- `while (n < len)`; at EAGAIN the loop gives up if nothing has been read, and else goes on.
unfoldable pub read_loop : List RecvReply → ℕ → ℕ → Read
read_loop [] len n =
    if ltb n len
    then record { result = waits; stored = []; rest = [] }
    else record { result = returns (some n); stored = []; rest = [] }
read_loop (r ∷ rs) len n =
    let bytes = delivered r (len - n) in
    let next = read_loop rs len (n + length bytes) in
    let again = record next { stored = bytes ++ next.stored } in
    if ltb n len
    then elim r [
      | RecvReply.got bs ↦ again
      | RecvReply.eintr ↦ again
      | RecvReply.eagain ↦
          if n == 0 then record { result = returns (some 0); stored = []; rest = rs } else again
      | RecvReply.broken ↦ record { result = returns none; stored = []; rest = rs }
    ]
    else record { result = returns (some n); stored = []; rest = r ∷ rs }

unfoldable pub read_all : List RecvReply → ℕ → Read
unfolding read_loop
read_all replies len = read_loop replies len 0

-- An answer to `close`, and to other calls that return 0 or -1.
pub data Reply : Type 0 where
  zero_reply eintr_reply error_reply : Reply

unfoldable pub safe_close : List Reply → Call Status × List Reply
safe_close [] = (waits, [])
safe_close (zero_reply ∷ rs) = (returns success, rs)
safe_close (eintr_reply ∷ rs) = safe_close rs
safe_close (error_reply ∷ rs) = (returns failure, rs)

-- The answers of the kernel to `fcntl(F_GETFL)`, where `none` is -1, and to `fcntl(F_SETFL)`.
unfoldable pub set_nonblock : Option ℕ → Bool → Status
set_nonblock none setfl = failure
set_nonblock (some cntl) true = success
set_nonblock (some cntl) false = failure

-- The answers that `create_binded_socket` meets: of `socket` the descriptor, of `unlink`, `bind`
-- and `listen` whether they succeed (for `unlink`, ENOENT does).
pub record BindReplies : Type 0 where
  pub socket : Option ℕ
  pub unlink : Bool
  pub bind : Bool
  pub listen : Bool

-- sizeof(address.sun_path)
abbrev pub sun_path_size : ℕ
sun_path_size = 108

-- The result, with the descriptors that are open when the function returns; `none` is -1.
unfoldable pub create_binded_socket : BindReplies → Bytes → Option ℕ × List ℕ
create_binded_socket k name = elim k.socket [
  | none ↦ (none, [])
  | some sock ↦
      if leb sun_path_size (length name)
      then (none, sock ∷ [])
      else (if k.unlink
          then (if k.bind
              then (if k.listen then (some sock, sock ∷ []) else (none, sock ∷ []))
              else (none, sock ∷ []))
          else (none, sock ∷ []))
]
