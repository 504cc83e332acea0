-- ===== src/Log.antt =====
-- log_lib/src/process.c: cutting what a process writes into lines.
pub mod Lines
pub mod Redir
pub mod Restore
pub mod Logger
pub mod Stop
pub mod Inputs
pub mod Counted
use smtp_course_work.Base.{
  ℕ, zero, suc, ◌+◌, ◌-◌, Bool, true, false, Option, none, some, List, [], ◌∷◌, ◌++◌, Bytes, length,
  take, c_string, ltb, ◌==◌, if◌then◌else◌,
}
use smtp_course_work.Kernel.{Call, returns, waits, RecvReply, got, eintr, eagain, broken, delivered}

-- OVERRUN
abbrev pub overrun : Bytes
overrun = b'.' ∷ b'.' ∷ b'.' ∷ []

-- `strchr(cur, '\n')`: the text to the newline, with it, and what follows
unfoldable pub cut_line : Bytes → Option (Bytes × Bytes)
cut_line [] = none
cut_line (c ∷ s) =
    let rest = cut_line s in
    if c == 10
    then some (c ∷ [], s)
    else elim rest [ none ↦ none | some (line, behind) ↦ some (c ∷ line, behind) ]

-- The loop of `process_buffer` on the C string in the buffer: the messages processed, and the string that is left
-- at the front. `got` is the `strndup`, without which a line is lost; a round of fuel is for each byte.
unfoldable pub process_lines : ℕ → (Bytes → Bool) → Bytes → List Bytes × Bytes
unfolding cut_line
process_lines zero got_copy s = ([], s)
process_lines (suc fuel) got_copy s = elim (cut_line s) [
  | none ↦ ([], s)
  | some (line, behind) ↦
      let (messages, left) = process_lines fuel got_copy behind in
      (if got_copy line then line ∷ messages else messages, left)
]

unfoldable pub process_buffer : (Bytes → Bool) → Bytes → List Bytes × Bytes
unfolding process_lines
process_buffer got_copy s = process_lines (length s) got_copy s

-- what `process_input` leaves: the messages processed, and whether it has returned
pub record Input : Type 0 where
  pub messages : List Bytes
  pub returned : Bool

-- The overrun that is reported where the buffer has no room for another byte.
unfoldable pub room_made : ℕ → Bytes → Bytes
room_made buf_size left = if (buf_size - length left - 1) == 0 then overrun else left

-- The loop of `process_input`, a round for each answer to `read`; `left` is the string in the buffer.
unfoldable pub process_input : (Bytes → Bool) → ℕ → Bytes → List RecvReply → Input
unfolding room_made process_buffer
process_input got_copy buf_size left [] = record { messages = []; returned = false }
process_input got_copy buf_size left (r ∷ rs) =
    let kept = room_made buf_size left in
    let bytes = delivered r (buf_size - length kept - 1) in
    let p = process_buffer got_copy (c_string (kept ++ bytes)) in
    let next = process_input got_copy buf_size p.1 rs in
    let again = process_input got_copy buf_size kept rs in
    elim r [
      | got bs ↦
          if length bytes == 0
          then record { messages = []; returned = true }
          else record next { messages = p.0 ++ next.messages }
      | eintr ↦ again
      | eagain ↦ record { messages = []; returned = true }
      | broken ↦ record { messages = []; returned = true }
    ]

-- What `process_nonblock` leaves: its result, the messages processed, and the string in the buffer.
pub record Nonblock : Type 0 where
  pub closing : Call Bool
  pub messages : List Bytes
  pub left : Bytes

-- A round for each answer to `read`, until the descriptor has no more or is to be closed.
unfoldable pub process_nonblock : (Bytes → Bool) → ℕ → Bytes → List RecvReply → Nonblock
unfolding room_made process_buffer
process_nonblock got_copy buf_size left [] = record { closing = waits; messages = []; left = left }
process_nonblock got_copy buf_size left (r ∷ rs) =
    let kept = room_made buf_size left in
    let bytes = delivered r (buf_size - length kept - 1) in
    let p = process_buffer got_copy (c_string (kept ++ bytes)) in
    let next = process_nonblock got_copy buf_size p.1 rs in
    let again = process_nonblock got_copy buf_size kept rs in
    elim r [
      | got bs ↦
          if length bytes == 0
          then record { closing = returns true; messages = []; left = kept }
          else record next { messages = p.0 ++ next.messages }
      | eintr ↦ again
      | eagain ↦ record { closing = returns false; messages = []; left = kept }
      | broken ↦ record { closing = returns true; messages = []; left = kept }
    ]
