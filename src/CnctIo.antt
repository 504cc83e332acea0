-- ===== src/CnctIo.antt =====
-- server_lib/src/cnct_io.c: reading commands from a connection and answering them.
pub mod Framing
pub mod Keeps
pub mod Bounds
pub mod Asked
use smtp_course_work.Base.{
  ℕ, zero, suc, ◌+◌, Bool, true, false, Option, none, some, List, [], ◌∷◌, ◌++◌, Outcome, done,
  abort, Status, success, failure, Bytes, length, c_string, ◌==◌, if◌then◌else◌,
}
use smtp_course_work.Kernel.{Call, returns, waits, aborts, RecvReply, SendReply}
use smtp_course_work.Fd.{Sent, send_all}
use smtp_course_work.Buffer.{Buffer, buffer_space, buffer_shift, buffer_find, buffer_cut}
use smtp_course_work.Telnet.{suffix, suffix_len, strip_telnet_cmd, recv_at_start}
use smtp_course_work.Cnct.{Cnct}
use smtp_course_work.Cmds.{Vdb, CmdResult, process_cmd}

-- What the two functions leave: the result (`none` is -1), the connection, the database, and the
-- bytes that went out. `returns`, `waits` and `aborts` are those of a call that may wait in `send`.
pub record Processed (S : Type 0) : Type 0 where
  pub result : Call (Option ℕ)
  pub cnct : Cnct
  pub db : S
  pub wire : Bytes

-- the connection whose `async_arg` was passed, after the command
abbrev pub arg_or : Option Cnct → Cnct → Cnct
arg_or none c = c
arg_or (some c') c = c'

-- the two sends of an answer; `none` is -1
unfoldable pub send_answer_line : List SendReply → Option Bytes → Sent (Option ℕ)
send_answer_line replies none = send_all replies suffix
send_answer_line replies (some answer) =
    let first = send_all replies answer in
    let second = send_all first.rest suffix in
    elim first.result [
      | returns none ↦ first
      | returns (some n) ↦ record second { wire = first.wire ++ second.wire }
      | other ↦ first
    ]

-- the result of `process_request`, by that of the last send
abbrev pub sent_result : Call (Option ℕ) → Call (Option ℕ)
sent_result (returns none) = returns none
sent_result (returns (some n)) = returns (some 0)
sent_result waits = waits
sent_result aborts = aborts

-- `if (process_request(...) != -1) r = 1;`
abbrev pub request_result : Call (Option ℕ) → Call (Option ℕ)
request_result (returns none) = returns none
request_result (returns (some n)) = returns (some 1)
request_result waits = waits
request_result aborts = aborts

module _ {S : Type 0} (vdb : Vdb S) where
  unfoldable pub process_request : List SendReply → Cnct → Bytes → S → Processed S
  unfolding send_answer_line
  process_request replies c request db = elim (process_cmd vdb request db (some c)) [
    | abort ↦ record { result = aborts; cnct = c; db = db; wire = [] }
    | done out ↦
        if out.to_send
        then (let sent = send_answer_line replies out.answer in
            record {
              result = sent_result sent.result;
              cnct = arg_or out.arg c;
              db = out.db;
              wire = sent.wire;
            })
        else record { result = returns (some 0); cnct = arg_or out.arg c; db = out.db; wire = [] }
  ]

  abbrev pub quit : Call (Option ℕ) → Cnct → S → Processed S
  quit result c db = record { result = result; cnct = c; db = db; wire = [] }

  -- What follows `buffer_cut`; the block is the line that was cut.
  unfoldable pub process_line : List SendReply → Cnct → S → Option Bytes → Processed S
  process_line sends c db none = quit (returns (some 0)) c db
  process_line sends c db (some block) =
      let (status, stripped) = strip_telnet_cmd block in
      let p = process_request sends c (c_string stripped) db in
      elim status [
        | failure ↦ quit (returns none) c db
        | success ↦ record p { result = request_result p.result }
      ]

  -- What follows a receive that brings bytes, with the buffer that they are in.
  unfoldable pub process_received : Bool → List SendReply → Cnct → S → Buffer → Processed S
  unfolding process_line
  process_received got_block sends c db buf = elim (buffer_find buf suffix) [
    | none ↦ quit (returns (some 0)) (record c { buf = buf }) db
    | some pos ↦
        let (line, buf') = buffer_cut got_block buf (pos + suffix_len) in
        process_line sends (record c { buf = buf' }) db line
  ]

  -- `got_block` is the `malloc` of `buffer_cut`.
  unfoldable pub process_cnct : Bool → RecvReply → List SendReply → Cnct → S → Processed S
  unfolding process_received
  process_cnct got_block reply sends c db = elim (buffer_space c.buf) [
    | abort ↦ quit aborts c db
    | done spc ↦
        if spc == 0 then quit (returns none) c db else elim (recv_at_start c.buf reply spc) [
          | abort ↦ quit aborts c db
          | done none ↦ quit (returns none) c db
          | done (some (bs, buf)) ↦
              if length bs == 0
              then quit (returns (some 0)) c db
              else process_received got_block sends c db (buffer_shift buf (length bs)).1
        ]
  ]
