-- ===== src/Tests/Buffers.antt =====
-- Buffers and write buffers at concrete inputs.
use smtp_course_work.Base.{◌≡◌, refl, true, [], ◌∷◌, Bytes, arith}
use smtp_course_work.Stailq.{list_stailq}
use smtp_course_work.Kernel.{aborts, got, eintr, took}
use smtp_course_work.Buffer.{Buffer, buffer_find}
use smtp_course_work.Buffer.Bounds.{IsValid}
use smtp_course_work.Buffer.Contents.{contents}
use smtp_course_work.Buffer.Find.{Found, buffer_find-Found}
use smtp_course_work.WrBuffer.{WrBuffer}
use smtp_course_work.WrBuffer.Pending.{IsReady}
use smtp_course_work.WrBufIo.{send_wrbuffer}
use smtp_course_work.WrBufIo.Stream.{Streams, send_wrbuffer-Streams, send_wrbuffer_empty_head}
use smtp_course_work.Telnet.{suffix, recv_until}
use smtp_course_work.Telnet.Lines.{Receives, recv_until_lem}

-- "ab\r\nc" in a block of 8 bytes
abbrev sample : Buffer
sample = record {
  buf = 97 ∷ 98 ∷ 13 ∷ 10 ∷ 99 ∷ 0 ∷ 0 ∷ 0 ∷ [];
  allocated = true;
  size = 8;
  pos = 5;
}

sample-IsValid : IsValid sample
sample-IsValid = record {
  is_allocated = refl;
  block = refl;
  in_use = omega arith;
  small = omega arith;
}

buffer_find-Found_example : Found suffix (contents sample) (buffer_find sample suffix)
buffer_find-Found_example = buffer_find-Found sample suffix sample-IsValid

-- two strings wait, and one byte of the first is sent
abbrev queued : WrBuffer (list_stailq Bytes)
queued = record { queue = (97 ∷ 98 ∷ []) ∷ (13 ∷ 10 ∷ []) ∷ []; pos = 1 }

queued-IsReady : IsReady (list_stailq Bytes) queued
queued-IsReady = record { fits = (omega arith, (omega arith, tt)) }

send_wrbuffer-Streams_example :
    Streams
      (list_stailq Bytes)
      0
      queued
      (send_wrbuffer (list_stailq Bytes) (took 1 ∷ took 1 ∷ []) queued)
send_wrbuffer-Streams_example =
    send_wrbuffer-Streams (list_stailq Bytes) (took 1 ∷ took 1 ∷ []) queued queued-IsReady

abbrev empty_head : WrBuffer (list_stailq Bytes)
empty_head = record { queue = [] ∷ (13 ∷ 10 ∷ []) ∷ []; pos = 0 }

send_wrbuffer_empty_head_example :
    ((send_wrbuffer (list_stailq Bytes) (took 2 ∷ []) empty_head).result ≡ aborts)
    × ((send_wrbuffer (list_stailq Bytes) (took 2 ∷ []) empty_head).wire ≡ [])
send_wrbuffer_empty_head_example =
    send_wrbuffer_empty_head (list_stailq Bytes) (took 2 ∷ []) empty_head ((13 ∷ 10 ∷ []) ∷ []) refl

recv_until_lem_example :
    Receives
      (99 ∷ 100 ∷ [])
      sample
      (recv_until (eintr ∷ got (100 ∷ []) ∷ []) sample (99 ∷ 100 ∷ []))
recv_until_lem_example =
    recv_until_lem (eintr ∷ got (100 ∷ []) ∷ []) sample (99 ∷ 100 ∷ []) sample-IsValid
