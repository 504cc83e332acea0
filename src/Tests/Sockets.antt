-- ===== src/Tests/Sockets.antt =====
-- Calls of the kernel at concrete inputs.
use smtp_course_work.Base.{◌≡◌, refl, true, false, some, List, [], ◌∷◌, arith}
use smtp_course_work.Kernel.{returns, waits, got, SendReply, took}
use smtp_course_work.Fd.{is_error, send_all, write_all, read_all, BindReplies}
use smtp_course_work.Fd.Send.{Delivers, send_all-Delivers, write_all-returns}
use smtp_course_work.Fd.Receive.{Reads, read_all-Reads, at_end, read_all-at_end}
use smtp_course_work.Log.{process_buffer}
use smtp_course_work.Log.Lines.{Splits, process_buffer-Splits}

abbrev two_sends : List SendReply
two_sends = took 1 ∷ SendReply.eintr ∷ took 5 ∷ []

send_all-Delivers_example :
    Delivers
      (97 ∷ 98 ∷ [])
      2
      (send_all two_sends (97 ∷ 98 ∷ [])).result
      (send_all two_sends (97 ∷ 98 ∷ [])).wire
send_all-Delivers_example = send_all-Delivers two_sends (97 ∷ 98 ∷ [])

write_all-returns_example : (write_all two_sends (97 ∷ 98 ∷ [])).result ≡ returns (some 2)
unfolding is_error
write_all-returns_example =
    write_all-returns two_sends (97 ∷ 98 ∷ []) (refl, (refl, (refl, tt))) (omega arith)

read_all-Reads_example :
    Reads 3 0 (read_all (got (97 ∷ []) ∷ []) 3).result (read_all (got (97 ∷ []) ∷ []) 3).stored
read_all-Reads_example = read_all-Reads (got (97 ∷ []) ∷ []) 3

read_all-at_end_example : (read_all (got (97 ∷ []) ∷ at_end 5) 3).result ≡ waits
read_all-at_end_example = read_all-at_end (97 ∷ []) 5 3 (omega arith)

abbrev no_listen : BindReplies
no_listen = record { socket = some 7; unlink = true; bind = true; listen = false }

process_buffer-Splits_example :
    Splits
      (97 ∷ 10 ∷ 98 ∷ [])
      (process_buffer (λ l. true) (97 ∷ 10 ∷ 98 ∷ [])).0
      (process_buffer (λ l. true) (97 ∷ 10 ∷ 98 ∷ [])).1
process_buffer-Splits_example = process_buffer-Splits (97 ∷ 10 ∷ 98 ∷ [])
