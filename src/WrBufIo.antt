-- ===== src/WrBufIo.antt =====
-- server_lib/src/wrbuf_io.c: sending what a write buffer holds over a socket that does not block.
pub mod Stream
use smtp_course_work.Base.{
  ℕ, ◌+◌, Bool, true, false, Option, none, some, List, [], ◌∷◌, ◌++◌, Outcome, done, abort, Bytes,
  take, drop, ◌==◌, if◌then◌else◌,
}
use smtp_course_work.Stailq.{Stailq}
use smtp_course_work.WrBuffer.{
  WrBuffer, is_wrbuffer_empty, wrbuffer_remained, wrbuffer_start, wrbuffer_shift,
}
use smtp_course_work.Kernel.{Call, returns, waits, aborts, SendReply}
use smtp_course_work.Fd.{safe_send}

module _ (sq : Stailq Bytes) where
  -- What `send_wrbuffer` leaves; `none` is -1.
  pub record Flushed : Type 0 where
    pub result : Call (Option ℕ)
    pub buffer : WrBuffer sq
    pub wire : Bytes

  abbrev pub stop : Call (Option ℕ) → WrBuffer sq → Flushed
  stop result b = record { result = result; buffer = b; wire = [] }

  -- `wrbuffer_remained` and `wrbuffer_start`, the two calls before the send
  unfoldable pub offer : WrBuffer sq → Outcome (ℕ × Bytes × ℕ)
  offer b = elim (wrbuffer_remained sq b) [
    | abort ↦ abort
    | done to_send ↦ elim (wrbuffer_start sq b) [
      | abort ↦ abort
      | done (s, off) ↦ done (to_send, s, off)
    ]
  ]

  -- One round for each answer of the kernel; a socket that does not block answers each call.
  unfoldable pub send_rounds : List SendReply → ℕ → WrBuffer sq → Flushed
  unfolding offer
  send_rounds [] sent_total b =
      if is_wrbuffer_empty sq b
      then stop (returns (some sent_total)) b
      else elim (offer b) [ abort ↦ stop aborts b | done o ↦ stop waits b ]
  send_rounds (r ∷ rs) sent_total b =
      if is_wrbuffer_empty sq b then stop (returns (some sent_total)) b else elim (offer b) [
        | abort ↦ stop aborts b
        | done (to_send, s, off) ↦ elim (safe_send r to_send) [
          | none ↦ stop (returns none) b
          | some nsent ↦
              if nsent == 0
              then stop (returns (some sent_total)) b
              else elim (wrbuffer_shift sq b nsent) [
                | abort ↦ record { result = aborts; buffer = b; wire = take nsent (drop off s) }
                | done (freed, b') ↦
                    let next = send_rounds rs (sent_total + nsent) b' in
                    if nsent == to_send
                    then record next { wire = take nsent (drop off s) ++ next.wire }
                    else record {
                      result = returns (some (sent_total + nsent));
                      buffer = b';
                      wire = take nsent (drop off s);
                    }
              ]
        ]
      ]

  unfoldable pub send_wrbuffer : List SendReply → WrBuffer sq → Flushed
  unfolding send_rounds
  send_wrbuffer replies b = send_rounds replies 0 b
