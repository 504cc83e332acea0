-- ===== src/CnctIo/Bounds.antt =====
-- Whatever a client sends, what is received stays within the block of the buffer.
use smtp_course_work.Base.{
  ℕ, ◌+◌, ◌-◌, ◌≡◌, inl, inr, refl, sym, subst, Bool, false, Option, none, some, List, done, Bytes,
  c_string, length, ltb, ◌==◌, arith, Bool-cases, Option-cases,
}
use smtp_course_work.Kernel.{SendReply, RecvReply}
use smtp_course_work.Fd.{safe_recv}
use smtp_course_work.Buffer.{Buffer, buffer_find, buffer_cut, buffer_shift, drop_front}
use smtp_course_work.Buffer.Bounds.{IsValid, buffer_space_lem, drop_front-IsValid}
use smtp_course_work.Buffer.Contents.{store_at_start, contents-store-shift}
use smtp_course_work.Telnet.Lines.{recv_at_start_lem}
use smtp_course_work.Fd.Receive.{safe_recv_lem}
use smtp_course_work.Telnet.{suffix, suffix_len, strip_telnet_cmd}
use smtp_course_work.Cnct.{Cnct, inc_queue_cnt}
use smtp_course_work.Cmds.{Vdb}
use smtp_course_work.CnctIo.{process_line, process_received, process_cnct}
use smtp_course_work.CnctIo.Keeps.{process_request_state, Status-cases}

-- A valid buffer of the size.
abbrev pub Within : ℕ → Buffer → Type 0
Within n b = IsValid b × (b.size ≡ n)

buffer_cut-Within :
    (got_block : Bool) (b : Buffer) (len n : ℕ)
    → Within n b
    → Within n (buffer_cut got_block b len).1
unfolding buffer_cut drop_front
buffer_cut-Within got_block b len n v = elim (Bool-cases (ltb b.pos len)) [
  | inl over ↦ rw (over, buffer_cut) v
  | inr fits ↦ elim (Bool-cases got_block) [
    | inr failed ↦ rw (fits, failed, buffer_cut) v
    | inl made ↦
        rw (fits, made, buffer_cut) (drop_front-IsValid len v.0 (ground (arith, fits)), v.1)
  ]
]

inc_buf : (c c' : Cnct) → inc_queue_cnt c ≡ done c' → c'.buf ≡ c.buf
unfolding inc_queue_cnt
inc_buf c c' h = ground (arith, h)

module _ {S : Type 0} (vdb : Vdb S) (sends : List SendReply) where
  process_line_buf :
      (c : Cnct) (db : S) (line : Option Bytes)
      → (process_line vdb sends c db line).cnct.buf ≡ c.buf
  unfolding process_line
  process_line_buf c db none = refl
  process_line_buf c db (some block) = elim (Status-cases (strip_telnet_cmd block).0) [
    | inl h ↦
        rw (h, process_line)
          (process_request_state (λ d. d.buf) vdb (λ has. inc_buf) c sends
            (c_string (strip_telnet_cmd block).1) db)
    | inr h ↦ rw (h, process_line) refl
  ]

  process_received-Within :
      (got_block : Bool) (c : Cnct) (db : S) (buf : Buffer) (n : ℕ)
      → Within n buf
      → Within n (process_received vdb got_block sends c db buf).cnct.buf
  unfolding process_received
  process_received-Within got_block c db buf n v = elim (Option-cases (buffer_find buf suffix)) [
    | inl h ↦ rw (h, process_received) v
    | inr (pos, h) ↦
        let cut = buffer_cut got_block buf (pos + suffix_len) in
        rw (h, process_received)
          (subst (λ b. Within n b) (sym (process_line_buf (record c { buf = cut.1 }) db cut.0))
            (buffer_cut-Within got_block buf (pos + suffix_len) n v))
  ]

  -- what follows a receive that has succeeded
  came-Within :
      (got_block : Bool) (reply : RecvReply) (c : Cnct) (db : S) (bs : Bytes)
      → IsValid c.buf
      → ((c.buf.size - c.buf.pos) == 0) ≡ false
      → safe_recv reply (c.buf.size - c.buf.pos) ≡ some bs
      → Within c.buf.size (process_cnct vdb got_block reply sends c db).cnct.buf
  unfolding process_cnct
  came-Within got_block reply c db bs v room came =
      let spc = c.buf.size - c.buf.pos in
      let st =
        contents-store-shift c.buf bs v
          (omega (arith, (safe_recv_lem reply spc bs came).1, v.in_use)) in
      elim (Bool-cases (length bs == 0)) [
        | inl z ↦
            rw
              (buffer_space_lem v, room, recv_at_start_lem c.buf reply spc v, came, z, process_cnct)
              (v, refl)
        | inr z ↦
            rw
              (buffer_space_lem v, room, recv_at_start_lem c.buf reply spc v, came, z, process_cnct)
              (process_received-Within got_block c db
                (buffer_shift (store_at_start c.buf bs) (length bs)).1 c.buf.size (st.1, st.3))
      ]

  -- From a buffer whose position lies in its block, whatever is received, whatever the command is and whether there
  -- is memory or not, `process_cnct` leaves such a buffer, of the same size.
  pub process_cnct-Within :
      (got_block : Bool) (reply : RecvReply) (c : Cnct) (db : S)
      → IsValid c.buf
      → Within c.buf.size (process_cnct vdb got_block reply sends c db).cnct.buf
  unfolding process_cnct
  process_cnct-Within got_block reply c db v =
      let spc = c.buf.size - c.buf.pos in
      elim (Bool-cases (spc == 0)) [
        | inl z ↦ rw (buffer_space_lem v, z, process_cnct) (v, refl)
        | inr z ↦ elim (Option-cases (safe_recv reply spc)) [
          | inl e ↦
              rw (buffer_space_lem v, z, recv_at_start_lem c.buf reply spc v, e, process_cnct)
                (v, refl)
          | inr (bs, e) ↦ came-Within got_block reply c db bs v z e
        ]
      ]
