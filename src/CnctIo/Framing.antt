-- ===== src/CnctIo/Framing.antt =====
-- One call of `process_cnct` handles the first complete line, and leaves what follows it.
use smtp_course_work.Base.{
  ℕ, ◌+◌, ◌-◌, ◌≤◌, ◌<◌, ◌≡◌, refl, sym, ap, ◌∙◌, subst, true, false, Option, none, some, List, [],
  ◌∷◌, ◌++◌, Status, success, append_assoc, Bytes, length, take, drop, c_string, NoNul,
  c_string-append_nul, length-append, ◌==◌, arith, take_all, dec_lt,
}
use smtp_course_work.Buffer.{Buffer, buffer_find, buffer_shift, buffer_cut}
use smtp_course_work.Buffer.Bounds.{IsValid, buffer_space_lem}
use smtp_course_work.Buffer.Contents.{
  contents, store_at_start, contents-store-shift, buffer_cut_lem, length-contents,
}
use smtp_course_work.Buffer.Find.{Found, Occurs, buffer_find-Found}
use smtp_course_work.Kernel.{returns, SendReply, got}
use smtp_course_work.Fd.{safe_recv, received}
use smtp_course_work.Telnet.{suffix, strip_telnet_cmd}
use smtp_course_work.Telnet.Lines.{strip_telnet_cmd_lem, recv_at_start_lem, drop-length}
use smtp_course_work.Cnct.{Cnct}
use smtp_course_work.Cmds.{Vdb}
use smtp_course_work.CnctIo.{
  Processed, process_request, request_result, quit, process_line, process_received, process_cnct,
}

-- `text` begins with the line `s`, and the suffix behind it is the first one.
pub record FirstLine (text s rest : Bytes) : Type 0 where
  pub split : text ≡ s ++ (suffix ++ rest)
  pub first : (j : ℕ) → j < length s → ¬ Occurs suffix text j
  pub no_nul : NoNul s

-- The least occurrence is unique.
Found-unique :
    (string text : Bytes) (k : ℕ) (r : Option ℕ)
    → Found string text r
    → k + length string ≤ length text
    → Occurs string text k
    → ((j : ℕ) → j < k → ¬ Occurs string text j)
    → r ≡ some k
Found-unique string text k none f h o least = absurd (f k h o)
Found-unique string text k (some m) f h o least = elim (dec_lt m k) [
  | yes below ↦ absurd (least m below f.1)
  | no not_below ↦ elim (dec_lt k m) [
    | yes above ↦ absurd (f.2 k above o)
    | no not_above ↦ let e : m ≡ k = omega arith in ap some e
  ]
]

Found-none :
    (string text : Bytes) (r : Option ℕ) → Found string text r → Found string text none → r ≡ none
Found-none string text none f g = refl
Found-none string text (some k) f g = absurd (g k f.0 f.1)

module _ (text s rest : Bytes) (line : FirstLine text s rest) where
  length_text : length text ≡ length s + 2 + length rest
  length_text = ap length line.split ∙ omega (arith, length-append s (suffix ++ rest))

  Occurs-first : Occurs suffix text (length s)
  Occurs-first =
      ap (λ t. take (length suffix) (drop (length s) t)) line.split
      ∙ ap (λ t. take (length suffix) t) (drop-length s (suffix ++ rest))

  -- The search finds the end of the line.
  pub find_line :
      (b : Buffer) → IsValid b → contents b ≡ text → buffer_find b suffix ≡ some (length s)
  find_line b v e =
      Found-unique suffix text (length s) (buffer_find b suffix)
        (subst (λ t. Found suffix t (buffer_find b suffix)) e (buffer_find-Found b suffix v))
        (omega (arith, length_text)) Occurs-first line.first

append_injective :
    (xs ys zs ws : Bytes) → xs ++ ys ≡ zs ++ ws → length xs ≡ length zs → (xs ≡ zs) × (ys ≡ ws)
append_injective [] ys [] ws h e = (refl, h)
append_injective [] ys (z ∷ zs) ws h e = absurd (omega arith)
append_injective (x ∷ xs) ys [] ws h e = absurd (omega arith)
append_injective (x ∷ xs) ys (z ∷ zs) ws h e =
    let head : x ≡ z = cc in
    let tail : xs ++ ys ≡ zs ++ ws = cc in
    let ih = append_injective xs ys zs ws tail (omega arith) in (cc (head, ih.0), ih.1)

safe_recv_got :
    (x : ℕ) (bs : Bytes) (spc : ℕ)
    → length (x ∷ bs) ≤ spc
    → safe_recv (got (x ∷ bs)) spc ≡ some (x ∷ bs)
unfolding safe_recv received
safe_recv_got x bs spc h = rw (take_all spc (x ∷ bs) h) refl

module _ {S : Type 0} (vdb : Vdb S) (sends : List SendReply) (c : Cnct) (db : S) where
  -- what the connection does with a request, as `process_cnct` reports it
  abbrev pub handled : Buffer → Bytes → Processed S
  handled b' s =
      let p = process_request vdb sends (record c { buf = b' }) s db in
      record p { result = request_result p.result }

  process_line_stripped :
      (b' : Buffer) (block stripped : Bytes)
      → strip_telnet_cmd block ≡ (success, stripped)
      → process_line vdb sends (record c { buf = b' }) db (some block)
        ≡ handled b' (c_string stripped)
  unfolding process_line
  process_line_stripped b' block stripped e =
      rw (e, process_line) (ap (λ (r : Status × Bytes). handled b' (c_string r.1)) e)

  process_line_lem :
      (b' : Buffer) (s : Bytes)
      → NoNul s
      → process_line vdb sends (record c { buf = b' }) db (some ((s ++ suffix) ++ 0 ∷ []))
        ≡ handled b' s
  process_line_lem b' s h =
      process_line_stripped b' ((s ++ suffix) ++ 0 ∷ []) (s ++ 0 ∷ 10 ∷ 0 ∷ [])
        (ap strip_telnet_cmd (append_assoc s suffix (0 ∷ [])) ∙ (strip_telnet_cmd_lem s [] h).0)
      ∙ ap (λ t. handled b' t) (c_string-append_nul s (10 ∷ 0 ∷ []) h)

  process_received_line :
      (b : Buffer) (text s rest : Bytes)
      → IsValid b
      → contents b ≡ text
      → FirstLine text s rest
      → (b' : Buffer) × (contents b' ≡ rest)
        × IsValid b'
        × (process_received vdb true sends c db b ≡ handled b' s)
  unfolding process_received
  process_received_line b text s rest v e line =
      let cut =
        buffer_cut_lem b (length s + 2) v
          (omega (arith, length-contents v, ap length e, length_text text s rest line)) in
      let parts =
        append_injective cut.0 (contents (buffer_cut true b (length s + 2)).1) (s ++ suffix) rest
          (sym cut.3 ∙ e ∙ line.split ∙ sym (append_assoc s suffix rest))
          (cut.2 ∙ sym (length-append s suffix)) in
      (
        (buffer_cut true b (length s + 2)).1,
        parts.1,
        cut.4,
        rw (find_line text s rest line b v e, process_received, cut.1, parts.0)
            (process_line_lem (buffer_cut true b (length s + 2)).1 s line.no_nul),
      )

  received_eq :
      (x : ℕ) (bs : Bytes)
      → IsValid c.buf
      → length (x ∷ bs) ≤ c.buf.size - c.buf.pos
      → process_cnct vdb true (got (x ∷ bs)) sends c db
        ≡ process_received vdb true sends c db
            (buffer_shift (store_at_start c.buf (x ∷ bs)) (length (x ∷ bs))).1
  unfolding process_cnct
  received_eq x bs v h =
      let room : ((c.buf.size - c.buf.pos) == 0) ≡ false = ground arith in
      rw
        (
          buffer_space_lem v,
          process_cnct,
          room,
          recv_at_start_lem c.buf (got (x ∷ bs)) (c.buf.size - c.buf.pos) v,
          safe_recv_got x bs (c.buf.size - c.buf.pos) h,
        )
        (ground arith)

  -- When bytes that fit into a valid buffer are delivered and complete, with what it held, a line
  -- with no NUL in it, `process_cnct`, with memory for the line, handles the first such line as the
  -- request, and the buffer holds exactly the bytes behind it and is valid.
  pub process_cnct-line :
      (x : ℕ) (bs s rest : Bytes)
      → IsValid c.buf
      → length (x ∷ bs) ≤ c.buf.size - c.buf.pos
      → FirstLine (contents c.buf ++ x ∷ bs) s rest
      → (b' : Buffer) × (contents b' ≡ rest)
        × IsValid b'
        × (process_cnct vdb true (got (x ∷ bs)) sends c db ≡ handled b' s)
  process_cnct-line x bs s rest v h line =
      let st = contents-store-shift c.buf (x ∷ bs) v (omega arith) in
      let p =
        process_received_line (buffer_shift (store_at_start c.buf (x ∷ bs)) (length (x ∷ bs))).1
          (contents c.buf ++ x ∷ bs) s rest st.1 st.0 line in
      (p.0, p.1, p.2, received_eq x bs v h ∙ p.3)

  -- When bytes that fit into a valid buffer are delivered and no suffix stands in what it held and
  -- what came, `process_cnct` returns 0, sends nothing, leaves the database, and keeps the bytes.
  pub process_cnct-partial :
      (x : ℕ) (bs : Bytes)
      → IsValid c.buf
      → length (x ∷ bs) ≤ c.buf.size - c.buf.pos
      → Found suffix (contents c.buf ++ x ∷ bs) none
      → (b' : Buffer) × (contents b' ≡ contents c.buf ++ x ∷ bs)
        × IsValid b'
        × (process_cnct vdb true (got (x ∷ bs)) sends c db
            ≡ quit vdb (returns (some 0)) (record c { buf = b' }) db)
  unfolding process_received
  process_cnct-partial x bs v h absent =
      let st = contents-store-shift c.buf (x ∷ bs) v (omega arith) in
      let b' : Buffer = (buffer_shift (store_at_start c.buf (x ∷ bs)) (length (x ∷ bs))).1 in
      let miss : buffer_find b' suffix ≡ none =
        Found-none suffix (contents c.buf ++ x ∷ bs) (buffer_find b' suffix)
          (subst (λ t. Found suffix t (buffer_find b' suffix)) st.0
            (buffer_find-Found b' suffix st.1))
          absent in
      (b', st.0, st.1, received_eq x bs v h ∙ (rw (miss, process_received) refl))
