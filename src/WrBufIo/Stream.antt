-- ===== src/WrBufIo/Stream.antt =====
-- `send_wrbuffer` moves a first part of the pending bytes to the wire, and nothing else.
use smtp_course_work.Base.{
  ℕ, ◌+◌, ◌-◌, ◌≤◌, ◌≡◌, refl, sym, ap, ◌∙◌, true, false, Option, none, some, List, [], ◌∷◌, ◌++◌,
  append_assoc, arith, done, abort, Bytes, length, take, drop, length-take, length-drop,
  length-append, Bool-cases, List-cases, inl, inr, ◌==◌, dec_lt, Option-cases, if◌then◌else◌,
}
use smtp_course_work.Stailq.{Stailq, head_of}
use smtp_course_work.WrBuffer.{WrBuffer, is_wrbuffer_empty, wrbuffer_remained, wrbuffer_shift}
use smtp_course_work.WrBuffer.Pending.{
  pending, IsReady, wrbuffer_remained_lem, wrbuffer_start_lem, shift_partial, shift_whole,
}
use smtp_course_work.Kernel.{Call, returns, waits, aborts, SendReply, took, eintr, eagain, broken}
use smtp_course_work.Fd.{safe_send}
use smtp_course_work.WrBufIo.{Flushed, stop, offer, send_rounds, send_wrbuffer}

-- A count that is returned is what went out beyond the count at the start.
abbrev pub Counts : ℕ → Call (Option ℕ) → Bytes → Type 0
Counts total (returns (some n)) wire = n ≡ total + length wire
Counts total (returns none) wire = Unit
Counts total waits wire = Unit
Counts total aborts wire = ⊥

Counts-step :
    (total n : ℕ) (front wire : Bytes) (r : Call (Option ℕ))
    → length front ≡ n
    → Counts (total + n) r wire
    → Counts total r (front ++ wire)
Counts-step total n front wire (returns (some m)) e h = omega (arith, length-append front wire)
Counts-step total n front wire (returns none) e h = tt
Counts-step total n front wire waits e h = tt
Counts-step total n front wire aborts e h = h

safe_send-le : (r : SendReply) (len n : ℕ) → safe_send r len ≡ some n → n ≤ len
unfolding safe_send
safe_send-le (took k) len n h = ground arith
safe_send-le eintr len n h = ground arith
safe_send-le eagain len n h = ground arith
safe_send-le broken len n h = ground arith

module _ (sq : Stailq Bytes) where
  open sq use {view, first, remove_head, first_lem}

  -- what a run from `b` has done
  pub record Streams (total : ℕ) (b : WrBuffer sq) (f : Flushed sq) : Type 0 where
    pub prefix : pending sq b ≡ f.wire ++ pending sq f.buffer
    pub ready : IsReady sq f.buffer
    pub counts : Counts total f.result f.wire

  stop-Streams :
      (total : ℕ) (b : WrBuffer sq) (r : Call (Option ℕ))
      → IsReady sq b
      → Counts total r []
      → Streams total b (stop sq r b)
  stop-Streams total b r v c = record { prefix = refl; ready = v; counts = c }

  empty_iff : (b : WrBuffer sq) → view b.queue ≡ [] → is_wrbuffer_empty sq b ≡ true
  unfolding is_wrbuffer_empty
  empty_iff b e = rw (first_lem b.queue ∙ ap head_of e, is_wrbuffer_empty)

  not_empty :
      (b : WrBuffer sq) (s : Bytes) (r : List Bytes)
      → view b.queue ≡ s ∷ r
      → is_wrbuffer_empty sq b ≡ false
  unfolding is_wrbuffer_empty
  not_empty b s r e = rw (first_lem b.queue ∙ ap head_of e, is_wrbuffer_empty)

  offer_lem :
      (b : WrBuffer sq) (s : Bytes) (r : List Bytes)
      → view b.queue ≡ s ∷ r
      → IsReady sq b
      → offer sq b ≡ done (length s - b.pos, s, b.pos)
  unfolding offer
  offer_lem b s r e v =
      rw (wrbuffer_remained_lem sq b s r e v, wrbuffer_start_lem sq b s r e v, offer)

  offer_abort : (b : WrBuffer sq) (r : List Bytes) → view b.queue ≡ [] ∷ r → offer sq b ≡ abort
  unfolding offer wrbuffer_remained
  offer_abort b r e = rw (first_lem b.queue ∙ ap head_of e, offer, wrbuffer_remained) (ground arith)

  -- The part of a round after `nsent` bytes, some of them, have gone out.
  after_send : List SendReply → ℕ → WrBuffer sq → ℕ → ℕ → Bytes → Flushed sq
  unfolding send_rounds
  after_send rs total b to_send nsent front = elim (wrbuffer_shift sq b nsent) [
    | abort ↦ record { result = aborts; buffer = b; wire = front }
    | done (freed, b') ↦
        let next = send_rounds sq rs (total + nsent) b' in
        if nsent == to_send
        then record next { wire = front ++ next.wire }
        else record { result = returns (some (total + nsent)); buffer = b'; wire = front }
  ]

  moved :
      (rs : List SendReply) (total : ℕ) (b : WrBuffer sq) (s : Bytes) (r : List Bytes)
      → view b.queue ≡ s ∷ r
      → IsReady sq b
      → (n : ℕ) → n ≤ length s - b.pos
      → ((t : ℕ) (b' : WrBuffer sq) → IsReady sq b' → Streams t b' (send_rounds sq rs t b'))
      → Streams total b (after_send rs total b (length s - b.pos) n (take n (drop b.pos s)))
  unfolding after_send
  moved rs total b s r e v n le ih = elim (dec_lt n (length s - b.pos)) [
    | yes less ↦
        let p = shift_partial sq b s r e v n less in
        let ne : (n == (length s - b.pos)) ≡ false = ground arith in
        rw (p.0, after_send, ne)
          (record { prefix = p.1; ready = p.2; counts = omega (arith, length_front) })
    | no all ↦
        let eq : n ≡ length s - b.pos = omega arith in
        let p = shift_whole sq b s r e v n eq in
        let same : (n == (length s - b.pos)) ≡ true = ground arith in
        let b' : WrBuffer sq = record { queue = remove_head b.queue; pos = 0 } in
        let next = ih (total + n) b' p.2 in
        rw (p.0, after_send, same)
          (record {
            prefix =
                p.1
                ∙ ap (λ t. front ++ t) next.prefix
                ∙ sym (
                    append_assoc front (send_rounds sq rs (total + n) b').wire
                      (pending sq (send_rounds sq rs (total + n) b').buffer));
            ready = next.ready;
            counts =
                Counts-step total n front (send_rounds sq rs (total + n) b').wire
                  (send_rounds sq rs (total + n) b').result length_front next.counts;
          })
  ]
    where
      front : Bytes
      front = take n (drop b.pos s)

      length_front : length front ≡ n
      length_front = omega (arith, length-take n (drop b.pos s), length-drop b.pos s)

  send_rounds-Streams :
      (replies : List SendReply) (total : ℕ) (b : WrBuffer sq)
      → IsReady sq b
      → Streams total b (send_rounds sq replies total b)
  unfolding send_rounds after_send
  send_rounds-Streams [] total b v = elim (List-cases (view b.queue)) [
    | inl e ↦ rw (empty_iff b e) (stop-Streams total b (returns (some total)) v (omega arith))
    | inr (s, r, e) ↦ rw (not_empty b s r e, offer_lem b s r e v) (stop-Streams total b waits v tt)
  ]
  send_rounds-Streams (a ∷ as') total b v = elim (List-cases (view b.queue)) [
    | inl e ↦ rw (empty_iff b e) (stop-Streams total b (returns (some total)) v (omega arith))
    | inr (s, r, e) ↦
        rw (not_empty b s r e, offer_lem b s r e v)
          (elim (Option-cases (safe_send a (length s - b.pos))) [
            | inl failed ↦ rw failed (stop-Streams total b (returns none) v tt)
            | inr (n, sent) ↦ rw sent (elim (Bool-cases (n == 0)) [
              | inl nothing ↦
                  rw nothing (stop-Streams total b (returns (some total)) v (omega arith))
              | inr more ↦ rw more (
                  moved as' total b s r e v n (safe_send-le a (length s - b.pos) n sent)
                    (λ t b' v'. send_rounds-Streams as' t b' v'))
            ])
          ])
  ]

  -- From a ready buffer, one in which no string is empty, `send_wrbuffer` never stops the process,
  -- whatever the kernel answers: what was pending is what goes out followed by what is still
  -- pending, the buffer stays ready, and a count that is returned is the number of bytes that went
  -- out.
  pub send_wrbuffer-Streams :
      (replies : List SendReply) (b : WrBuffer sq)
      → IsReady sq b
      → Streams 0 b (send_wrbuffer sq replies b)
  unfolding send_wrbuffer
  send_wrbuffer-Streams replies b v = send_rounds-Streams replies 0 b v

  -- If the head of the queue is the empty string, `send_wrbuffer` stops the process by the assertion
  -- of `wrbuffer_remained`, before it sends anything.
  pub send_wrbuffer_empty_head :
      (replies : List SendReply) (b : WrBuffer sq) (r : List Bytes)
      → view b.queue ≡ [] ∷ r
      → ((send_wrbuffer sq replies b).result ≡ aborts) × ((send_wrbuffer sq replies b).wire ≡ [])
  unfolding send_wrbuffer send_rounds
  send_wrbuffer_empty_head [] b r e = rw (not_empty b [] r e, offer_abort b r e) (refl, refl)
  send_wrbuffer_empty_head (a ∷ as') b r e = rw (not_empty b [] r e, offer_abort b r e) (refl, refl)
