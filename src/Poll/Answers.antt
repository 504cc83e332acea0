-- ===== src/Poll/Answers.antt =====
-- The answers of the database that come by the control pipe, for open connections and for those already removed.
use smtp_course_work.Base.{
  ℕ, ◌+◌, ◌≤◌, ◌<◌, ◌≡◌, refl, ap, ◌∙◌, true, Option, none, some, List, [], ◌∷◌, ◌++◌, Outcome,
  done, Bytes, length, arith, Option-cases, inl, inr, append_assoc, ◌>>=◌, ◌==◌, if◌then◌else◌, suc,
}
use smtp_course_work.Stailq.{Stailq}
use smtp_course_work.Telnet.{suffix}
use smtp_course_work.WrBuffer.{WrBuffer, wrbuffer_add}
use smtp_course_work.Cnct.{Cnct, CnctState, cnct_shut, cnct_open, cnct_wait, is_open, dec_queue_cnt}
use smtp_course_work.Cnct.Lifetime.{
  Settled, IsSettled, counted_down, is_open-counted_down, dec_queue_cnt_done, Settled-after_state,
}
use smtp_course_work.Poll.{Slot, Answer, add_value, answer_slot}
use smtp_course_work.Poll.Slots.{IsSlot, Matches}

-- the strings that an answer is sent as, where its two allocations succeed: the value, if there is one, and the suffix
abbrev pub answer_strings : Option Bytes → List Bytes
answer_strings none = suffix ∷ []
answer_strings (some v) = v ∷ suffix ∷ []

module _ (sq : Stailq Bytes) where
  open sq use {view, insert_tail, view-insert_tail}

  -- what `answer_slot` leaves of a slot, by its descriptor
  abbrev answered : Answer → Slot sq → Cnct → Slot sq
  answered a s c = record s {
    cnct = c;
    wants_out = true;
    wrbuf = (wrbuffer_add sq a.got_suffix (add_value sq a.got_value s.wrbuf a.value) suffix).1;
  }

  answer_slot-none :
      (a : Answer) (s : Slot sq) (c : Cnct)
      → s.fd ≡ none
      → dec_queue_cnt s.cnct ≡ done c
      → answer_slot sq a s ≡ done (record s { cnct = c })
  unfolding answer_slot
  answer_slot-none a s c h e =
      rw (e, h, answer_slot) (ap (λ f. done (record s { fd = f; cnct = c })) h)

  answer_slot-some :
      (a : Answer) (s : Slot sq) (c : Cnct) (fd : ℕ)
      → s.fd ≡ some fd
      → dec_queue_cnt s.cnct ≡ done c
      → answer_slot sq a s ≡ done (answered a s c)
  unfolding answer_slot
  answer_slot-some a s c fd h e =
      rw (e, h, answer_slot) (ap (λ f. done (record (answered a s c) { fd = f })) h)

  view_strings :
      (b : WrBuffer sq) (value : Option Bytes)
      → view (wrbuffer_add sq true (add_value sq true b value) suffix).1.queue
        ≡ view b.queue ++ answer_strings value
  unfolding wrbuffer_add add_value
  view_strings b none = view-insert_tail b.queue suffix
  view_strings b (some v) =
      view-insert_tail (insert_tail b.queue v) suffix
      ∙ ap (λ l. l ++ suffix ∷ []) (view-insert_tail b.queue v)
      ∙ append_assoc (view b.queue) (v ∷ []) (suffix ∷ [])

  view-answered :
      (a : Answer) (s : Slot sq) (c : Cnct)
      → a.got_value ≡ true
      → a.got_suffix ≡ true
      → view (answered a s c).wrbuf.queue ≡ view s.wrbuf.queue ++ answer_strings a.value
  view-answered a s c v f = rw (v, f) (view_strings s.wrbuf a.value)

  Matches-counted_down :
      (fd : Option ℕ) (c : Cnct) → Matches fd c.state → Matches fd (counted_down c).state
  Matches-counted_down none c h = is_open-counted_down c ∙ h
  Matches-counted_down (some fd) c h = is_open-counted_down c ∙ h

  IsSettled-counted_down : (c : Cnct) → IsSettled c → 0 < c.queue_cnt → IsSettled (counted_down c)
  IsSettled-counted_down c v p = record {
    settled = Settled-after_state c.state c.queue_cnt p v.settled;
  }

  -- Where an answer is awaited, a request of the control pipe counts it down in a well-formed slot and leaves the
  -- slot well formed, with its descriptor. Where the connection is open, the value, if there is one, and the suffix
  -- go behind what is to be sent, given the memory for it, and the slot is polled for output; where it has been
  -- removed, the answer is dropped, and nothing comes to be sent.
  pub answer_slot_lem :
      (a : Answer) (s : Slot sq)
      → IsSlot sq s
      → 0 < s.cnct.queue_cnt
      → (s' : Slot sq) × (answer_slot sq a s ≡ done s')
        × IsSlot sq s'
        × (s'.fd ≡ s.fd)
        × (s'.cnct.queue_cnt + 1 ≡ s.cnct.queue_cnt)
        × (s.fd ≡ none → s'.wrbuf ≡ s.wrbuf)
        × ((fd : ℕ)
            → s.fd ≡ some fd
            → a.got_value ≡ true
            → a.got_suffix ≡ true
            → (s'.wants_out ≡ true)
              × (view s'.wrbuf.queue ≡ view s.wrbuf.queue ++ answer_strings a.value))
  answer_slot_lem a s v p = elim (Option-cases s.fd) [
    | inl gone ↦ (
      record s { cnct = counted_down s.cnct },
      answer_slot-none a s (counted_down s.cnct) gone (dec_queue_cnt_done s.cnct p),
      record {
        settled = IsSettled-counted_down s.cnct v.settled p;
        matches = Matches-counted_down s.fd s.cnct v.matches;
        idle = v.idle;
      },
      refl,
      omega arith,
      λ e. refl,
      λ fd here. absurd (ground (arith, gone, here)),
    )
    | inr (fd, here) ↦ (
      answered a s (counted_down s.cnct),
      answer_slot-some a s (counted_down s.cnct) fd here (dec_queue_cnt_done s.cnct p),
      record {
        settled = IsSettled-counted_down s.cnct v.settled p;
        matches = Matches-counted_down s.fd s.cnct v.matches;
        idle = λ gone. absurd (ground (arith, gone, here));
      },
      refl,
      omega arith,
      λ gone. absurd (ground (arith, gone, here)),
      λ fd' here' g h. (refl, view-answered a s (counted_down s.cnct) g h),
    )
  ]

  -- the requests to one slot, one after the other
  unfoldable pub answer_all : List Answer → Slot sq → Outcome (Slot sq)
  answer_all [] s = done s
  answer_all (a ∷ requests) s = answer_slot sq a s >>= λ s'. answer_all requests s'

  zero_flip : (n : ℕ) → (n == 0) ≡ (0 == n)
  zero_flip n = ground arith

  closed_state :
      (fd : Option ℕ) (st : CnctState) (n : ℕ)
      → Matches fd st
      → fd ≡ none
      → Settled st n
      → st ≡ (if n == 0 then cnct_shut else cnct_wait)
  unfolding is_open
  closed_state fd cnct_shut n m gone h = rw h refl
  closed_state none cnct_open n m gone h = absurd (ground (arith, m))
  closed_state (some fd) cnct_open n m gone h = absurd (ground (arith, gone))
  closed_state fd cnct_wait n m gone h = ground arith

  -- What is left of a slot whose connection has been removed, when some of the answers that its client was owed have
  -- come: it waits while answers are still to come, so that it is not free for a next client, and is shut exactly
  -- when the last of them has come; nothing of them comes to be sent. None of them stops the process.
  pub late_answers :
      (requests : List Answer) (s : Slot sq)
      → IsSlot sq s
      → s.fd ≡ none
      → length requests ≤ s.cnct.queue_cnt
      → (s' : Slot sq) × (answer_all requests s ≡ done s')
        × (s'.fd ≡ none)
        × (s'.cnct.queue_cnt + length requests ≡ s.cnct.queue_cnt)
        × (s'.cnct.state ≡ (if length requests == s.cnct.queue_cnt then cnct_shut else cnct_wait))
        × (view s'.wrbuf.queue ≡ [])
  unfolding answer_all
  late_answers [] s v gone n = (
    s,
    refl,
    gone,
    omega arith,
    closed_state s.fd s.cnct.state s.cnct.queue_cnt v.matches gone v.settled.settled
        ∙ (λ i. if zero_flip s.cnct.queue_cnt i then cnct_shut else cnct_wait),
    v.idle gone,
  )
  late_answers (a ∷ requests) s v gone n =
      let step = answer_slot_lem a s v (omega arith) in
      let ih = late_answers requests step.0 step.2 (step.3 ∙ gone) (omega (arith, step.4)) in
      let one_less : (length requests == step.0.cnct.queue_cnt)
          ≡ (suc (length requests) == s.cnct.queue_cnt) =
        ground (arith, step.4) in
      (
        ih.0,
        rw step.1 ih.1,
        ih.2,
        omega (arith, ih.3, step.4),
        ih.4 ∙ (λ i. if one_less i then cnct_shut else cnct_wait),
        ih.5,
      )
