-- ===== src/Log/Counted.antt =====
-- `poll_inputs` counts the pipes that are not closed.
use smtp_course_work.Base.{
  ℕ, zero, suc, ◌+◌, ◌-◌, ◌≡◌, refl, sym, ap, ◌∙◌, subst, Bool, true, false, ◌&&◌, ◌||◌, not, List,
  [], ◌∷◌, ◌++◌, Bytes, c_string, length, ◌==◌, if◌then◌else◌, arith, Bool-cases, inl, inr,
}
use smtp_course_work.Kernel.{
  Call, returns, waits, aborts, RecvReply, got, eintr, eagain, broken, delivered, Call-cases,
}
use smtp_course_work.Log.{process_nonblock, room_made, process_buffer}
use smtp_course_work.Log.Inputs.{
  Watched, InputEvents, Inputs, has_input, read_input, poll_input, poll_round,
}

-- the pipes that are not closed
unfoldable pub active_count : List Watched → ℕ
active_count [] = 0
active_count (w ∷ ws) = (if w.active then 1 else 0) + active_count ws

closing_front :
    (w : Watched) (c : Bool)
    → w.active ≡ true
    → (if w.active && not c then 1 else 0) + (if c then 1 else 0) ≡ 1
closing_front w true h = ground (arith, h)
closing_front w false h = ground (arith, h)

module _ (got_copy : Bytes → Bool) (buf_size : ℕ) where
  active_of : (w : Watched) (e : InputEvents) → has_input w e ≡ true → w.active ≡ true
  unfolding has_input
  active_of w e h = ground (arith, h)

  -- the count behind a pipe that may have been closed
  round_left :
      (closing : Bool) (nfds rest front k : ℕ)
      → front + (if closing then 1 else 0) ≡ 1
      → nfds ≡ 1 + rest + k
      → (if closing then nfds - 1 else nfds) ≡ rest + (front + k)
  round_left true nfds rest front k f h = omega arith
  round_left false nfds rest front k f h = omega arith

  process_nonblock-ends :
      (left : Bytes) (rs : List RecvReply)
      → (process_nonblock got_copy buf_size left rs).closing ≡ aborts
      → ⊥
  unfolding process_nonblock
  process_nonblock-ends left [] h = ground (arith, h)
  process_nonblock-ends left (eintr ∷ rs) h = process_nonblock-ends (room_made buf_size left) rs h
  process_nonblock-ends left (eagain ∷ rs) h = ground (arith, h)
  process_nonblock-ends left (broken ∷ rs) h = ground (arith, h)
  process_nonblock-ends left (got bs ∷ rs) h =
      let kept = room_made buf_size left in
      let bytes = delivered (got bs) (buf_size - length kept - 1) in
      elim (Bool-cases (length bytes == 0)) [
        | inl z ↦ absurd (ground (arith, rw (z, process_nonblock) at h))
        | inr z ↦
            process_nonblock-ends (process_buffer got_copy (c_string (kept ++ bytes))).1 rs
              (rw (z, process_nonblock) at h)
      ]

  -- what `poll_input` makes of a pipe: closed or open, but counted
  abbrev One : Call (Bool × Watched) → Type 0
  One (returns (closing, w)) = (if w.active then 1 else 0) + (if closing then 1 else 0) ≡ 1
  One waits = Unit
  One aborts = ⊥

  read_active :
      (w : Watched) (e : InputEvents) → (read_input got_copy buf_size w e).1.active ≡ w.active
  unfolding read_input
  read_active w e = elim (Bool-cases e.readable) [
    | inl reads ↦ rw reads refl
    | inr idle ↦ rw idle refl
  ]

  read_front :
      (w : Watched) (e : InputEvents) (x : Bool)
      → w.active ≡ true
      → (if (read_input got_copy buf_size w e).1.active && not x then 1 else 0)
          + (if x then 1 else 0)
        ≡ 1
  read_front w e x h =
      subst (λ a. (if a && not x then 1 else 0) + (if x then 1 else 0) ≡ 1) (sym (read_active w e))
        (closing_front w x h)

  poll_input-One :
      (w : Watched) (e : InputEvents) → w.active ≡ true → One (poll_input got_copy buf_size w e)
  unfolding poll_input read_input
  poll_input-One w e h = elim (Bool-cases e.readable) [
    | inr idle ↦ rw (idle, poll_input) (read_front w e e.hung_up h)
    | inl reads ↦ elim (Call-cases (process_nonblock got_copy buf_size w.left e.reads).closing) [
      | inr (inl c) ↦ rw (reads, c, poll_input) tt
      | inr (inr c) ↦ absurd (process_nonblock-ends w.left e.reads c)
      | inl (b, c) ↦ rw (reads, c, poll_input) (read_front w e (b || e.hung_up) h)
    ]
  ]

  -- What a round leaves: `nfds` still counts the pipes that are not closed, with `k` more.
  abbrev pub Counted : ℕ → ℕ → Call Inputs → Type 0
  Counted k len (returns r) = (r.nfds ≡ active_count r.watched + k) × (length r.watched ≡ len)
  Counted k len waits = Unit
  Counted k len aborts = ⊥

  poll_round-Counted :
      (n k : ℕ) (ws : List Watched) (events : List InputEvents) (nfds : ℕ)
      → nfds ≡ active_count ws + k
      → Counted k (length ws) (poll_round got_copy buf_size n ws events nfds)
  unfolding poll_round active_count
  poll_round-Counted n k [] events nfds h = (h, refl)
  poll_round-Counted n k (w ∷ ws) [] nfds h = (h, refl)
  poll_round-Counted zero k (w ∷ ws) (e ∷ events) nfds h = (h, refl)
  poll_round-Counted (suc n) k (w ∷ ws) (e ∷ events) nfds h = elim (Bool-cases (has_input w e)) [
    | inr idle ↦
        let front = if w.active then 1 else 0 in
        let ih = poll_round-Counted (suc n) (front + k) ws events nfds (omega arith) in
        elim (Call-cases (poll_round got_copy buf_size (suc n) ws events nfds)) [
          | inl (r, c) ↦
              let m = subst (Counted (front + k) (length ws)) c ih in
              rw (idle, c, poll_round) (omega (arith, m.0), ap suc m.1)
          | inr (inl c) ↦ rw (idle, c, poll_round) tt
          | inr (inr c) ↦ absurd (subst (Counted (front + k) (length ws)) c ih)
        ]
    | inl busy ↦
        let one = poll_input-One w e (active_of w e busy) in
        elim (Call-cases (poll_input got_copy buf_size w e)) [
          | inr (inl c) ↦ rw (busy, c, poll_round) tt
          | inr (inr c) ↦ absurd (subst One c one)
          | inl ((closing, w'), c) ↦
              let left = if closing then nfds - 1 else nfds in
              let front = if w'.active then 1 else 0 in
              let f : front + (if closing then 1 else 0) ≡ 1 = subst One c one in
              let ih = poll_round-Counted n (front + k) ws events left (
                round_left closing nfds (active_count ws) front k f
                  (h ∙ (rw (active_of w e busy) refl))) in
              elim (Call-cases (poll_round got_copy buf_size n ws events left)) [
                | inl (r, d) ↦
                    let m = subst (Counted (front + k) (length ws)) d ih in
                    rw (busy, c, d, poll_round) (omega (arith, m.0), ap suc m.1)
                | inr (inl d) ↦ rw (busy, c, d, poll_round) tt
                | inr (inr d) ↦ absurd (subst (Counted (front + k) (length ws)) d ih)
              ]
        ]
  ]

  -- Where `nfds` counts the pipes that are not closed, whatever events a round meets and whatever is read, it counts
  -- them behind the round, and no pipe is lost; the round never stops the process.
  pub poll_round_lem :
      (n : ℕ) (ws : List Watched) (events : List InputEvents)
      → Counted 0 (length ws) (poll_round got_copy buf_size n ws events (active_count ws))
  poll_round_lem n ws events = poll_round-Counted n 0 ws events (active_count ws) (omega arith)
