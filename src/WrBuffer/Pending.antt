-- ===== src/WrBuffer/Pending.antt =====
-- The bytes that a write buffer still has to send, and what its operations do to them.
use smtp_course_work.Base.{
  ℕ, ◌+◌, ◌-◌, ◌≤◌, ◌<◌, ◌≡◌, refl, sym, ap, ◌∙◌, true, none, some, List, [], ◌∷◌, ◌++◌,
  append_assoc, done, Bytes, length, take, drop, take_all, take-append-drop, drop-append_le,
  drop-drop, arith, length-drop, length-append, append-nil,
}
use smtp_course_work.Stailq.{Stailq, head_of, tail_of}
use smtp_course_work.WrBuffer.{
  WrBuffer, init_wrbuffer, reset_loop, reset_wrbuffer, wrbuffer_add, wrbuffer_start, shift_head,
  wrbuffer_shift, wrbuffer_remained,
}

abbrev pub joined : List Bytes → Bytes
joined [] = []
joined (s ∷ r) = s ++ joined r

-- No string is empty.
abbrev pub NonEmpty : List Bytes → Type 0
NonEmpty [] = Unit
NonEmpty (s ∷ r) = (0 < length s) × NonEmpty r

-- The position lies inside the head, and no string that waits is empty.
abbrev pub Fits : ℕ → List Bytes → Type 0
Fits pos [] = pos ≡ 0
Fits pos (s ∷ r) = (pos < length s) × NonEmpty r

Fits-zero : (l : List Bytes) → NonEmpty l → Fits 0 l
Fits-zero [] h = refl
Fits-zero (s ∷ r) h = h

NonEmpty-append : (l : List Bytes) (s : Bytes) → NonEmpty l → 0 < length s → NonEmpty (l ++ s ∷ [])
NonEmpty-append [] s h p = (p, tt)
NonEmpty-append (x ∷ l) s h p = (h.0, NonEmpty-append l s h.1 p)

Fits-append :
    (pos : ℕ) (l : List Bytes) (s : Bytes) → Fits pos l → 0 < length s → Fits pos (l ++ s ∷ [])
Fits-append pos [] s h p = (omega arith, tt)
Fits-append pos (x ∷ l) s h p = (h.0, NonEmpty-append l s h.1 p)

joined-append : (l : List Bytes) (s : Bytes) → joined (l ++ s ∷ []) ≡ joined l ++ s
joined-append [] s = append-nil s
joined-append (x ∷ l) s = rw (joined-append l s) (sym (append_assoc x (joined l) s))

Fits-le : (pos : ℕ) (l : List Bytes) → Fits pos l → pos ≤ length (joined l)
Fits-le pos [] h = omega arith
Fits-le pos (s ∷ r) h = omega (arith, length-append s (joined r))

pending_partial :
    (pos n : ℕ) (s rest : Bytes)
    → pos + n ≤ length s
    → drop pos (s ++ rest) ≡ take n (drop pos s) ++ drop (pos + n) (s ++ rest)
pending_partial pos n s rest h =
    rw
      (
        drop-append_le pos s rest (omega arith),
        drop-append_le (pos + n) s rest h,
        ← drop-drop n pos s,
      )
      (ap (λ t. t ++ rest) (sym (take-append-drop n (drop pos s)))
        ∙ append_assoc (take n (drop pos s)) (drop n (drop pos s)) rest)

pending_whole :
    (pos n : ℕ) (s rest : Bytes)
    → n ≡ length s - pos
    → pos ≤ length s
    → drop pos (s ++ rest) ≡ take n (drop pos s) ++ rest
pending_whole pos n s rest e h =
    drop-append_le pos s rest h
    ∙ ap (λ t. t ++ rest) (sym (take_all n (drop pos s) (omega (arith, length-drop pos s))))

module _ (sq : Stailq Bytes) where
  open sq use {view, first, remove_head, first_lem, view-init, view-insert_tail, view-remove_head}

  -- the bytes that are still to be sent, in order
  unfoldable pub pending : WrBuffer sq → Bytes
  pending b = drop b.pos (joined (view b.queue))

  pub record IsReady (b : WrBuffer sq) : Type 0 where
    pub fits : Fits b.pos (view b.queue)

  pub init_wrbuffer-IsReady : IsReady (init_wrbuffer sq)
  unfolding init_wrbuffer
  init_wrbuffer-IsReady = record { fits = rw view-init refl }

  -- To a ready buffer, and with memory for its node, a string is added at the end of the pending
  -- bytes; a string that is not empty keeps the buffer ready.
  pub pending-wrbuffer_add :
      (b : WrBuffer sq) (s : Bytes)
      → IsReady b
      → (pending (wrbuffer_add sq true b s).1 ≡ pending b ++ s)
        × (0 < length s → IsReady (wrbuffer_add sq true b s).1)
  unfolding pending wrbuffer_add
  pending-wrbuffer_add b s v = (
    rw (view-insert_tail, joined-append)
        (drop-append_le b.pos (joined (view b.queue)) s (Fits-le b.pos (view b.queue) v.fits)),
    λ p. record { fits = rw view-insert_tail (Fits-append b.pos (view b.queue) s v.fits p) },
  )

  reset_loop-frees :
      (l : List Bytes) (q : sq.Queue)
      → view q ≡ l
      → ((reset_loop sq (length l) q).0 ≡ l) × (view (reset_loop sq (length l) q).1 ≡ [])
  unfolding reset_loop
  reset_loop-frees [] q e = (refl, e)
  reset_loop-frees (s ∷ r) q e = rw (first_lem q ∙ ap head_of e) (
      let ih = reset_loop-frees r (remove_head q) (view-remove_head q ∙ ap tail_of e) in
      (ap (λ t. s ∷ t) ih.0, ih.1))

  -- `reset_wrbuffer` frees every string that waits, in order, and leaves an empty queue.
  pub reset_wrbuffer_lem :
      (b : WrBuffer sq)
      → ((reset_wrbuffer sq b).0 ≡ view b.queue)
        × (view (reset_wrbuffer sq b).1.queue ≡ [])
        × IsReady (reset_wrbuffer sq b).1
  unfolding reset_wrbuffer
  reset_wrbuffer_lem b =
      let ih = reset_loop-frees (view b.queue) b.queue refl in
      (ih.0, ih.1, record { fits = rw (ih.1) refl })

  module _ (b : WrBuffer sq) (s : Bytes) (r : List Bytes) (e : view b.queue ≡ s ∷ r)
      (v : IsReady b) where
    first_eq : first b.queue ≡ some s
    first_eq = first_lem b.queue ∙ ap head_of e

    fits_eq : (b.pos < length s) × NonEmpty r
    fits_eq = rw e at v.fits

    pub wrbuffer_remained_lem : wrbuffer_remained sq b ≡ done (length s - b.pos)
    unfolding wrbuffer_remained
    wrbuffer_remained_lem = rw (first_eq, wrbuffer_remained) (ground (arith, fits_eq))

    pub wrbuffer_start_lem : wrbuffer_start sq b ≡ done (s, b.pos)
    unfolding wrbuffer_start
    wrbuffer_start_lem = rw (first_eq, wrbuffer_start)

    shift_head_partial :
        (n : ℕ)
        → n < length s - b.pos
        → shift_head sq b n s ≡ done (none, record b { pos = b.pos + n })
    unfolding shift_head
    shift_head_partial n h = ground arith

    shift_head_whole :
        (n : ℕ)
        → n ≡ length s - b.pos
        → shift_head sq b n s ≡ done (some s, record { queue = remove_head b.queue; pos = 0 })
    unfolding shift_head
    shift_head_whole n h = ground (arith, fits_eq)

    -- Fewer bytes than remain of the head: the position moves on by them.
    pub shift_partial :
        (n : ℕ)
        → n < length s - b.pos
        → (wrbuffer_shift sq b n ≡ done (none, record b { pos = b.pos + n }))
          × (pending b ≡ take n (drop b.pos s) ++ pending (record b { pos = b.pos + n }))
          × IsReady (record b { pos = b.pos + n })
    unfolding wrbuffer_shift pending
    shift_partial n h = (
      rw (first_eq, wrbuffer_shift) (shift_head_partial n h),
      rw e (pending_partial b.pos n s (joined r) (omega arith)),
      record { fits = rw e (omega (arith, fits_eq), fits_eq.1) },
    )

    -- All bytes that remain of the head: it is freed, and the next string is the head.
    pub shift_whole :
        (n : ℕ)
        → n ≡ length s - b.pos
        → (wrbuffer_shift sq b n ≡ done (some s, record { queue = remove_head b.queue; pos = 0 }))
          × (pending b
              ≡ take n (drop b.pos s) ++ pending (record { queue = remove_head b.queue; pos = 0 }))
          × IsReady (record { queue = remove_head b.queue; pos = 0 })
    unfolding wrbuffer_shift pending
    shift_whole n h = (
      rw (first_eq, wrbuffer_shift) (shift_head_whole n h),
      rw (view-remove_head, e) (pending_whole b.pos n s (joined r) h (omega (arith, fits_eq))),
      record { fits = rw (view-remove_head, e) (Fits-zero r fits_eq.1) },
    )
