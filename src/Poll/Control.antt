-- ===== src/Poll/Control.antt =====
-- The requests of the control pipe, one after the other, against the slots that they name.
use smtp_course_work.Base.{
  ℕ, zero, suc, ◌+◌, ◌≤◌, ◌<◌, ◌≡◌, refl, ap, ◌∙◌, List, [], ◌∷◌, done, Bytes, length, ◌==◌,
  if◌then◌else◌, arith,
}
use smtp_course_work.Stailq.{Stailq}
use smtp_course_work.Kernel.{Call, returns, waits, aborts}
use smtp_course_work.Poll.{
  Slot, Answer, ControlRead, request, drained, failed, answer_at, process_control,
}
use smtp_course_work.Poll.Slots.{AllSlots}
use smtp_course_work.Poll.Answers.{answer_slot_lem}

-- how many of the requests before the pipe is drained name the slot
unfoldable pub asked : List ControlRead → ℕ → ℕ
asked [] i = 0
asked (drained ∷ rs) i = 0
asked (failed ∷ rs) i = 0
asked (request a ∷ rs) i = (if a.nfd == i then 1 else 0) + asked rs i

-- No read of the pipe fails before it is drained.
abbrev pub NoFailure : List ControlRead → Type 0
NoFailure [] = Unit
NoFailure (drained ∷ rs) = Unit
NoFailure (failed ∷ rs) = ⊥
NoFailure (request a ∷ rs) = NoFailure rs

module _ (sq : Stailq Bytes) where
  -- the answers that the client of a slot is owed
  unfoldable pub owed : List (Slot sq) → ℕ → ℕ
  owed [] i = 0
  owed (s ∷ slots) zero = s.cnct.queue_cnt
  owed (s ∷ slots) (suc i) = owed slots i

  -- Every request names a slot that is owed an answer.
  abbrev pub Owed : List ControlRead → List (Slot sq) → Type 0
  Owed rs slots = (i : ℕ) → asked rs i ≤ owed slots i

  abbrev Answered : List (Slot sq) → ℕ → List (Slot sq) → Type 0
  Answered slots k slots' =
      AllSlots sq slots'
      × (length slots' ≡ length slots)
      × ((i : ℕ) → owed slots' i + (if k == i then 1 else 0) ≡ owed slots i)

  Answered-first :
      (s s' : Slot sq) (slots : List (Slot sq))
      → s'.cnct.queue_cnt + 1 ≡ s.cnct.queue_cnt
      → (i : ℕ) → owed (s' ∷ slots) i + (if 0 == i then 1 else 0) ≡ owed (s ∷ slots) i
  unfolding owed
  Answered-first s s' slots h zero = h
  Answered-first s s' slots h (suc i) = ground arith

  same_index : (k i : ℕ) → (suc k == suc i) ≡ (k == i)
  same_index k i = ground arith

  Answered-next :
      (s : Slot sq) (slots slots' : List (Slot sq)) (k : ℕ)
      → ((i : ℕ) → owed slots' i + (if k == i then 1 else 0) ≡ owed slots i)
      → (i : ℕ) → owed (s ∷ slots') i + (if suc k == i then 1 else 0) ≡ owed (s ∷ slots) i
  unfolding owed
  Answered-next s slots slots' k h zero = ground arith
  Answered-next s slots slots' k h (suc i) = rw (same_index k i) (h i)

  answer_at_done :
      (a : Answer) (slots : List (Slot sq)) (k : ℕ)
      → AllSlots sq slots
      → 0 < owed slots k
      → (slots' : List (Slot sq)) × (answer_at sq a slots k ≡ done slots') × Answered slots k slots'
  unfolding answer_at owed
  answer_at_done a [] k v p = absurd (omega arith)
  answer_at_done a (s ∷ slots) zero v p =
      let r = answer_slot_lem sq a s v.0 p in
      (r.0 ∷ slots, rw (r.1, answer_at) refl, ((r.2, v.1), refl, Answered-first s r.0 slots r.4))
  answer_at_done a (s ∷ slots) (suc k) v p =
      let r = answer_at_done a slots k v.1 p in
      (
        s ∷ r.0,
        rw (r.1, answer_at) refl,
        ((v.0, r.2.0), ap suc r.2.1, Answered-next s slots r.0 k r.2.2),
      )

  asked_one :
      (a : Answer) (rs : List ControlRead) (slots : List (Slot sq))
      → Owed (request a ∷ rs) slots
      → 0 < owed slots a.nfd
  unfolding asked
  asked_one a rs slots h = let here = h a.nfd in ground arith

  Owed-rest :
      (a : Answer) (rs : List ControlRead) (slots slots' : List (Slot sq))
      → Owed (request a ∷ rs) slots
      → ((i : ℕ) → owed slots' i + (if a.nfd == i then 1 else 0) ≡ owed slots i)
      → Owed rs slots'
  unfolding asked
  Owed-rest a rs slots slots' h e i = omega (arith, h i, e i)

  -- what reading the pipe leaves: the slots, or a wait for the next request
  abbrev pub Controlled : List (Slot sq) → Call (List (Slot sq)) → Type 0
  Controlled slots (returns slots') = AllSlots sq slots' × (length slots' ≡ length slots)
  Controlled slots waits = Unit
  Controlled slots aborts = ⊥

  Controlled-length :
      (slots slots' : List (Slot sq)) (r : Call (List (Slot sq)))
      → length slots' ≡ length slots
      → Controlled slots' r
      → Controlled slots r
  Controlled-length slots slots' (returns t) e h = (h.0, h.1 ∙ e)
  Controlled-length slots slots' waits e h = tt
  Controlled-length slots slots' aborts e h = h

  -- From well-formed slots that are owed the answers that come, and where no read of the pipe fails, `process_control`
  -- never stops the process, and the slots that it returns are well formed and as many.
  pub process_control-Controlled :
      (rs : List ControlRead) (slots : List (Slot sq))
      → AllSlots sq slots
      → Owed rs slots
      → NoFailure rs
      → Controlled slots (process_control sq rs slots)
  unfolding process_control
  process_control-Controlled [] slots v h n = tt
  process_control-Controlled (drained ∷ rs) slots v h n = (v, refl)
  process_control-Controlled (failed ∷ rs) slots v h n = absurd n
  process_control-Controlled (request a ∷ rs) slots v h n =
      let r = answer_at_done a slots a.nfd v (asked_one a rs slots h) in
      rw (r.1, process_control)
        (Controlled-length slots r.0 (process_control sq rs r.0) r.2.1
          (process_control-Controlled rs r.0 r.2.0 (Owed-rest a rs slots r.0 h r.2.2) n))
