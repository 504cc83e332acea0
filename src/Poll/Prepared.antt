-- ===== src/Poll/Prepared.antt =====
-- What the control pipe and the bound socket, which a round serves first, leave of the slots.
use smtp_course_work.Base.{
  ℕ, suc, ◌≡◌, ◌≢◌, inl, inr, refl, subst, ap, Option, none, some, List, [], ◌∷◌, Bytes, length,
  ◌==◌, arith, Bool-cases,
}
use smtp_course_work.Stailq.{Stailq}
use smtp_course_work.Kernel.{Call, returns, waits, aborts, Call-cases}
use smtp_course_work.Poll.{
  Slot, AcceptReply, connected, interrupted, refused, ControlRead, add_fd, is_shut, accepted_in,
  accept_connection, process_control,
}
use smtp_course_work.Poll.Slots.{AllSlots, add_fd-Fresh}
use smtp_course_work.Poll.Control.{NoFailure, Owed, Controlled, process_control-Controlled}
use smtp_course_work.Poll.Round.{interrupted, poll_control, poll_bound}

module _ (sq : Stailq Bytes) where
  -- as many slots as before, all well formed
  abbrev pub Like : List (Slot sq) → List (Slot sq) → Type 0
  Like slots slots' = AllSlots sq slots' × (length slots' ≡ length slots)

  length-add_fd :
      (slots : List (Slot sq)) (socket : ℕ) → length (add_fd sq slots socket).1 ≡ length slots
  unfolding add_fd
  length-add_fd [] socket = refl
  length-add_fd (s ∷ slots) socket = elim (Bool-cases (is_shut s.cnct.state)) [
    | inl shut ↦ rw shut refl
    | inr other ↦ rw other (ap suc (length-add_fd slots socket))
  ]

  accepted_slots :
      (p : Option ℕ × List (Slot sq)) (socket : ℕ) → (accepted_in sq p socket).slots ≡ p.1
  unfolding accepted_in
  accepted_slots (none, slots) socket = refl
  accepted_slots (some i, slots) socket = refl

  accept_connection-Like :
      (answers : List AcceptReply) (slots : List (Slot sq))
      → AllSlots sq slots
      → Like slots (accept_connection sq answers slots).slots
  unfolding accept_connection
  accept_connection-Like [] slots v = (v, refl)
  accept_connection-Like (interrupted ∷ rs) slots v = accept_connection-Like rs slots v
  accept_connection-Like (refused ∷ rs) slots v = (v, refl)
  accept_connection-Like (connected socket ∷ rs) slots v =
      rw (accepted_slots (add_fd sq slots socket) socket)
        ((add_fd-Fresh sq slots socket v).0, length-add_fd slots socket)

  -- what the first two descriptors leave
  abbrev pub Prepared : List (Slot sq) → Call (ℕ × List (Slot sq)) → Type 0
  Prepared slots (returns (left, slots')) = Like slots slots'
  Prepared slots waits = Unit
  Prepared slots aborts = ⊥

  abbrev pub Owes : Option (List ControlRead) → List (Slot sq) → Type 0
  Owes none slots = Unit
  Owes (some rs) slots = Owed sq rs slots × NoFailure rs

  pub poll_control-Prepared :
      (c : Option (List ControlRead)) (left : ℕ) (slots : List (Slot sq))
      → AllSlots sq slots
      → Owes c slots
      → Prepared slots (poll_control sq c left slots)
  unfolding poll_control
  poll_control-Prepared none left slots v h = (v, refl)
  poll_control-Prepared (some rs) left slots v h =
      let k = process_control-Controlled sq rs slots v h.0 h.1 in
      elim (Bool-cases (left == 0)) [
        | inl z ↦ rw z (v, refl)
        | inr z ↦ elim (Call-cases (process_control sq rs slots)) [
          | inl (slots', e) ↦ rw (z, e, poll_control) (subst (Controlled sq slots) e k)
          | inr (inl e) ↦ rw (z, e, poll_control) tt
          | inr (inr e) ↦ rw (z, e, poll_control) (subst (Controlled sq slots) e k)
        ]
      ]

  accepted_in-runs :
      (p : Option ℕ × List (Slot sq)) (socket : ℕ) → (accepted_in sq p socket).result ≢ aborts
  unfolding accepted_in
  accepted_in-runs (none, slots) socket e = ground (arith, e)
  accepted_in-runs (some i, slots) socket e = ground (arith, e)

  accept_connection-runs :
      (answers : List AcceptReply) (slots : List (Slot sq))
      → (accept_connection sq answers slots).result ≢ aborts
  unfolding accept_connection accepted_in
  accept_connection-runs [] slots e = ground (arith, e)
  accept_connection-runs (interrupted ∷ rs) slots e = accept_connection-runs rs slots e
  accept_connection-runs (refused ∷ rs) slots e = ground (arith, e)
  accept_connection-runs (connected socket ∷ rs) slots e =
      accepted_in-runs (add_fd sq slots socket) socket e

  pub poll_bound-Prepared :
      (b : Option (List AcceptReply)) (left : ℕ) (slots : List (Slot sq))
      → AllSlots sq slots
      → Prepared slots (poll_bound sq b left slots)
  unfolding poll_bound
  poll_bound-Prepared none left slots v = (v, refl)
  poll_bound-Prepared (some answers) left slots v = elim (Bool-cases (left == 0)) [
    | inl z ↦ rw z (v, refl)
    | inr z ↦ elim (Call-cases (accept_connection sq answers slots).result) [
      | inl (n, e) ↦ rw (z, e, poll_bound) (accept_connection-Like answers slots v)
      | inr (inl e) ↦ rw (z, e, poll_bound) tt
      | inr (inr e) ↦ absurd (accept_connection-runs answers slots e)
    ]
  ]
