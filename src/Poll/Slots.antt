-- ===== src/Poll/Slots.antt =====
-- The slots of the poll server: which one a new connection gets, and what a removed one leaves.
use smtp_course_work.Base.{
  ℕ, zero, suc, ◌≡◌, ◌≢◌, refl, sym, ap, subst, ◌∙◌, true, false, Option, none, some, List, [], ◌∷◌,
  ◌++◌, Bytes, length, get_elem?, ◌==◌, if◌then◌else◌, arith, Bool-cases, Option-cases, inl, inr,
}
use smtp_course_work.Stailq.{Stailq}
use smtp_course_work.WrBuffer.{reset_wrbuffer}
use smtp_course_work.WrBuffer.Pending.{reset_wrbuffer_lem}
use smtp_course_work.Buffer.{reset_buffer}
use smtp_course_work.Buffer.Contents.{contents}
use smtp_course_work.Cnct.{
  reset_poll_cnct, Cnct, shutdown_cnct, CnctState, cnct_shut, cnct_open, cnct_wait, is_open,
}
use smtp_course_work.Cnct.Lifetime.{Settled, IsSettled, inc_shutdown_IsSettled}
use smtp_course_work.Poll.{Slot, is_shut, occupy, next_index, add_fd, remove_connection}

-- A descriptor goes with an open connection.
abbrev pub Matches : Option ℕ → CnctState → Type 0
Matches none st = is_open st ≡ false
Matches (some fd) st = is_open st ≡ true

module _ (sq : Stailq Bytes) where
  open sq use {view}

  -- The connection is settled and open exactly where the slot has a descriptor; a slot without one has nothing to
  -- be sent.
  pub record IsSlot (s : Slot sq) : Type 0 where
    pub settled : IsSettled s.cnct
    pub matches : Matches s.fd s.cnct.state
    pub idle : s.fd ≡ none → view s.wrbuf.queue ≡ []

  abbrev pub AllSlots : List (Slot sq) → Type 0
  AllSlots [] = Unit
  AllSlots (s ∷ slots) = IsSlot s × AllSlots slots

  abbrev pub NoneShut : List (Slot sq) → Type 0
  NoneShut [] = Unit
  NoneShut (s ∷ slots) = (s.cnct.state ≢ cnct_shut) × NoneShut slots

  -- the slots of before, with the first one that is shut given to the socket, or none of them shut
  pub data Placed (slots : List (Slot sq)) (socket : ℕ) : Option ℕ × List (Slot sq) → Type 0 where
    full : NoneShut slots → Placed slots socket (none, slots)
    placed :
        (before : List (Slot sq)) (s : Slot sq) (after : List (Slot sq))
        → slots ≡ before ++ s ∷ after
        → NoneShut before
        → s.cnct.state ≡ cnct_shut
        → Placed slots socket (some (length before), before ++ occupy sq s socket ∷ after)

  is_shut→shut : (st : CnctState) → is_shut st ≡ true → st ≡ cnct_shut
  unfolding is_shut
  is_shut→shut cnct_shut h = refl
  is_shut→shut cnct_open h = ground arith
  is_shut→shut cnct_wait h = ground arith

  not_shut : (st : CnctState) → is_shut st ≡ false → st ≢ cnct_shut
  unfolding is_shut
  not_shut cnct_shut h e = ground arith
  not_shut cnct_open h e = ground arith
  not_shut cnct_wait h e = ground arith

  Placed-cons :
      (s : Slot sq) (slots : List (Slot sq)) (socket : ℕ) (r : Option ℕ × List (Slot sq))
      → s.cnct.state ≢ cnct_shut
      → Placed slots socket r
      → Placed (s ∷ slots) socket (next_index r.0, s ∷ r.1)
  unfolding next_index
  Placed-cons s slots socket _ ne (full h) = full (ne, h)
  Placed-cons s slots socket _ ne (placed before t after e h shut) =
      placed (s ∷ before) t after (ap (λ l. s ∷ l) e) (ne, h) shut

  -- A new connection gets the first slot that is shut, so never one whose answers are still to come, and the other
  -- slots stay as they are; -1 is returned where no slot is shut, and then nothing changes.
  pub add_fd-Placed :
      (slots : List (Slot sq)) (socket : ℕ) → Placed slots socket (add_fd sq slots socket)
  unfolding add_fd
  add_fd-Placed [] socket = full tt
  add_fd-Placed (s ∷ slots) socket = elim (Bool-cases (is_shut s.cnct.state)) [
    | inl shut ↦ rw shut (placed [] s slots refl tt (is_shut→shut s.cnct.state shut))
    | inr other ↦ rw other (
        Placed-cons s slots socket (add_fd sq slots socket) (not_shut s.cnct.state other)
          (add_fd-Placed slots socket))
  ]

  Matches-shutdown : (c : Cnct) → Matches none (shutdown_cnct c).1.state
  unfolding is_open shutdown_cnct
  Matches-shutdown c = ground arith

  shutdown_state :
      (c : Cnct) → (shutdown_cnct c).1.state ≡ (if c.queue_cnt == 0 then cnct_shut else cnct_wait)
  unfolding shutdown_cnct
  shutdown_state c = refl

  abbrev removed : Slot sq → Slot sq
  removed s = record s {
    fd = none;
    cnct = (shutdown_cnct s.cnct).1;
    wrbuf = (reset_wrbuffer sq s.wrbuf).1;
  }

  remove_some : (s : Slot sq) (fd : ℕ) → s.fd ≡ some fd → remove_connection sq s ≡ removed s
  unfolding remove_connection
  remove_some s fd h = ap (λ f. remove_connection sq (record s { fd = f })) h

  remove_none : (s : Slot sq) → s.fd ≡ none → remove_connection sq s ≡ s
  unfolding remove_connection
  remove_none s h =
      ap (λ f. remove_connection sq (record s { fd = f })) h ∙ ap (λ f. record s { fd = f }) (sym h)

  -- Removing a connection leaves its slot without a descriptor and with nothing to be sent, counts the same answers
  -- still to come, and shuts the connection exactly where there are none.
  pub remove_connection_lem :
      (s : Slot sq)
      → IsSlot s
      → IsSlot (remove_connection sq s)
        × ((remove_connection sq s).fd ≡ none)
        × ((remove_connection sq s).cnct.queue_cnt ≡ s.cnct.queue_cnt)
        × (view (remove_connection sq s).wrbuf.queue ≡ [])
        × ((fd : ℕ)
            → s.fd ≡ some fd
            → (remove_connection sq s).cnct.state
              ≡ (if s.cnct.queue_cnt == 0 then cnct_shut else cnct_wait))
  remove_connection_lem s v = elim (Option-cases s.fd) [
    | inl gone ↦
        rw (remove_none s gone)
          (v, gone, refl, v.idle gone, λ fd e. absurd (ground (arith, e, gone)))
    | inr (fd, here) ↦
        let r = reset_wrbuffer_lem sq s.wrbuf in
        let i = inc_shutdown_IsSettled s.cnct in
        rw (remove_some s fd here) (
          record { settled = i.0; matches = Matches-shutdown s.cnct; idle = λ e. r.1 },
          refl,
          i.1,
          r.1,
          λ fd' e. shutdown_state s.cnct,
        )
  ]

  shut_no_fd : (fd : Option ℕ) (st : CnctState) → Matches fd st → st ≡ cnct_shut → fd ≡ none
  unfolding is_open
  shut_no_fd none st m h = refl
  shut_no_fd (some fd) st m h = absurd (ground (arith, sym m ∙ ap is_open h))

  pub occupy-IsSlot :
      (s : Slot sq) (socket : ℕ)
      → IsSlot s
      → s.cnct.state ≡ cnct_shut
      → IsSlot (occupy sq s socket) × (view s.wrbuf.queue ≡ [])
  unfolding occupy is_open
  occupy-IsSlot s socket v shut = (
    record {
      settled = record { settled = tt };
      matches = refl;
      idle = λ e. absurd (ground (arith, e));
    },
    v.idle (shut_no_fd s.fd s.cnct.state v.matches shut),
  )

  -- The slot that a new connection gets was free, with no answer to come for the one before, and is as if nobody had
  -- had it: open, no answers to come, no bytes received and none to be sent.
  abbrev pub Fresh : List (Slot sq) → List (Slot sq) → ℕ → ℕ → Type 0
  Fresh slots slots' socket i =
      (t : Slot sq) × (s : Slot sq) × (get_elem? slots i ≡ some t)
      × (get_elem? slots' i ≡ some s)
      × (t.fd ≡ none)
      × (t.cnct.queue_cnt ≡ 0)
      × (s.fd ≡ some socket)
      × (s.cnct.state ≡ cnct_open)
      × (s.cnct.queue_cnt ≡ 0)
      × (contents s.cnct.buf ≡ [])
      × (view s.wrbuf.queue ≡ [])

  contents-occupy : (s : Slot sq) (socket : ℕ) → contents (occupy sq s socket).cnct.buf ≡ []
  unfolding occupy reset_poll_cnct reset_buffer contents
  contents-occupy s socket = refl

  Fresh-first :
      (s : Slot sq) (slots : List (Slot sq)) (socket i : ℕ)
      → IsSlot s
      → s.cnct.state ≡ cnct_shut
      → some 0 ≡ some i
      → Fresh (s ∷ slots) (occupy sq s socket ∷ slots) socket i
  unfolding occupy
  Fresh-first s slots socket zero v shut e = (
    s,
    occupy sq s socket,
    refl,
    refl,
    shut_no_fd s.fd s.cnct.state v.matches shut,
    subst (λ st. Settled st s.cnct.queue_cnt) shut v.settled.settled,
    refl,
    refl,
    refl,
    contents-occupy s socket,
    (occupy-IsSlot s socket v shut).1,
  )
  Fresh-first s slots socket (suc i) v shut e = absurd (ground (arith, e))

  Fresh-next :
      (s : Slot sq) (slots slots' : List (Slot sq)) (socket i : ℕ) (o : Option ℕ)
      → ((j : ℕ) → o ≡ some j → Fresh slots slots' socket j)
      → next_index o ≡ some i
      → Fresh (s ∷ slots) (s ∷ slots') socket i
  unfolding next_index
  Fresh-next s slots slots' socket i none h e = absurd (ground (arith, e))
  Fresh-next s slots slots' socket zero (some j) h e = absurd (ground (arith, e))
  Fresh-next s slots slots' socket (suc i) (some j) h e = h i (ground (arith, e))

  pub add_fd-Fresh :
      (slots : List (Slot sq)) (socket : ℕ)
      → AllSlots slots
      → AllSlots (add_fd sq slots socket).1
        × ((i : ℕ)
            → (add_fd sq slots socket).0 ≡ some i
            → Fresh slots (add_fd sq slots socket).1 socket i)
  unfolding add_fd
  add_fd-Fresh [] socket v = (tt, λ i e. absurd (ground (arith, e)))
  add_fd-Fresh (s ∷ slots) socket v = elim (Bool-cases (is_shut s.cnct.state)) [
    | inl shut ↦
        let e = is_shut→shut s.cnct.state shut in
        rw shut
          (((occupy-IsSlot s socket v.0 e).0, v.1), λ i h. Fresh-first s slots socket i v.0 e h)
    | inr other ↦
        let ih = add_fd-Fresh slots socket v.1 in
        rw other (
          (v.0, ih.0),
          λ i e.
              Fresh-next s slots (add_fd sq slots socket).1 socket i (add_fd sq slots socket).0 ih.1
                e,
        )
  ]
