-- ===== src/Poll/Clients.antt =====
-- Serving a client keeps its slot well formed.
use smtp_course_work.Base.{
  ℕ, ◌≡◌, ◌⊎◌, inl, inr, refl, ap, ◌∙◌, Bool, true, false, Option, none, some, Bytes, if◌then◌else◌,
  arith, Bool-cases,
}
use smtp_course_work.Stailq.{Stailq}
use smtp_course_work.Kernel.{Call, returns, waits, aborts}
use smtp_course_work.Cnct.{CnctState, cnct_shut, cnct_open, cnct_wait, is_open}
use smtp_course_work.Cmds.{Vdb}
use smtp_course_work.Cnct.Lifetime.{Settled}
use smtp_course_work.Poll.{
  Slot, Served, Events, ClientReplies, unserved, client_input, client_output, client_rest,
  process_client, remove_connection,
}
use smtp_course_work.Poll.Slots.{IsSlot, Matches, remove_connection_lem}
use smtp_course_work.CnctIo.Keeps.{process_cnct_state}

pub removed-cases :
    (r : Call Bool) → (r ≡ returns true) ⊎ (r ≡ returns false) ⊎ (r ≡ waits) ⊎ (r ≡ aborts)
removed-cases (returns true) = inl refl
removed-cases (returns false) = inr (inl refl)
removed-cases waits = inr (inr (inl refl))
removed-cases aborts = inr (inr (inr refl))

Settled-open : (st : CnctState) (n : ℕ) → is_open st ≡ true → Settled st n
unfolding is_open
Settled-open cnct_shut n h = absurd (ground (arith, h))
Settled-open cnct_open n h = tt
Settled-open cnct_wait n h = absurd (ground (arith, h))

Matches-some :
    (f : Option ℕ) (fd : ℕ) (st : CnctState) → f ≡ some fd → is_open st ≡ true → Matches f st
Matches-some none fd st e h = absurd (ground (arith, e))
Matches-some (some g) fd st e h = h

module _ (sq : Stailq Bytes) where
  -- the slot of a client that is connected
  pub record IsConnected (s : Slot sq) : Type 0 where
    pub fd : ℕ
    pub has_fd : s.fd ≡ some fd
    pub opened : is_open s.cnct.state ≡ true

  IsConnected-IsSlot : (s : Slot sq) → IsConnected s → IsSlot sq s
  IsConnected-IsSlot s h = record {
    settled = record { settled = Settled-open s.cnct.state s.cnct.queue_cnt h.opened };
    matches = Matches-some s.fd h.fd s.cnct.state h.has_fd h.opened;
    idle = λ gone. absurd (ground (arith, gone, h.has_fd));
  }

  removed-IsSlot : (s : Slot sq) → IsConnected s → IsSlot sq (remove_connection sq s)
  removed-IsSlot s h = (remove_connection_lem sq s (IsConnected-IsSlot s h)).0

  module _ {S : Type 0} (vdb : Vdb S) where
    client_input-IsConnected :
        (k : ClientReplies) (s : Slot sq) (db : S)
        → IsConnected s
        → IsConnected (client_input sq vdb k s db).slot
    unfolding client_input
    client_input-IsConnected k s db h = record {
      fd = h.fd;
      has_fd = h.has_fd;
      opened =
          ap is_open (process_cnct_state vdb k.sends k.got_block k.received s.cnct db) ∙ h.opened;
    }

    client_output-IsConnected :
        (k : ClientReplies) (s : Slot sq) (db : S)
        → IsConnected s
        → IsConnected (client_output sq vdb k s db).slot
    unfolding client_output
    client_output-IsConnected k s db h = record { fd = h.fd; has_fd = h.has_fd; opened = h.opened }

    -- what the branch of POLLOUT leaves
    abbrev output_of : Events → ClientReplies → Served sq S → Served sq S
    output_of ev k p =
        if ev.writable
        then client_output sq vdb k p.slot p.db
        else unserved sq vdb false p.slot p.db

    output_of-IsConnected :
        (ev : Events) (k : ClientReplies) (p : Served sq S)
        → IsConnected p.slot
        → IsConnected (output_of ev k p).slot
    output_of-IsConnected ev k p h = elim (Bool-cases ev.writable) [
      | inl w ↦ rw w (client_output-IsConnected k p.slot p.db h)
      | inr w ↦ rw w h
    ]

    client_rest-IsSlot :
        (ev : Events) (k : ClientReplies) (p : Served sq S)
        → IsConnected p.slot
        → IsSlot sq (client_rest sq vdb ev k p).slot
    unfolding client_rest
    client_rest-IsSlot ev k p h =
        let q = output_of ev k p in
        let c = output_of-IsConnected ev k p h in
        elim (removed-cases p.removed) [
          | inl a ↦ rw (a, client_rest) (removed-IsSlot p.slot h)
          | inr (inr (inl a)) ↦ rw (a, client_rest) (IsConnected-IsSlot p.slot h)
          | inr (inr (inr a)) ↦ rw (a, client_rest) (IsConnected-IsSlot p.slot h)
          | inr (inl a) ↦ elim (removed-cases q.removed) [
            | inl b ↦ rw (a, b, client_rest) (removed-IsSlot q.slot c)
            | inr (inl b) ↦ rw (a, b, client_rest) (IsConnected-IsSlot q.slot c)
            | inr (inr (inl b)) ↦ rw (a, b, client_rest) (IsConnected-IsSlot q.slot c)
            | inr (inr (inr b)) ↦ rw (a, b, client_rest) (IsConnected-IsSlot q.slot c)
          ]
        ]

    -- Serving a connected client, whatever its events, what is received and what the kernel answers,
    -- leaves its slot well formed, also where the client is removed.
    pub process_client-IsSlot :
        (ev : Events) (k : ClientReplies) (s : Slot sq) (db : S)
        → IsConnected s
        → IsSlot sq (process_client sq vdb ev k s db).slot
    unfolding process_client
    process_client-IsSlot ev k s db h = elim (Bool-cases ev.closed) [
      | inl c ↦ rw c (client_rest-IsSlot ev k (unserved sq vdb true s db) h)
      | inr c ↦ elim (Bool-cases ev.readable) [
        | inl r ↦
            rw (c, r)
              (client_rest-IsSlot ev k (client_input sq vdb k s db)
                (client_input-IsConnected k s db h))
        | inr r ↦ rw (c, r) (client_rest-IsSlot ev k (unserved sq vdb false s db) h)
      ]
    ]
