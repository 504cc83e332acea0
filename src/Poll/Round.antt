-- ===== src/Poll/Round.antt =====
-- One round of the poll server: `poll_fds`, `process_fd`, and the end of `run_server`.
use smtp_course_work.Base.{
  ℕ, ◌-◌, Bool, true, false, ◌||◌, Option, none, some, List, [], ◌∷◌, Bytes, ◌==◌, if◌then◌else◌,
}
use smtp_course_work.Stailq.{Stailq}
use smtp_course_work.Kernel.{Call, returns, waits, aborts}
use smtp_course_work.Cmds.{Vdb}
use smtp_course_work.Poll.{
  AcceptReply, ControlRead, Events, ClientReplies, Slot, accept_connection, process_control,
  process_client, remove_connection,
}

-- What `poll` returns: how many descriptors have events, or -1 with EINTR or another error.
pub data PollReply : Type 0 where
  ready : ℕ → PollReply
  interrupted failed : PollReply

-- What a round meets: the answer of `poll`; the reads of the control pipe and the answers to `accept`, where those two
-- descriptors have events; and the events of the clients' descriptors, with the answers while each is served.
pub record Round : Type 0 where
  pub reply : PollReply
  pub control : Option (List ControlRead)
  pub bound : Option (List AcceptReply)
  pub clients : List (Events × ClientReplies)

-- `revents != 0`
unfoldable pub has_events : Events → Bool
has_events ev = ev.closed || ev.readable || ev.writable || ev.other

module _ (sq : Stailq Bytes) where
  -- `struct poll_server` between two calls, with the bytes sent to each client in this round; `left` is `nfds`.
  pub record Polled (S : Type 0) : Type 0 where
    pub slots : List (Slot sq)
    pub db : S
    pub left : ℕ
    pub wires : List Bytes

  -- `cur->fd == -1 || !cur->revents`
  unfoldable pub is_skipped : Slot sq → Events → Bool
  unfolding has_events
  is_skipped s ev = elim s.fd [ none ↦ true | some fd ↦ if has_events ev then false else true ]

  -- The two descriptors that no client has come first, from the end of the array: the control pipe, then the
  -- socket that is bound.
  unfoldable pub poll_control :
      Option (List ControlRead) → ℕ → List (Slot sq) → Call (ℕ × List (Slot sq))
  unfolding process_control
  poll_control none left slots = returns (left, slots)
  poll_control (some reads) left slots =
      if left == 0 then returns (left, slots) else elim (process_control sq reads slots) [
        | waits ↦ waits
        | aborts ↦ aborts
        | returns slots' ↦ returns (left - 1, slots')
      ]

  unfoldable pub poll_bound :
      Option (List AcceptReply) → ℕ → List (Slot sq) → Call (ℕ × List (Slot sq))
  unfolding accept_connection
  poll_bound none left slots = returns (left, slots)
  poll_bound (some answers) left slots =
      if left == 0
      then returns (left, slots)
      else elim ((accept_connection sq answers slots).result) [
        | waits ↦ waits
        | aborts ↦ aborts
        | returns n ↦ returns (left - 1, (accept_connection sq answers slots).slots)
      ]

  module _ {S : Type 0} (vdb : Vdb S) where
    -- a client in front of those that have been served
    unfoldable pub poll_client : Events → ClientReplies → Slot sq → Polled S → Call (Polled S)
    unfolding is_skipped process_client
    poll_client ev k s p =
        if (p.left == 0) || is_skipped s ev
        then returns (record p { slots = s ∷ p.slots; wires = [] ∷ p.wires })
        else (let c = process_client sq vdb ev k s p.db in
            elim c.removed [
              | waits ↦ waits
              | aborts ↦ aborts
              | returns r ↦ returns (record {
                slots = c.slot ∷ p.slots;
                db = c.db;
                left = p.left - 1;
                wires = c.wire ∷ p.wires;
              })
            ])

    -- `i` runs down, so that the last slot comes first. A slot without events in the list has none.
    unfoldable pub poll_clients :
        List (Events × ClientReplies) → ℕ → List (Slot sq) → S → Call (Polled S)
    unfolding poll_client
    poll_clients events left [] db =
        returns (record { slots = []; db = db; left = left; wires = [] })
    poll_clients [] left (s ∷ slots) db =
        returns (record { slots = s ∷ slots; db = db; left = left; wires = [] })
    poll_clients ((ev, k) ∷ events) left (s ∷ slots) db = elim (poll_clients events left slots db) [
      | waits ↦ waits
      | aborts ↦ aborts
      | returns p ↦ poll_client ev k s p
    ]

    unfoldable pub poll_fds : Round → List (Slot sq) → S → Call (Polled S)
    unfolding poll_control poll_bound poll_clients
    poll_fds round slots db = elim round.reply [
      | interrupted ↦ returns (record { slots = slots; db = db; left = 0; wires = [] })
      | failed ↦ aborts
      | ready n ↦ elim (poll_control round.control n slots) [
        | waits ↦ waits
        | aborts ↦ aborts
        | returns (left, slots₁) ↦ elim (poll_bound round.bound left slots₁) [
          | waits ↦ waits
          | aborts ↦ aborts
          | returns (left', slots₂) ↦ poll_clients round.clients left' slots₂ db
        ]
      ]
    ]

  -- The loop at the end of `run_server`.
  unfoldable pub remove_all : List (Slot sq) → List (Slot sq)
  unfolding remove_connection
  remove_all [] = []
  remove_all (s ∷ slots) = remove_connection sq s ∷ remove_all slots
