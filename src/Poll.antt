-- ===== src/Poll.antt =====
-- server_poll/src/poll_server.c: the poll server. A slot is one index of its arrays `fds`, `cncts` and `wrbufs`; its
-- thread runs each function from its start to its end, and the database's threads reach it by the control pipe.
pub mod Slots
pub mod Answers
pub mod Round
pub mod Clients
pub mod Control
pub mod Prepared
pub mod Invariant
pub mod Owed
use smtp_course_work.Base.{
  ℕ, zero, suc, Bool, true, false, ◌&&◌, not, Option, none, some, List, [], ◌∷◌, ◌++◌, Outcome,
  done, abort, Bytes, if◌then◌else◌,
}
use smtp_course_work.Stailq.{Stailq}
use smtp_course_work.Kernel.{Call, returns, waits, aborts, RecvReply, SendReply}
use smtp_course_work.WrBuffer.{
  WrBuffer, init_wrbuffer, is_wrbuffer_empty, reset_wrbuffer, wrbuffer_add,
}
use smtp_course_work.WrBufIo.{send_wrbuffer}
use smtp_course_work.Telnet.{suffix}
use smtp_course_work.Cnct.{
  CnctState, cnct_shut, cnct_open, cnct_wait, Cnct, init_poll_cnct, reset_poll_cnct, dec_queue_cnt,
  cnct_state, shutdown_cnct,
}
use smtp_course_work.Cmds.{Vdb}
use smtp_course_work.CnctIo.{process_cnct}

unfoldable pub is_shut : CnctState → Bool
is_shut cnct_shut = true
is_shut cnct_open = false
is_shut cnct_wait = false

-- An answer to `accept`: a descriptor, or -1 with EINTR or another error.
pub data AcceptReply : Type 0 where
  connected : ℕ → AcceptReply
  interrupted refused : AcceptReply

-- `struct answer` as the control pipe carries it, with the two allocations of nodes that it leads to. The copy of the
-- suffix is always made.
pub record Answer : Type 0 where
  pub nfd : ℕ
  pub value : Option Bytes
  pub got_value : Bool
  pub got_suffix : Bool

-- What `read_all` of the control pipe brings: a request, 0, or -1.
pub data ControlRead : Type 0 where
  request : Answer → ControlRead
  drained failed : ControlRead

-- `revents`: POLLHUP or POLLERR, POLLIN, POLLOUT, any other bit
pub record Events : Type 0 where
  pub closed : Bool
  pub readable : Bool
  pub writable : Bool
  pub other : Bool

-- What the kernel and `malloc` answer while a client is served.
pub record ClientReplies : Type 0 where
  pub got_block : Bool
  pub received : RecvReply
  pub sends : List SendReply
  pub flushes : List SendReply

-- the result of `process_cnct` or `send_wrbuffer`, as whether it is -1
unfoldable pub is_failed : Call (Option ℕ) → Call Bool
is_failed (returns none) = returns true
is_failed (returns (some n)) = returns false
is_failed waits = waits
is_failed aborts = aborts

unfoldable pub next_index : Option ℕ → Option ℕ
next_index none = none
next_index (some i) = some (suc i)

module _ (sq : Stailq Bytes) where
  -- `fds[i]`, its POLLOUT bit being `wants_out`, with `cncts[i]` and `wrbufs[i]`
  pub record Slot : Type 0 where
    pub fd : Option ℕ
    pub wants_out : Bool
    pub cnct : Cnct
    pub wrbuf : WrBuffer sq

  -- The slots of `init_server`, one for each connection with its mutex and its buffer; -1 if one has none.
  unfoldable pub init_slots : List (Bool × Option Bytes) → Option (List Slot)
  init_slots [] = some []
  init_slots ((mutex, block) ∷ more) =
      let rest = init_slots more in
      elim (init_poll_cnct mutex block none) [
        | none ↦ none
        | some c ↦ elim rest [
          | none ↦ none
          | some slots ↦
              some (
                record { fd = none; wants_out = false; cnct = c; wrbuf = init_wrbuffer sq } ∷ slots)
        ]
      ]

  -- `server->fds[i].fd = socket; reset_poll_cnct(...)`
  unfoldable pub occupy : Slot → ℕ → Slot
  unfolding reset_poll_cnct
  occupy s socket = record s { fd = some socket; cnct = reset_poll_cnct s.cnct (some socket) }

  -- `none` is -1.
  unfoldable pub add_fd : List Slot → ℕ → Option ℕ × List Slot
  unfolding is_shut cnct_state occupy next_index
  add_fd [] socket = (none, [])
  add_fd (s ∷ slots) socket =
      let (i, rest) = add_fd slots socket in
      if is_shut (cnct_state s.cnct)
      then (some 0, occupy s socket ∷ slots)
      else (next_index i, s ∷ rest)

  -- What `accept_connection` leaves; `closed` are the sockets that it closes.
  pub record Accepted : Type 0 where
    pub result : Call (Option ℕ)
    pub slots : List Slot
    pub closed : List ℕ

  -- the end of `accept_connection`, by the result of `add_fd`
  unfoldable pub accepted_in : Option ℕ × List Slot → ℕ → Accepted
  accepted_in (none, slots) socket = record {
    result = returns none;
    slots = slots;
    closed = socket ∷ [];
  }
  accepted_in (some i, slots) socket = record {
    result = returns (some i);
    slots = slots;
    closed = [];
  }

  unfoldable pub accept_connection : List AcceptReply → List Slot → Accepted
  unfolding add_fd accepted_in
  accept_connection [] slots = record { result = waits; slots = slots; closed = [] }
  accept_connection (interrupted ∷ rs) slots = accept_connection rs slots
  accept_connection (refused ∷ rs) slots = record {
    result = returns none;
    slots = slots;
    closed = [];
  }
  accept_connection (connected socket ∷ rs) slots = accepted_in (add_fd slots socket) socket

  -- The body of `remove_connection`; the descriptor is closed.
  unfoldable pub remove_connection : Slot → Slot
  unfolding shutdown_cnct reset_wrbuffer
  remove_connection s = elim s.fd [
    | none ↦ s
    | some fd ↦ record s {
      fd = none;
      cnct = (shutdown_cnct s.cnct).1;
      wrbuf = (reset_wrbuffer sq s.wrbuf).1;
    }
  ]

  -- `if (request.value) wrbuffer_add(...)`
  unfoldable pub add_value : Bool → WrBuffer sq → Option Bytes → WrBuffer sq
  unfolding wrbuffer_add
  add_value got b none = b
  add_value got b (some v) = (wrbuffer_add sq got b v).1

  -- What `process_control` does with one request to the slot that it names.
  unfoldable pub answer_slot : Answer → Slot → Outcome Slot
  unfolding dec_queue_cnt add_value wrbuffer_add
  answer_slot a s = elim (dec_queue_cnt s.cnct) [
    | abort ↦ abort
    | done c ↦ elim s.fd [
      | none ↦ done (record s { cnct = c })
      | some fd ↦ done (record s {
        cnct = c;
        wants_out = true;
        wrbuf = (wrbuffer_add sq a.got_suffix (add_value a.got_value s.wrbuf a.value) suffix).1;
      })
    ]
  ]

  -- the same in the array; the server's own requests name slots that it has
  unfoldable pub answer_at : Answer → List Slot → ℕ → Outcome (List Slot)
  unfolding answer_slot
  answer_at a [] i = abort
  answer_at a (s ∷ slots) zero = elim (answer_slot a s) [
    | abort ↦ abort
    | done s' ↦ done (s' ∷ slots)
  ]
  answer_at a (s ∷ slots) (suc i) = elim (answer_at a slots i) [
    | abort ↦ abort
    | done slots' ↦ done (s ∷ slots')
  ]

  -- One round for each `read_all`; -1 ends the process.
  unfoldable pub process_control : List ControlRead → List Slot → Call (List Slot)
  unfolding answer_at
  process_control [] slots = waits
  process_control (drained ∷ rs) slots = returns slots
  process_control (failed ∷ rs) slots = aborts
  process_control (request a ∷ rs) slots = elim (answer_at a slots a.nfd) [
    | abort ↦ aborts
    | done slots' ↦ process_control rs slots'
  ]

  -- What serving a client leaves: whether it is removed, its slot, the database, and the bytes sent.
  pub record Served (S : Type 0) : Type 0 where
    pub removed : Call Bool
    pub slot : Slot
    pub db : S
    pub wire : Bytes

  module _ {S : Type 0} (vdb : Vdb S) where
    abbrev pub unserved : Bool → Slot → S → Served S
    unserved r s db = record { removed = returns r; slot = s; db = db; wire = [] }

    -- the branch of POLLIN
    unfoldable pub client_input : ClientReplies → Slot → S → Served S
    unfolding process_cnct is_failed
    client_input k s db =
        let p = process_cnct vdb k.got_block k.received k.sends s.cnct db in
        record {
          removed = is_failed p.result;
          slot = record s { cnct = p.cnct };
          db = p.db;
          wire = p.wire;
        }

    -- the branch of POLLOUT
    unfoldable pub client_output : ClientReplies → Slot → S → Served S
    unfolding send_wrbuffer is_failed is_wrbuffer_empty
    client_output k s db =
        let f = send_wrbuffer sq k.flushes s.wrbuf in
        record {
          removed = is_failed f.result;
          slot = record s {
            wrbuf = f.buffer;
            wants_out = s.wants_out && not (is_wrbuffer_empty sq f.buffer);
          };
          db = db;
          wire = f.wire;
        }

    -- the rest of `process_client` behind the input
    unfoldable pub client_rest : Events → ClientReplies → Served S → Served S
    unfolding client_output remove_connection
    client_rest ev k p =
        let q = if ev.writable then client_output k p.slot p.db else unserved false p.slot p.db in
        elim p.removed [
          | returns true ↦ record p { slot = remove_connection p.slot }
          | returns false ↦ elim q.removed [
            | returns true ↦ record q { slot = remove_connection q.slot; wire = p.wire ++ q.wire }
            | other ↦ record q { wire = p.wire ++ q.wire }
          ]
          | other ↦ p
        ]

    unfoldable pub process_client : Events → ClientReplies → Slot → S → Served S
    unfolding client_rest client_input
    process_client ev k s db = client_rest ev k (
        if ev.closed
        then unserved true s db
        else if ev.readable
        then client_input k s db
        else unserved false s db)
