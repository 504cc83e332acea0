-- ===== src/Tests/Connections.antt =====
-- Connections and the slots of the poll server at concrete inputs.
use smtp_course_work.Base.{
  ◌+◌, length, ◌==◌, if◌then◌else◌, ◌<◌, ◌≡◌, refl, true, false, none, some, List, [], ◌∷◌, ◌++◌,
  done, Bytes, ℕ, zero, suc, arith,
}
use smtp_course_work.Stailq.{list_stailq}
use smtp_course_work.Kernel.{got, SendReply, took}
use smtp_course_work.Buffer.{Buffer, init_buffer}
use smtp_course_work.Buffer.Bounds.{IsValid}
use smtp_course_work.Buffer.Contents.{contents}
use smtp_course_work.Buffer.Find.{Occurs, Found}
use smtp_course_work.Telnet.{suffix}
use smtp_course_work.Db.Tree.{map_tree}
use smtp_course_work.Db.Lock.{LockDb, init_lock_db}
use smtp_course_work.Cmds.{Vdb}
use smtp_course_work.Cmds.Session.{vdb_of}
use smtp_course_work.Cmds.Locked.{locked_db}
use smtp_course_work.Cnct.{Cnct, cnct_shut, cnct_open, cnct_wait, is_open}
use smtp_course_work.Cnct.Lifetime.{IsSettled}
use smtp_course_work.CnctIo.{process_cnct}
use smtp_course_work.CnctIo.Bounds.{Within, process_cnct-Within}
use smtp_course_work.CnctIo.Framing.{FirstLine, handled, process_cnct-line}
use smtp_course_work.Poll.{Slot, Answer, add_fd, answer_slot}
use smtp_course_work.Poll.{Events, ClientReplies}
use smtp_course_work.Poll.Clients.{IsConnected}
use smtp_course_work.Poll.Slots.{IsSlot, Placed, add_fd-Placed}
use smtp_course_work.Poll.{request, drained}
use smtp_course_work.Poll.Owed.{
  Life, IsAwaited, LifeReach, life_here, life_next, serves, connects, served, life_answers,
}
use smtp_course_work.Poll.{occupy, Served, process_client}
use smtp_course_work.Cmds.{process_cmd}
use smtp_course_work.Poll.Control.{asked, owed, Owed}
use smtp_course_work.Poll.Round.{ready, Round, poll_fds}
use smtp_course_work.Poll.Prepared.{Owes}
use smtp_course_work.Poll.Invariant.{Rounded, poll_fds-Rounded}
use smtp_course_work.Serve.{Turn, serve_client, after_visit}
use smtp_course_work.Serve.Dumb.{closed_by, destroy_holds}
use smtp_course_work.Cnct.{init_fd_cnct}
use smtp_course_work.Poll.Answers.{answer_all, late_answers}

-- a connection with an empty buffer of 8 bytes, which awaits one answer
abbrev conn : Cnct
conn = record {
  fd = none;
  buf = record { buf = 0 ∷ 0 ∷ 0 ∷ 0 ∷ 0 ∷ 0 ∷ 0 ∷ 0 ∷ []; allocated = true; size = 8; pos = 0 };
  queue_cnt = 1;
  state = cnct_open;
}

buf-IsValid : IsValid conn.buf
buf-IsValid = record {
  is_allocated = refl;
  block = refl;
  in_use = omega arith;
  small = omega arith;
}

conn-IsSettled : IsSettled conn
conn-IsSettled = record { settled = tt }

abbrev vdb : Vdb (LockDb map_tree)
vdb = vdb_of (locked_db map_tree)

abbrev locked : LockDb map_tree
locked = init_lock_db map_tree

abbrev sends : List SendReply
sends = took 1 ∷ took 1 ∷ []

before_end : (j : ℕ) → j < 2 → ¬ Occurs suffix (b'?' ∷ b'k' ∷ 13 ∷ 10 ∷ []) j
before_end zero h o = ground arith
before_end (suc zero) h o = ground arith
before_end (suc (suc j)) h o = omega arith

get_line : FirstLine (contents conn.buf ++ b'?' ∷ b'k' ∷ 13 ∷ 10 ∷ []) (b'?' ∷ b'k' ∷ []) []
unfolding contents
get_line = record { split = refl; first = before_end; no_nul = omega arith }

process_cnct-line_example :
    (b : Buffer) × (contents b ≡ [])
    × IsValid b
    × (process_cnct vdb true (got (b'?' ∷ b'k' ∷ 13 ∷ 10 ∷ [])) sends conn locked
        ≡ handled vdb sends conn locked b (b'?' ∷ b'k' ∷ []))
process_cnct-line_example =
    process_cnct-line vdb sends conn locked b'?' (b'k' ∷ 13 ∷ 10 ∷ []) (b'?' ∷ b'k' ∷ []) []
      buf-IsValid (omega arith) get_line

no_suffix : Found suffix (contents conn.buf ++ b'?' ∷ []) none
unfolding contents
no_suffix = λ j h o. absurd (omega arith)

-- an open slot with one answer to come, one that waits for an answer, and one that is free
abbrev open_slot : Slot (list_stailq Bytes)
open_slot = record {
  fd = some 5;
  wants_out = false;
  cnct = conn;
  wrbuf = record { queue = []; pos = 0 };
}

abbrev waiting_slot : Slot (list_stailq Bytes)
waiting_slot = record {
  fd = none;
  wants_out = false;
  cnct = record conn { state = cnct_wait };
  wrbuf = record { queue = []; pos = 0 };
}

abbrev free_slot : Slot (list_stailq Bytes)
free_slot = record {
  fd = none;
  wants_out = false;
  cnct = record conn { state = cnct_shut; queue_cnt = 0 };
  wrbuf = record { queue = []; pos = 0 };
}

open-IsSlot : IsSlot (list_stailq Bytes) open_slot
unfolding is_open
open-IsSlot = record { settled = record { settled = tt }; matches = refl; idle = λ e. refl }

waiting-IsSlot : IsSlot (list_stailq Bytes) waiting_slot
unfolding is_open
waiting-IsSlot = record {
  settled = record { settled = omega arith };
  matches = refl;
  idle = λ e. refl;
}

free-IsSlot : IsSlot (list_stailq Bytes) free_slot
unfolding is_open
free-IsSlot = record {
  settled = record { settled = omega arith };
  matches = refl;
  idle = λ e. refl;
}

abbrev slots : List (Slot (list_stailq Bytes))
slots = open_slot ∷ waiting_slot ∷ free_slot ∷ []

add_fd-Placed_example : Placed (list_stailq Bytes) slots 9 (add_fd (list_stailq Bytes) slots 9)
add_fd-Placed_example = add_fd-Placed (list_stailq Bytes) slots 9

abbrev answer : Answer
answer = record { nfd = 0; value = some (b'v' ∷ []); got_value = true; got_suffix = true }

late_answers_example :
    (s : Slot (list_stailq Bytes)) × (answer_all (list_stailq Bytes) (answer ∷ []) waiting_slot
      ≡ done s)
    × (s.fd ≡ none)
    × (s.cnct.queue_cnt + length (answer ∷ []) ≡ waiting_slot.cnct.queue_cnt)
    × (s.cnct.state
        ≡ (if length (answer ∷ []) == waiting_slot.cnct.queue_cnt then cnct_shut else cnct_wait))
    × (s.wrbuf.queue ≡ [])
late_answers_example =
    late_answers (list_stailq Bytes) (answer ∷ []) waiting_slot waiting-IsSlot refl (omega arith)

abbrev readable : Events
readable = record { closed = false; readable = true; writable = true; other = false }

abbrev replies : ClientReplies
replies = record {
  got_block = true;
  received = got (b'?' ∷ b'k' ∷ 13 ∷ 10 ∷ []);
  sends = sends;
  flushes = took 1 ∷ [];
}

open-IsConnected : IsConnected (list_stailq Bytes) open_slot
unfolding is_open
open-IsConnected = record { fd = 5; has_fd = refl; opened = refl }

-- the client has sent a line, and the answer that it is owed comes by the control pipe
abbrev round : Round
round = record {
  reply = ready 2;
  control = some (request answer ∷ drained ∷ []);
  bound = none;
  clients = (readable, replies) ∷ [];
}

answer_owed : Owes (list_stailq Bytes) round.control slots
unfolding owed asked
answer_owed = (first_owed, tt)
  where
    first_owed : Owed (list_stailq Bytes) (request answer ∷ drained ∷ []) slots
    first_owed zero = omega arith
    first_owed (suc i) = ground arith

poll_fds-Rounded_example :
    Rounded
      (list_stailq Bytes)
      vdb
      round
      slots
      locked
      (poll_fds (list_stailq Bytes) vdb round slots locked)
poll_fds-Rounded_example =
    poll_fds-Rounded (list_stailq Bytes) vdb round slots locked
      (open-IsSlot, (waiting-IsSlot, (free-IsSlot, tt))) answer_owed

abbrev block : Bytes
block = 0 ∷ 0 ∷ 0 ∷ 0 ∷ 0 ∷ 0 ∷ 0 ∷ 0 ∷ []

abbrev new_conn : Cnct
new_conn = record {
  fd = some 5;
  buf = record { buf = block; allocated = true; size = 131072; pos = 0 };
  queue_cnt = 0;
  state = cnct_open;
}

new_made : init_fd_cnct true (some block) (some 5) ≡ some new_conn
unfolding init_fd_cnct init_buffer
new_made = refl

abbrev turns : List Turn
turns =
    record {
      running = true;
      got_block = true;
      received = got (b'?' ∷ b'k' ∷ 13 ∷ 10 ∷ []);
      sends = sends;
    }
    ∷ []

destroy_holds_example :
    after_visit vdb (serve_client vdb turns new_conn locked)
    ≡ closed_by vdb refl (serve_client vdb turns new_conn locked)
destroy_holds_example = destroy_holds vdb refl true (some block) 5 new_conn turns locked new_made

process_cnct-Within_example :
    Within 8 (process_cnct vdb true (got (b'?' ∷ b'k' ∷ 13 ∷ 10 ∷ [])) sends conn locked).cnct.buf
process_cnct-Within_example =
    process_cnct-Within vdb sends true (got (b'?' ∷ b'k' ∷ 13 ∷ 10 ∷ [])) conn locked buf-IsValid

-- a database that answers later
abbrev async_vdb : Vdb (Unit {0})
async_vdb = record {
  get = none;
  set = λ db key v. done db;
  geta = some (λ db key. done db);
  has_async = true;
}

-- a slot that nobody has had
abbrev unused : Life (list_stailq Bytes) async_vdb
unused = record { slot = free_slot; db = (tt, 0); answered = 0 }

unused-IsAwaited : IsAwaited (list_stailq Bytes) async_vdb unused
unused-IsAwaited = record { slot = free-IsSlot; awaited = refl }

-- a client has connected and asks for a key
abbrev taken : Slot (list_stailq Bytes)
taken = occupy (list_stailq Bytes) free_slot 9

taken-IsConnected : IsConnected (list_stailq Bytes) taken
unfolding occupy is_open
taken-IsConnected = record { fd = 9; has_fd = refl; opened = refl }

abbrev asking : Served (list_stailq Bytes) (Unit {0} × ℕ)
asking = served (list_stailq Bytes) async_vdb readable replies taken (tt, 0)

abbrev asked_life : Life (list_stailq Bytes) async_vdb
asked_life = record { slot = asking.slot; db = asking.db; answered = 0 }

asked_reached : LifeReach (list_stailq Bytes) async_vdb unused asked_life
asked_reached =
    life_next (life_next life_here (connects 9 refl)) (serves readable replies taken-IsConnected)

life_answers_example :
    (0 < asked_life.db.1
      → (a : Answer)
      → (s : Slot (list_stailq Bytes)) × (answer_slot (list_stailq Bytes) a asked_life.slot
          ≡ done s))
    × (asked_life.slot.cnct.state ≡ cnct_shut → 0 ≡ asked_life.db.1)
life_answers_example =
    life_answers (list_stailq Bytes) async_vdb unused asked_life unused-IsAwaited asked_reached

-- one get has been asked for
asked_one : asked_life.db.1 ≡ 1
unfolding process_client process_cnct process_cmd smtp_course_work.Buffer.buffer_space occupy
    smtp_course_work.Telnet.recv_at_start smtp_course_work.Buffer.buffer_start
    smtp_course_work.Fd.safe_recv smtp_course_work.Buffer.buffer_find
    smtp_course_work.Buffer.buffer_shift smtp_course_work.Buffer.Contents.store_at_start
    smtp_course_work.Buffer.buffer_cut smtp_course_work.Telnet.strip_telnet_cmd
    smtp_course_work.CnctIo.process_request smtp_course_work.Cnct.inc_queue_cnt
asked_one = refl
