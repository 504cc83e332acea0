-- ===== src/Serve.antt =====
-- The two servers that serve a client to its end: server_dumb/src/dumb_server.c, one client after the other, and
-- `thread_func` of server_thread/src/thread_server.c, with the functions around it.
pub mod Dumb
use smtp_course_work.Base.{
  ℕ, Bool, true, false, Option, none, some, List, [], ◌∷◌, ◌++◌, Outcome, done, abort, Bytes,
  if◌then◌else◌, Status, success, failure,
}
use smtp_course_work.Kernel.{Call, returns, waits, aborts, RecvReply, SendReply}
use smtp_course_work.Cnct.{Cnct, CnctState, init_fd_cnct, destroy_cnct, shutdown_cnct}
use smtp_course_work.Cmds.{Vdb}
use smtp_course_work.CnctIo.{process_cnct}
use smtp_course_work.Threads.{
  ThreadsList, ClientThreads, init_threads, destroy_threads, remove_thread,
}
use smtp_course_work.Threads.Steps.{ServerState, server_running, server_shutdown}

-- One round of the loop that serves a client: whether `running` holds, and what `process_cnct` meets.
pub record Turn : Type 0 where
  pub running : Bool
  pub got_block : Bool
  pub received : RecvReply
  pub sends : List SendReply

-- What the loop leaves: its end, with whether `running` still held, the connection, the database, and the bytes sent.
pub record Session (S : Type 0) : Type 0 where
  pub ended : Call Bool
  pub cnct : Cnct
  pub db : S
  pub wire : Bytes

module _ {S : Type 0} (vdb : Vdb S) where
  -- `while (running && process_cnct(...) >= 0) ;`
  unfoldable pub serve_client : List Turn → Cnct → S → Session S
  unfolding process_cnct
  serve_client [] c db = record { ended = waits; cnct = c; db = db; wire = [] }
  serve_client (t ∷ turns) c db =
      let p = process_cnct vdb t.got_block t.received t.sends c db in
      let rest = serve_client turns p.cnct p.db in
      if t.running
      then elim p.result [
        | waits ↦ record { ended = waits; cnct = p.cnct; db = p.db; wire = p.wire }
        | aborts ↦ record { ended = aborts; cnct = p.cnct; db = p.db; wire = p.wire }
        | returns none ↦ record { ended = returns true; cnct = p.cnct; db = p.db; wire = p.wire }
        | returns (some n) ↦ record rest { wire = p.wire ++ rest.wire }
      ]
      else record { ended = returns false; cnct = c; db = db; wire = [] }

-- An answer to `accept`, and what serving the client meets: the mutex and the block of its connection, and the turns.
-- `stopped` is the test of `running`, which never holds again.
pub data Visit : Type 0 where
  visits : (socket : ℕ) → (mutex : Bool) → (block : Option Bytes) → List Turn → Visit
  interrupted refused stopped : Visit

-- What `run_server` of dumb_server.c leaves: whether it has returned, the database, what went out to each client, the
-- last first, and the sockets of clients that it has left open.
pub record Run (S : Type 0) : Type 0 where
  pub ended : Call (Unit {0})
  pub db : S
  pub wires : List Bytes
  pub left_open : List ℕ

module _ {S : Type 0} (vdb : Vdb S) where
  abbrev pub halt : Call (Unit {0}) → S → List Bytes → List ℕ → Run S
  halt e db wires open_sockets = record {
    ended = e;
    db = db;
    wires = wires;
    left_open = open_sockets;
  }

  -- behind the loop: `safe_close`, and the assertion of `destroy_cnct`
  unfoldable pub after_visit : Session S → Call (Bool × S)
  unfolding destroy_cnct
  after_visit v = elim v.ended [
    | waits ↦ waits
    | aborts ↦ aborts
    | returns running ↦ elim (destroy_cnct v.cnct) [
      | abort ↦ aborts
      | done c ↦ returns (running, v.db)
    ]
  ]

  -- Where the list ends, the server waits in `accept`.
  unfoldable pub run_server : List Visit → S → List Bytes → Run S
  unfolding init_fd_cnct serve_client after_visit
  run_server [] db wires = halt waits db wires []
  run_server (interrupted ∷ visitors) db wires = run_server visitors db wires
  run_server (stopped ∷ visitors) db wires = halt (returns tt) db wires []
  run_server (refused ∷ visitors) db wires = halt (returns tt) db wires []
  run_server (visits socket mutex block turns ∷ visitors) db wires =
      elim (init_fd_cnct mutex block (some socket)) [
        | none ↦ halt (returns tt) db wires (socket ∷ [])
        | some c ↦
            (let v = serve_client vdb turns c db in
              elim (after_visit v) [
                | waits ↦ halt waits v.db (v.wire ∷ wires) (socket ∷ [])
                | aborts ↦ halt aborts v.db (v.wire ∷ wires) (socket ∷ [])
                | returns (false, db') ↦ halt (returns tt) db' (v.wire ∷ wires) []
                | returns (true, db') ↦ run_server visitors db' (v.wire ∷ wires)
              ])
      ]

module _ (tl : ThreadsList) {S : Type 0} (vdb : Vdb S) where
  -- `struct thread_server`; `none` is -1.
  pub record ThreadServer : Type 0 where
    pub db : S
    pub binded_socket : Option ℕ
    pub threads : ClientThreads tl
    pub state : ServerState

  -- `made` tells whether the lock of the state is made.
  unfoldable pub init_server : Bool → Bool → S → Option ThreadServer
  unfolding init_threads
  init_server made list_made db =
      if made
      then elim (init_threads tl list_made) [
        | none ↦ none
        | some threads ↦
            some
              (record { db = db; binded_socket = none; threads = threads; state = server_running })
      ]
      else none

  unfoldable pub destroy_server : ThreadServer → Outcome (Unit {0})
  unfolding destroy_threads
  destroy_server server = destroy_threads tl server.threads

  -- `bound` is what `create_binded_socket` returns.
  unfoldable pub bind_server : Option ℕ → ThreadServer → Status × ThreadServer
  bind_server none server = (failure, server)
  bind_server (some socket) server = (success, record server { binded_socket = some socket })

  -- the end of `thread_func`: the thread takes itself off the list while the server runs
  unfoldable pub leave_server : ℕ → ThreadServer → Call ThreadServer
  unfolding remove_thread
  leave_server at server = elim server.state [
    | server_shutdown ↦ returns server
    | server_running ↦ elim (remove_thread tl false at server.threads) [
      | waits ↦ waits
      | aborts ↦ aborts
      | returns threads ↦ returns (record server { threads = threads })
    ]
  ]

  -- What `thread_func` leaves where no other thread runs: its end, the server, its connection, what went out, and
  -- whether the client's socket is closed.
  pub record Threaded : Type 0 where
    pub ended : Call ThreadServer
    pub cnct : Option Cnct
    pub wire : Bytes
    pub closed : Bool

  unfoldable pub thread_func : ℕ → ℕ → Bool → Option Bytes → List Turn → ThreadServer → Threaded
  unfolding init_fd_cnct serve_client shutdown_cnct leave_server
  thread_func at socket mutex block turns server = elim (init_fd_cnct mutex block (some socket)) [
    | none ↦ record { ended = returns server; cnct = none; wire = []; closed = false }
    | some c ↦
        (let v = serve_client vdb turns c server.db in
          elim v.ended [
            | waits ↦ record { ended = waits; cnct = some v.cnct; wire = v.wire; closed = false }
            | aborts ↦ record { ended = aborts; cnct = some v.cnct; wire = v.wire; closed = false }
            | returns running ↦ record {
              ended = leave_server at (record server { db = v.db });
              cnct = some (shutdown_cnct v.cnct).1;
              wire = v.wire;
              closed = true;
            }
          ])
  ]
