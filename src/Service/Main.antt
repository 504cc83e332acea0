-- ===== src/Service/Main.antt =====
-- The choice of a command by `main` of srvc_lib/src/main.c and of srvc_runner/src/main.c.
use smtp_course_work.Base.{
  ℕ, ◌≡◌, ◌<◌, ◌^◌, refl, Bool, true, false, none, some, List, [], ◌∷◌, success, failure, Bytes,
  length, ltb, ℤ, pos, negsuc, ◌==◌, if◌then◌else◌,
}
use smtp_course_work.Service.{same_path}
use smtp_course_work.Service.Decimal.{pid_line, scan_pid-pid_line}
use smtp_course_work.Service.PidFile.{
  Host, stop_service, stop_pid, read_pidfile, check_status, delete_pidfile,
}
use smtp_course_work.Service.Start.{
  End, results, exits, becomes, waiting, faults, StartReplies, start, start_runner,
}
use smtp_course_work.Service.Clean.{write_file-same}

-- "start", "stop" and "status"
abbrev pub start_word : Bytes
start_word = b's' ∷ b't' ∷ b'a' ∷ b'r' ∷ b't' ∷ []

abbrev pub stop_word : Bytes
stop_word = b's' ∷ b't' ∷ b'o' ∷ b'p' ∷ []

abbrev pub status_word : Bytes
status_word = b's' ∷ b't' ∷ b'a' ∷ b't' ∷ b'u' ∷ b's' ∷ []

-- What the calls of a command answer: those of `start`, whether the pid file can be read, which processes are alive, and
-- which may be sent SIGTERM.
pub record CommandReplies : Type 0 where
  pub starting : StartReplies
  pub logs : Bool
  pub readable : Bool
  pub alive : ℤ → Bool
  pub kills : ℤ → Bool

-- How `main` ends, what it leaves, and the processes that it sends SIGTERM to.
pub record Ended : Type 0 where
  pub end : End
  pub host : Host
  pub sent : List ℤ

abbrev pub ended : End → Host → Ended
ended e h = record { end = e; host = h; sent = [] }

-- the value that `main` returns for that of `start`
unfoldable pub main_end : End → End
main_end (results success) = exits 0
main_end (results failure) = exits 1
main_end (exits n) = exits n
main_end becomes = becomes
main_end waiting = waiting
main_end faults = faults

abbrev pub is_failed : ℤ → Bool
is_failed (pos n) = false
is_failed (negsuc n) = n == 0

module _ (resolve : Bytes → Bytes → Bytes) (k : CommandReplies) where
  -- `main` of srvc_lib/src/main.c, on the arguments behind the name of the program; `usage` exits with 1. The results
  -- of stop_service and check_status are dropped.
  unfoldable pub service_main : List Bytes → Host → Ended
  unfolding start stop_service main_end
  service_main [] h = ended (exits 1) h
  service_main (cmd ∷ []) h = ended (exits 1) h
  service_main (cmd ∷ pidfile ∷ rest) h =
      if same_path cmd start_word
      then if ltb (length rest) 2
        then ended (exits 1) h
        else (let r = start resolve k.starting pidfile h in ended (main_end r.0) r.1)
      else if same_path cmd stop_word
      then if length rest == 0
        then record {
          end = exits 0;
          host = h;
          sent = (stop_service resolve k.readable k.alive k.kills pidfile h).sent;
        }
        else ended (exits 1) h
      else if same_path cmd status_word
      then if length rest == 0 then ended (exits 0) h else ended (exits 1) h
      else ended (exits 1) h

  -- the command `stop` of the runner
  unfoldable pub runner_stop : Bytes → Host → Ended
  unfolding stop_service delete_pidfile
  runner_stop pidfile h =
      let s = stop_service resolve k.readable k.alive k.kills pidfile h in
      if is_failed s.result then record { end = exits 1; host = h; sent = s.sent } else record {
        end = exits 0;
        host = (delete_pidfile resolve k.starting.unlinks pidfile h).1;
        sent = s.sent;
      }

  unfoldable pub runner_status : Bytes → Host → Ended
  unfolding check_status
  runner_status pidfile h = elim (check_status resolve k.readable k.alive pidfile h) [
    | success ↦ ended (exits 0) h
    | failure ↦ ended (exits 1) h
  ]

  -- `main` of srvc_runner/src/main.c
  unfoldable pub runner_main : List Bytes → Host → Ended
  unfolding start_runner runner_stop runner_status main_end
  runner_main [] h = ended (exits 1) h
  runner_main (cmd ∷ []) h = ended (exits 1) h
  runner_main (cmd ∷ pidfile ∷ rest) h =
      if same_path cmd start_word
      then if ltb (length rest) 2
        then ended (exits 1) h
        else (let r = start_runner resolve k.logs k.starting pidfile h in ended (main_end r.0) r.1)
      else if same_path cmd stop_word
      then if length rest == 0 then runner_stop pidfile h else ended (exits 1) h
      else if same_path cmd status_word
      then if length rest == 0 then runner_status pidfile h else ended (exits 1) h
      else ended (exits 1) h

  -- Where the pid file holds the number of a process that is alive, can be read and removed, and the process may be sent
  -- signals, the command `stop` of the runner sends it SIGTERM, removes the file and exits with 0.
  pub runner_main_stop :
      (pidfile : Bytes) (pid : ℕ) (h : Host)
      → pid < 2 ^ 31
      → h.file (resolve h.cwd pidfile) ≡ some (pid_line pid)
      → k.readable ≡ true
      → k.alive (pos pid) ≡ true
      → k.kills (pos pid) ≡ true
      → k.starting.unlinks ≡ true
      → ((runner_main (stop_word ∷ pidfile ∷ []) h).end ≡ exits 0)
        × ((runner_main (stop_word ∷ pidfile ∷ []) h).sent ≡ pos pid ∷ [])
        × ((runner_main (stop_word ∷ pidfile ∷ []) h).host.file (resolve h.cwd pidfile) ≡ none)
  unfolding runner_main runner_stop stop_service read_pidfile stop_pid delete_pidfile
  runner_main_stop pidfile pid h small e r a m u =
      rw
        (
          r,
          e,
          scan_pid-pid_line pid small,
          a,
          m,
          u,
          stop_service,
          stop_pid,
          read_pidfile,
          delete_pidfile,
        )
        (refl, refl, write_file-same h.file (resolve h.cwd pidfile) none)
