-- ===== src/Service/Stop.antt =====
-- Stopping a service by its pid file, and the pid files that stay behind.
use smtp_course_work.Base.{
  ℕ, ◌≡◌, refl, Bool, true, false, none, some, List, [], ◌∷◌, success, failure, Bytes, ℤ, pos, ◌<◌,
  ◌^◌,
}
use smtp_course_work.Kernel.{returns}
use smtp_course_work.Service.{same_path}
use smtp_course_work.Service.Decimal.{pid_line, scan_pid-pid_line}
use smtp_course_work.Service.PidFile.{
  Host, write_file, opens, closes, in_child, in_parent, WaitReply, daemonize, set_sighandler_pid,
  wait_service, close_pidfile, open_pidfile, delete_pidfile, root, stop_service, stop_pid,
  read_pidfile,
}
use smtp_course_work.Service.Start.{
  results, StartReplies, clean_up, run_service, run_daemon, start, after_open, after_daemonize,
}
use smtp_course_work.Service.Clean.{write_file-same}

module _ (resolve : Bytes → Bytes → Bytes) (path : Bytes) (h : Host) where
  -- Where the pid file is there, `start` fails and changes nothing.
  start_exists :
      (k : StartReplies) (s : Bytes)
      → h.file (resolve h.cwd path) ≡ some s
      → start resolve k path h ≡ (results failure, h)
  unfolding start open_pidfile after_open
  start_exists k s e = rw (e, open_pidfile) refl

  -- `stop_service` sends SIGTERM to the process whose number the pid file holds, where that process is alive and may
  -- be sent signals, and returns its number; where it is not alive, it sends nothing and returns 0.
  pub stop_service_lem :
      (alive kills : ℤ → Bool) (pid : ℕ)
      → pid < 2 ^ 31
      → h.file (resolve h.cwd path) ≡ some (pid_line pid)
      → kills (pos pid) ≡ true
      → (alive (pos pid) ≡ true
          → ((stop_service resolve true alive kills path h).result ≡ pos pid)
            × ((stop_service resolve true alive kills path h).sent ≡ pos pid ∷ []))
        × (alive (pos pid) ≡ false
            → ((stop_service resolve true alive kills path h).result ≡ pos 0)
              × ((stop_service resolve true alive kills path h).sent ≡ []))
  unfolding stop_service read_pidfile stop_pid
  stop_service_lem alive kills pid small e may =
      let r = scan_pid-pid_line pid small in
      (
        λ a. rw (e, r, a, may, stop_service, stop_pid) (refl, refl),
        λ a. rw (e, r, a, stop_service, stop_pid) (refl, refl),
      )

-- the answers with which every call succeeds
abbrev pub smooth : ℕ → ℕ → List WaitReply → StartReplies
smooth pid service waited = record {
  opening = opens;
  daemon = record { parent_is_init = false; forked = in_child; has_session = true; moves = true };
  handles = true;
  pid = pid;
  closing = closes;
  forked = in_parent service;
  executes = true;
  waited = waited;
  unlinks = true;
}

-- Where the path of the pid file means another file behind `chdir`, neither is there before, every call succeeds and
-- the service ends well, `start` returns success and leaves the pid file, with the number of its own process.
pub start_stays :
    (resolve : Bytes → Bytes → Bytes) (path : Bytes) (h : Host) (pid service : ℕ)
    (waited : List WaitReply)
    → h.file (resolve h.cwd path) ≡ none
    → h.file (resolve root path) ≡ none
    → same_path (resolve h.cwd path) (resolve root path) ≡ false
    → wait_service waited ≡ returns success
    → ((start resolve (smooth pid service waited) path h).0 ≡ results success)
      × ((start resolve (smooth pid service waited) path h).1.file (resolve h.cwd path)
          ≡ some (pid_line pid))
unfolding start open_pidfile after_open after_daemonize daemonize run_daemon close_pidfile
    run_service set_sighandler_pid clean_up delete_pidfile
start_stays resolve path h pid service waited absent absent' other w =
    rw (absent, w, other, absent', open_pidfile, run_service, delete_pidfile)
      (
        refl,
        write_file-same (write_file h.file (resolve h.cwd path) (some [])) (resolve h.cwd path) _,
      )
