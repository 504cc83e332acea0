-- ===== src/Service/Start.antt =====
-- `start` of srvc_lib/src/main.c, which stays beside the service, and of srvc_runner/src/main.c, which becomes it.
use smtp_course_work.Base.{
  ℕ, Bool, List, done, abort, Status, success, failure, Bytes, pos, if◌then◌else◌,
}
use smtp_course_work.Kernel.{returns, waits, aborts}
use smtp_course_work.Service.PidFile.{
  Host, OpenReply, Opened, Daemonized, opened, exists, failed, CloseReply, ForkReply, fork_fails,
  in_child, in_parent, DaemonReplies, exits_zero, goes_on, WaitReply, daemonize, set_sighandler_pid,
  wait_service, close_pidfile, open_pidfile, delete_pidfile,
}

-- How `start` ends: its result, the exit of the process, the program that it becomes, a wait for the service, or a
-- fault.
pub data End : Type 0 where
  results : Status → End
  exits : ℕ → End
  becomes waiting faults : End

-- What the calls of `start` answer. `pid` is the process that goes on, `forked` the fork for the service, `executes`
-- whether `execvp` finds the program, and `unlinks` whether the file may be removed.
pub record StartReplies : Type 0 where
  pub opening : OpenReply
  pub daemon : DaemonReplies
  pub handles : Bool
  pub pid : ℕ
  pub closing : CloseReply
  pub forked : ForkReply
  pub executes : Bool
  pub waited : List WaitReply
  pub unlinks : Bool

module _ (resolve : Bytes → Bytes → Bytes) where
  -- the label `delete_pidfile`
  unfoldable pub clean_up : StartReplies → Bytes → Status → Host → End × Host
  unfolding delete_pidfile
  clean_up k path r h = (results r, (delete_pidfile resolve k.unlinks path h).1)

  -- `execvp`, and `exit(101)` behind it
  unfoldable pub in_service : Bool → End
  in_service executes = if executes then becomes else exits 101

  -- `fork_service` and what follows it
  unfoldable pub run_service : StartReplies → Bytes → Host → End × Host
  unfolding clean_up set_sighandler_pid wait_service in_service
  run_service k path h = elim k.forked [
    | fork_fails ↦ clean_up k path failure h
    | in_child ↦ (in_service k.executes, h)
    | in_parent service ↦
        let h' = set_sighandler_pid (pos service) h in
        elim (wait_service k.waited) [
          | waits ↦ (waiting, h')
          | aborts ↦ (faults, h')
          | returns r ↦ clean_up k path r h'
        ]
  ]

  unfoldable pub run_daemon : StartReplies → Bytes → Host → End × Host
  unfolding clean_up close_pidfile run_service
  run_daemon k path h =
      if k.handles
      then elim (close_pidfile k.closing k.pid h) [
        | abort ↦ (faults, h)
        | done (failure, h') ↦ clean_up k path failure h'
        | done (success, h') ↦ run_service k path h'
      ]
      else clean_up k path failure h

  -- the two programs up to `daemonize`, by what they go on with
  unfoldable pub after_daemonize :
      (Host → End × Host) → StartReplies → Bytes → Daemonized × Host → End × Host
  unfolding clean_up
  after_daemonize go k path (exits_zero, h) = (exits 0, h)
  after_daemonize go k path (goes_on failure, h) = clean_up k path failure h
  after_daemonize go k path (goes_on success, h) = go h

  unfoldable pub after_open :
      (Host → End × Host) → StartReplies → Bytes → Opened × Host → End × Host
  unfolding daemonize after_daemonize
  after_open go k path (failed, h) = (results failure, h)
  after_open go k path (exists, h) = (results failure, h)
  after_open go k path (opened, h) = after_daemonize go k path (daemonize k.daemon h)

  unfoldable pub start : StartReplies → Bytes → Host → End × Host
  unfolding open_pidfile after_open run_daemon
  start k path h =
      after_open (λ h'. run_daemon k path h') k path (open_pidfile resolve k.opening path h)

  -- `start` of the runner behind `daemonize`; `logs` tells whether `setup_log` finds its library. `execvp` returns
  -- only where it fails.
  unfoldable pub become_service : Bool → StartReplies → Bytes → Host → End × Host
  unfolding clean_up close_pidfile
  become_service logs k path h =
      if logs
      then if k.handles
        then elim (close_pidfile k.closing k.pid h) [
          | abort ↦ (faults, h)
          | done (failure, h') ↦ clean_up k path failure h'
          | done (success, h') ↦ if k.executes then (becomes, h') else clean_up k path failure h'
        ]
        else clean_up k path failure h
      else clean_up k path failure h

  unfoldable pub start_runner : Bool → StartReplies → Bytes → Host → End × Host
  unfolding open_pidfile after_open become_service
  start_runner logs k path h =
      after_open (λ h'. become_service logs k path h') k path
        (open_pidfile resolve k.opening path h)
