-- ===== src/Service/Clean.antt =====
-- The pid file is there while the service runs, and gone when `start` returns.
use smtp_course_work.Base.{
  ℕ, ◌≡◌, ◌≢◌, inl, inr, refl, sym, ap, ◌∙◌, subst, Bool, true, false, Option, none, some, List, [],
  ◌∷◌, Status, success, failure, Bytes, pos, ◌==◌, arith, Bool-cases,
}
use smtp_course_work.Kernel.{aborts, Call-cases}
use smtp_course_work.Service.{same_path}
use smtp_course_work.Service.Decimal.{pid_line}
use smtp_course_work.Service.PidFile.{
  Host, Daemonized, write_file, OpenReply, opens, no_stream, denied, CloseReply, closes,
  print_fails, close_fails, ForkReply, fork_fails, in_child, in_parent, DaemonReplies, exits_zero,
  goes_on, WaitReply, exited, signaled, interrupted, wait_fails, daemonize, set_sighandler_pid,
  wait_service, close_pidfile, open_pidfile, delete_pidfile,
}
use smtp_course_work.Service.Start.{
  End, results, exits, becomes, waiting, faults, StartReplies, clean_up, in_service, run_service,
  run_daemon, start, after_open, after_daemonize,
}

self : (a : ℕ) → (a == a) ≡ true
self a = ground arith

same_path_refl : (p : Bytes) → same_path p p ≡ true
same_path_refl [] = refl
same_path_refl (c ∷ p) = rw (self c) (same_path_refl p)

pub write_file-same :
    (file : Bytes → Option Bytes) (p : Bytes) (v : Option Bytes) → write_file file p v p ≡ v
write_file-same file p v = rw (same_path_refl p) refl

-- What `start` leaves at the path of its pid file: nothing where it returns, and the number of the process where it
-- goes on beside the service or as the service.
abbrev pub Tidy : Bytes → ℕ → End × Host → Type 0
Tidy p pid (results r, h) = h.file p ≡ none
Tidy p pid (waiting, h) = h.file p ≡ some (pid_line pid)
Tidy p pid (becomes, h) = h.file p ≡ some (pid_line pid)
Tidy p pid (exits n, h) = Unit
Tidy p pid (faults, h) = ⊥

wait_service-runs : (rs : List WaitReply) → wait_service rs ≢ aborts
unfolding wait_service
wait_service-runs [] e = ground (arith, e)
wait_service-runs (interrupted ∷ rs) e = wait_service-runs rs e
wait_service-runs (wait_fails ∷ rs) e = ground (arith, e)
wait_service-runs (signaled ∷ rs) e = ground (arith, e)
wait_service-runs (exited n ∷ rs) e = ground (arith, e)

module _ (resolve : Bytes → Bytes → Bytes) (path p : Bytes)
    (fixed : (d : Bytes) → resolve d path ≡ p) (k : StartReplies) (unlinks : k.unlinks ≡ true) where
  -- the file is there, and the stream, if any, is open on it
  clean_up-Tidy :
      (r : Status) (h : Host) (s : Bytes)
      → h.file p ≡ some s
      → Tidy p k.pid (clean_up resolve k path r h)
  unfolding clean_up delete_pidfile
  clean_up-Tidy r h s e =
      rw (ap h.file (fixed h.cwd) ∙ e, unlinks, clean_up, delete_pidfile)
        (rw (fixed h.cwd) (write_file-same h.file p none))

  child-Tidy :
      (executes : Bool) (h : Host)
      → h.file p ≡ some (pid_line k.pid)
      → Tidy p k.pid (in_service resolve executes, h)
  unfolding in_service
  child-Tidy true h e = e
  child-Tidy false h e = tt

  -- what `run_service` makes of the fork
  forked_lem :
      (f : ForkReply) (h : Host)
      → h.file p ≡ some (pid_line k.pid)
      → Tidy p k.pid (run_service resolve (record k { forked = f }) path h)
  unfolding run_service set_sighandler_pid
  forked_lem fork_fails h e = clean_up-Tidy failure h (pid_line k.pid) e
  forked_lem in_child h e = child-Tidy k.executes h e
  forked_lem (in_parent service) h e = elim (Call-cases (wait_service k.waited)) [
    | inl (r, w) ↦
        rw (w, run_service)
          (clean_up-Tidy r (set_sighandler_pid (pos service) h) (pid_line k.pid) e)
    | inr (inl w) ↦ rw (w, run_service) e
    | inr (inr w) ↦ absurd (wait_service-runs k.waited w)
  ]

  -- the file is there, and the stream is open on it
  abbrev IsOpen : Host → Type 0
  IsOpen h = (h.file p ≡ some []) × (h.fpidfile ≡ some p)

  closed_lem :
      (c : CloseReply) (h : Host)
      → IsOpen h
      → Tidy p k.pid (run_daemon resolve (record k { closing = c; handles = true }) path h)
  unfolding run_daemon close_pidfile
  closed_lem closes h o =
      rw (o.1, run_daemon, close_pidfile)
        (forked_lem k.forked
          (record h { fpidfile = none; file = write_file h.file p (some (pid_line k.pid)) })
          (write_file-same h.file p (some (pid_line k.pid))))
  closed_lem print_fails h o =
      rw (o.1, run_daemon, close_pidfile)
        (clean_up-Tidy failure (record h { fpidfile = none }) [] o.0)
  closed_lem (close_fails bs) h o =
      rw (o.1, run_daemon, close_pidfile)
        (clean_up-Tidy failure (record h { fpidfile = none; file = write_file h.file p (some bs) })
          bs (write_file-same h.file p (some bs)))

  daemon_lem : (h : Host) → IsOpen h → Tidy p k.pid (run_daemon resolve k path h)
  unfolding run_daemon
  daemon_lem h o = elim (Bool-cases k.handles) [
    | inl a ↦
        subst (λ b. Tidy p k.pid (run_daemon resolve (record k { handles = b }) path h)) (sym a)
          (closed_lem k.closing h o)
    | inr a ↦ rw (a, run_daemon) (clean_up-Tidy failure h [] o.0)
  ]

  forked-IsOpen :
      (f : ForkReply) (d : DaemonReplies) (h : Host)
      → IsOpen h
      → IsOpen (daemonize (record d { parent_is_init = false; forked = f }) h).1
  unfolding daemonize
  forked-IsOpen fork_fails d h o = o
  forked-IsOpen (in_parent pid) d h o = o
  forked-IsOpen in_child d h o = elim (Bool-cases d.has_session) [
    | inr a ↦ rw (a, daemonize) o
    | inl a ↦ elim (Bool-cases d.moves) [
      | inl b ↦ rw (a, b, daemonize) o
      | inr b ↦ rw (a, b, daemonize) o
    ]
  ]

  daemonize-IsOpen : (d : DaemonReplies) (h : Host) → IsOpen h → IsOpen (daemonize d h).1
  unfolding daemonize
  daemonize-IsOpen d h o = elim (Bool-cases d.parent_is_init) [
    | inl a ↦ rw (a, daemonize) o
    | inr a ↦ rw a (forked-IsOpen d.forked d h o)
  ]

  after_lem :
      (r : Daemonized × Host)
      → IsOpen r.1
      → Tidy p k.pid (after_daemonize resolve (λ h'. run_daemon resolve k path h') k path r)
  unfolding after_daemonize
  after_lem (exits_zero, h) o = tt
  after_lem (goes_on failure, h) o = clean_up-Tidy failure h [] o.0
  after_lem (goes_on success, h) o = daemon_lem h o

  open_lem :
      (r : OpenReply) (h : Host)
      → h.file p ≡ none
      → r ≢ no_stream
      → Tidy p k.pid (
          after_open resolve
            (λ h'. run_daemon resolve k path h')
            k
            path
            (open_pidfile resolve r path h))
  unfolding open_pidfile after_open
  open_lem denied h absent ok = rw (ap h.file (fixed h.cwd) ∙ absent, open_pidfile) absent
  open_lem no_stream h absent ok = absurd (ok refl)
  open_lem opens h absent ok =
      let q = resolve h.cwd path in
      let h₁ : Host = record h { file = write_file h.file q (some []); fpidfile = some q } in
      rw (ap h.file (fixed h.cwd) ∙ absent, open_pidfile)
        (after_lem (daemonize k.daemon h₁) (
          daemonize-IsOpen k.daemon h₁
            (rw (fixed h.cwd) (write_file-same h.file p (some [])), ap some (fixed h.cwd))))

  -- Where the path of the pid file means the same file from every directory, nothing is there before `start`, `fdopen`
  -- makes its stream and `unlink` is allowed: when `start` returns the file is gone, with every result; and while it
  -- waits for the service the file is there, with the number of the process that waits.
  pub start-Tidy :
      (h : Host) → h.file p ≡ none → k.opening ≢ no_stream → Tidy p k.pid (start resolve k path h)
  unfolding start open_pidfile after_open
  start-Tidy h absent ok = open_lem k.opening h absent ok
