-- ===== src/Service/PidFile.antt =====
-- srvc_lib/src/pidfile.c, and the functions of srvc_lib/src/service.c: the pid file, and the process behind it.
use smtp_course_work.Base.{
  ℕ, Bool, Option, none, some, List, [], ◌∷◌, Outcome, done, abort, Status, success, failure, Bytes,
  ℤ, pos, negsuc, ◌==◌, if◌then◌else◌,
}
use smtp_course_work.Kernel.{Call, returns, waits}
use smtp_course_work.Service.{same_path}
use smtp_course_work.Service.Decimal.{pid_line, scan_pid}

-- The files by their absolute paths, the directory that the process is in, the file that the stream `fpidfile` is open
-- on, and `sighandler_pid`.
pub record Host : Type 0 where
  pub file : Bytes → Option Bytes
  pub cwd : Bytes
  pub fpidfile : Option Bytes
  pub sighandler_pid : ℤ

abbrev pub write_file : (Bytes → Option Bytes) → Bytes → Option Bytes → Bytes → Option Bytes
write_file file p v q = if same_path p q then v else file q

-- What `open` and `fdopen` answer where no file is in the way.
pub data OpenReply : Type 0 where
  opens no_stream denied : OpenReply

-- 0, 1 and -1
pub data Opened : Type 0 where
  opened exists failed : Opened

-- `fprintf` and `fclose`; where the latter fails, some of the bytes may be in the file.
pub data CloseReply : Type 0 where
  closes print_fails : CloseReply
  close_fails : Bytes → CloseReply

pub data ForkReply : Type 0 where
  fork_fails in_child : ForkReply
  in_parent : ℕ → ForkReply

-- the calls of `daemonize`: `getppid`, `fork`, `setsid` and `chdir`
pub record DaemonReplies : Type 0 where
  pub parent_is_init : Bool
  pub forked : ForkReply
  pub has_session : Bool
  pub moves : Bool

pub data Daemonized : Type 0 where
  exits_zero : Daemonized
  goes_on : Status → Daemonized

pub data WaitReply : Type 0 where
  exited : ℕ → WaitReply
  signaled interrupted wait_fails : WaitReply

abbrev pub root : Bytes
root = b'/' ∷ []

-- `daemonize`; a failing `chdir` is only reported.
unfoldable pub daemonize : DaemonReplies → Host → Daemonized × Host
daemonize k h = if k.parent_is_init then (goes_on failure, h) else elim k.forked [
  | fork_fails ↦ (goes_on failure, h)
  | in_parent pid ↦ (exits_zero, h)
  | in_child ↦
      if k.has_session
      then (goes_on success, if k.moves then record h { cwd = root } else h)
      else (goes_on failure, h)
]

unfoldable pub set_sighandler_pid : ℤ → Host → Host
set_sighandler_pid pid h = record h { sighandler_pid = pid }

-- The processes that the signal is sent on to.
unfoldable pub sig_handler : Host → List ℤ
sig_handler h = elim h.sighandler_pid [ negsuc n ↦ [] | pos n ↦ if n == 0 then [] else pos n ∷ [] ]

-- The child is 101 where `execvp` fails; `none` is -1.
unfoldable pub wait_service : List WaitReply → Call Status
wait_service [] = waits
wait_service (interrupted ∷ rs) = wait_service rs
wait_service (wait_fails ∷ rs) = returns failure
wait_service (signaled ∷ rs) = returns success
wait_service (exited n ∷ rs) = returns (if n == 101 then failure else success)

-- `close_pidfile`, by the process `pid`; without a stream `fprintf` faults.
unfoldable pub close_pidfile : CloseReply → ℕ → Host → Outcome (Status × Host)
unfolding pid_line
close_pidfile reply pid h = elim h.fpidfile [
  | none ↦ abort
  | some p ↦ elim reply [
    | print_fails ↦ done (failure, record h { fpidfile = none })
    | closes ↦
        done
          (success, record h { fpidfile = none; file = write_file h.file p (some (pid_line pid)) })
    | close_fails bs ↦
        done (failure, record h { fpidfile = none; file = write_file h.file p (some bs) })
  ]
]

-- `alive` is whether `kill(pid, 0)` succeeds.
unfoldable pub check_pid : (ℤ → Bool) → Option Bytes → Status
unfolding scan_pid
check_pid alive none = failure
check_pid alive (some s) = elim (scan_pid s) [
  | none ↦ failure
  | some pid ↦ if alive pid then success else failure
]

-- What `stop_service` returns, and the processes that it sends SIGTERM to.
pub record Stopped : Type 0 where
  pub result : ℤ
  pub sent : List ℤ

unfoldable pub stop_pid : (ℤ → Bool) → (ℤ → Bool) → Option Bytes → Stopped
unfolding scan_pid
stop_pid alive kills none = record { result = negsuc 0; sent = [] }
stop_pid alive kills (some s) = elim (scan_pid s) [
  | none ↦ record { result = negsuc 0; sent = [] }
  | some pid ↦
      if alive pid
      then if kills pid
        then record { result = pid; sent = pid ∷ [] }
        else record { result = negsuc 0; sent = [] }
      else record { result = pos 0; sent = [] }
]

-- `resolve` takes a directory and a path to the absolute path, as the kernel does.
module _ (resolve : Bytes → Bytes → Bytes) where
  -- O_CREAT | O_EXCL. Where `fdopen` fails, the file has been made and stays.
  unfoldable pub open_pidfile : OpenReply → Bytes → Host → Opened × Host
  open_pidfile reply path h =
      let p = resolve h.cwd path in
      elim (h.file p) [
        | some s ↦ (exists, h)
        | none ↦ elim reply [
          | denied ↦ (failed, h)
          | no_stream ↦ (failed, record h { file = write_file h.file p (some []) })
          | opens ↦ (opened, record h { file = write_file h.file p (some []); fpidfile = some p })
        ]
      ]

  -- A file that is there is removed where `unlink` is allowed to.
  unfoldable pub delete_pidfile : Bool → Bytes → Host → Status × Host
  delete_pidfile allowed path h =
      let p = resolve h.cwd path in
      elim (h.file p) [
        | none ↦ (failure, record h { fpidfile = none })
        | some s ↦
            if allowed
            then (success, record h { fpidfile = none; file = write_file h.file p none })
            else (failure, record h { fpidfile = none })
      ]

  -- `readable` tells whether `fopen` succeeds on a file that is there.
  unfoldable pub read_pidfile : Bool → Bytes → Host → Option Bytes
  read_pidfile readable path h = if readable then h.file (resolve h.cwd path) else none

  unfoldable pub check_status : Bool → (ℤ → Bool) → Bytes → Host → Status
  unfolding read_pidfile check_pid
  check_status readable alive path h = check_pid alive (read_pidfile readable path h)

  unfoldable pub stop_service : Bool → (ℤ → Bool) → (ℤ → Bool) → Bytes → Host → Stopped
  unfolding read_pidfile stop_pid
  stop_service readable alive kills path h = stop_pid alive kills (read_pidfile readable path h)
