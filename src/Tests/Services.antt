-- ===== src/Tests/Services.antt =====
-- Services behind pid files, and redirections, at concrete inputs.
use smtp_course_work.Base.{
  ◌≡◌, refl, Bool, true, false, none, some, List, [], ◌∷◌, ◌++◌, Bytes, success, ℤ, pos, negsuc,
  arith, ◌==◌, if◌then◌else◌,
}
use smtp_course_work.Kernel.{returns, got}
use smtp_course_work.Fd.{Reply, zero_reply, eintr_reply}
use smtp_course_work.Service.Decimal.{pid_line, scan_pid, scan_pid-pid_line}
use smtp_course_work.Service.PidFile.{Host, WaitReply, exited, interrupted, wait_service}
use smtp_course_work.Service.Start.{exits, start, results}
use smtp_course_work.Service.Main.{CommandReplies, stop_word, runner_main, runner_main_stop}
use smtp_course_work.Log.Inputs.{Watched, InputEvents, poll_round}
use smtp_course_work.Log.Counted.{active_count, Counted, poll_round_lem}
use smtp_course_work.Service.Clean.{Tidy, start-Tidy}
use smtp_course_work.Service.Stop.{smooth, start_stays}
use smtp_course_work.Log.Redir.{World, Pipe, activate_pipe, restore_redir, init_redir, create_pipe}
use smtp_course_work.Log.Restore.{Apart, prepared, Redirected, redirection_lem}

scan_pid-pid_line_example : scan_pid (pid_line 40713) ≡ some (pos 40713)
scan_pid-pid_line_example = scan_pid-pid_line 40713 (omega arith)

-- the absolute path of a path without a slash in front, by the kernel
abbrev resolve : Bytes → Bytes → Bytes
resolve d [] = d
resolve d (c ∷ p) = if c == b'/' then c ∷ p else d ++ c ∷ p

abbrev absolute : Bytes
absolute = b'/' ∷ b'p' ∷ []

abbrev relative : Bytes
relative = b'p' ∷ []

abbrev host : Host
host = record {
  file = λ p. none;
  cwd = b'/' ∷ b'h' ∷ b'/' ∷ [];
  fpidfile = none;
  sighandler_pid = negsuc 0;
}

abbrev ends_well : List WaitReply
ends_well = interrupted ∷ exited 0 ∷ []

start-Tidy_example : Tidy absolute 7 (start resolve (smooth 7 8 ends_well) absolute host)
start-Tidy_example =
    start-Tidy resolve absolute absolute (λ d. refl) (smooth 7 8 ends_well) refl host refl
      (λ e. ground (arith, e))

waited_well : wait_service ends_well ≡ returns success
unfolding wait_service
waited_well = refl

start_stays_example :
    ((start resolve (smooth 7 8 ends_well) relative host).0 ≡ results success)
    × ((start resolve (smooth 7 8 ends_well) relative host).1.file (b'/' ∷ b'h' ∷ b'/' ∷ b'p' ∷ [])
        ≡ some (pid_line 7))
start_stays_example = start_stays resolve relative host 7 8 ends_well refl refl refl waited_well

abbrev with_pid : Host
with_pid = record host { file = λ p. some (pid_line 7) }

abbrev always : ℤ → Bool
always pid = true

-- the standard output goes to the file 70, and the kernel gives 3, 4 and 5
abbrev world : World
world = record {
  r = record { saved_fd = none; fd = 0; pipe_in = 0; pipe_out = 0; pid = none };
  table = λ fd. some 70;
}

abbrev ends : Pipe
ends = record { out_fd = 4; in_fd = 5; out_end = 90; in_end = 91 }

ends-Apart : Apart 1 3 ends
ends-Apart = record {
  fd_saved = omega arith;
  fd_out = omega arith;
  fd_in = omega arith;
  saved_out = omega arith;
  saved_in = omega arith;
  out_in = omega arith;
}

abbrev answers : List Reply
answers = eintr_reply ∷ zero_reply ∷ zero_reply ∷ []

activated : (activate_pipe answers (prepared 1 3 ends world)).0 ≡ returns success
unfolding activate_pipe init_redir create_pipe
activated = refl

restored :
    (restore_redir answers (activate_pipe answers (prepared 1 3 ends world)).1).0 ≡ returns success
unfolding activate_pipe restore_redir init_redir create_pipe
restored = refl

redirection_lem_example :
    Redirected world 1 3 ends ends-Apart
      (activate_pipe answers (prepared 1 3 ends world)).1
      (restore_redir answers (activate_pipe answers (prepared 1 3 ends world)).1).1
redirection_lem_example =
    redirection_lem world 1 3 ends ends-Apart answers answers activated restored

-- every call of a command succeeds
abbrev command : CommandReplies
command = record {
  starting = smooth 7 8 ends_well;
  logs = true;
  readable = true;
  alive = always;
  kills = always;
}

runner_main_stop_example :
    ((runner_main resolve command (stop_word ∷ absolute ∷ []) with_pid).end ≡ exits 0)
    × ((runner_main resolve command (stop_word ∷ absolute ∷ []) with_pid).sent ≡ pos 7 ∷ [])
    × ((runner_main resolve command (stop_word ∷ absolute ∷ []) with_pid).host.file absolute ≡ none)
runner_main_stop_example =
    runner_main_stop resolve command absolute 7 with_pid (omega arith) refl refl refl refl refl

-- two pipes, one of which brings a line and the end of its stream
abbrev pipes : List Watched
pipes =
    record { active = true; left = []; messages = [] }
    ∷ record { active = true; left = b'x' ∷ []; messages = [] }
    ∷ []

abbrev events : List InputEvents
events =
    record {
      readable = true;
      hung_up = true;
      other = false;
      reads = got (b'l' ∷ 10 ∷ []) ∷ got [] ∷ [];
    }
    ∷ record { readable = false; hung_up = false; other = false; reads = [] }
    ∷ []

poll_round_lem_example :
    Counted (λ s. true) 16 0 2 (poll_round (λ s. true) 16 1 pipes events (active_count pipes))
poll_round_lem_example = poll_round_lem (λ s. true) 16 1 pipes events
