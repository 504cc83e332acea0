-- ===== src/Log/Logger.antt =====
-- log_lib/src/logger.c, and fork_redirs of redir.c: the redirections of the standard output and of the error output.
use smtp_course_work.Base.{ℕ, Bool, Option, some, List, Status, success, failure}
use smtp_course_work.Kernel.{Call, returns, waits, aborts}
use smtp_course_work.Fd.{Reply}
use smtp_course_work.Log.Redir.{
  Table, Redir, World, Pipe, Forked, fork_fails, child, parent, fork_failed, in_child, forked,
  init_redir, create_pipe, activate_pipe, restore_redir, restore_broken_redir, waitpid_redir,
  fork_redir,
}

-- `struct logger`, with the descriptors of the process
pub record Logger : Type 0 where
  pub out : Redir
  pub err : Redir
  pub table : Table

abbrev pub out_world : Logger → World
out_world l = record { r = l.out; table = l.table }

abbrev pub err_world : Logger → World
err_world l = record { r = l.err; table = l.table }

abbrev pub put_out : Logger → World → Logger
put_out l w = record l { out = w.r; table = w.table }

abbrev pub put_err : Logger → World → Logger
put_err l w = record l { err = w.r; table = w.table }

-- What `fileno` and `dup` return for each of the two.
unfoldable pub logger_init : Option ℕ × Option ℕ → Option ℕ × Option ℕ → Logger → Status × Logger
unfolding init_redir
logger_init out err l =
    let o = init_redir out.0 out.1 (out_world l) in
    let l₁ = put_out l o.1 in
    let e = init_redir err.0 err.1 (err_world l₁) in
    elim o.0 [ failure ↦ (failure, l₁) | success ↦ (e.0, put_err l₁ e.1) ]

-- The results -1, 0 in a child, and 1.
pub data LoggerStart : Type 0 where
  start_failed logs all_started : LoggerStart

-- the calls of `fork_redir`
pub record ForkReplies : Type 0 where
  pub pipe : Option Pipe
  pub forked : Forked
  pub replies : List Reply

-- Where the second redirection fails, the first stays active.
unfoldable pub logger_start : ForkReplies → ForkReplies → Logger → Call LoggerStart × Logger
unfolding fork_redir
logger_start ko ke l =
    let o = fork_redir ko.pipe ko.forked ko.replies (out_world l) in
    let l₁ = put_out l o.1 in
    let e = fork_redir ke.pipe ke.forked ke.replies (err_world l₁) in
    let l₂ = put_err l₁ e.1 in
    elim o.0 [
      | waits ↦ (waits, l₁)
      | aborts ↦ (aborts, l₁)
      | returns fork_failed ↦ (returns start_failed, l₁)
      | returns in_child ↦ (returns logs, l₁)
      | returns (forked pid) ↦ elim e.0 [
        | waits ↦ (waits, l₂)
        | aborts ↦ (aborts, l₂)
        | returns fork_failed ↦ (returns start_failed, l₂)
        | returns in_child ↦ (returns logs, l₂)
        | returns (forked pid') ↦ (returns all_started, l₂)
      ]
    ]

-- The results of the two `restore_redir` are dropped, unless they never come.
unfoldable pub logger_stop : List Reply → List Reply → Logger → Call (Unit {0}) × Logger
unfolding restore_redir waitpid_redir
logger_stop ro re l =
    let o = restore_redir ro (out_world l) in
    let l₁ = put_out l o.1 in
    let e = restore_redir re (err_world l₁) in
    let l₂ = put_err l₁ e.1 in
    elim o.0 [
      | waits ↦ (waits, l₁)
      | aborts ↦ (aborts, l₁)
      | returns s ↦ elim e.0 [
        | waits ↦ (waits, l₂)
        | aborts ↦ (aborts, l₂)
        | returns s' ↦
            (returns tt, record l₂ { out = waitpid_redir l₂.out; err = waitpid_redir l₂.err })
      ]
    ]

-- `sigpipe_handler` of log_lib/src/sig_log.c, where a logger is set: each redirection whose process is gone is taken
-- back. `out_exists` and `err_exists` tell whether the processes are there.
unfoldable pub sigpipe_handler :
    Bool → Bool → List Reply → List Reply → Logger → Call (Unit {0}) × Logger
unfolding restore_broken_redir
sigpipe_handler out_exists err_exists ro re l =
    let o = restore_broken_redir out_exists ro (out_world l) in
    let l₁ = put_out l o.1 in
    let e = restore_broken_redir err_exists re (err_world l₁) in
    elim o.0 [ returns u ↦ (e.0, put_err l₁ e.1) | other ↦ (other, l₁) ]

-- The pipes of `fork_redirs`, for the two redirections of a logger; those made before a failure stay open.
unfoldable pub create_pipes : Option Pipe → Option Pipe → Logger → Status × Logger
unfolding create_pipe
create_pipes po pe l =
    let o = create_pipe po (out_world l) in
    let l₁ = put_out l o.1 in
    let e = create_pipe pe (err_world l₁) in
    elim o.0 [ failure ↦ (failure, l₁) | success ↦ (e.0, put_err l₁ e.1) ]

-- the parent's part of `fork_redirs`
unfoldable pub activate_pipes : List Reply → List Reply → ℕ → Logger → Call LoggerStart × Logger
unfolding activate_pipe
activate_pipes ro re pid l =
    let o = activate_pipe ro (out_world l) in
    let l₁ = record (put_out l o.1) { out = record o.1.r { pid = some pid } } in
    let e = activate_pipe re (err_world l₁) in
    let l₂ = record (put_err l₁ e.1) { err = record e.1.r { pid = some pid } } in
    elim o.0 [
      | waits ↦ (waits, put_out l o.1)
      | aborts ↦ (aborts, put_out l o.1)
      | returns s ↦ elim e.0 [
        | waits ↦ (waits, put_err l₁ e.1)
        | aborts ↦ (aborts, put_err l₁ e.1)
        | returns s' ↦ (returns all_started, l₂)
      ]
    ]

-- `logger_polled_start`: one process for both pipes, whose part is `poll_inputs`
unfoldable pub logger_polled_start :
    Option Pipe
    → Option Pipe
    → Forked
    → List Reply
    → List Reply
    → Logger
    → Call LoggerStart × Logger
unfolding create_pipes activate_pipes
logger_polled_start po pe f ro re l =
    let c = create_pipes po pe l in
    elim c.0 [
      | failure ↦ (returns start_failed, c.1)
      | success ↦ elim f [
        | fork_fails ↦ (returns start_failed, c.1)
        | child ↦ (returns logs, c.1)
        | parent pid ↦ activate_pipes ro re pid c.1
      ]
    ]
