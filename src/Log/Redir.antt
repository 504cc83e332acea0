-- ===== src/Log/Redir.antt =====
-- log_lib/src/redir.c and logger.c: the output of a process, redirected through a pipe to a process that logs it.
use smtp_course_work.Base.{
  ℕ, Bool, Option, none, some, List, [], ◌∷◌, Status, success, failure, ◌==◌, if◌then◌else◌,
}
use smtp_course_work.Kernel.{Call, returns, waits, aborts}
use smtp_course_work.Fd.{Reply, zero_reply, eintr_reply, error_reply, safe_close}

-- The open descriptors of the process, each with the file behind it.
abbrev pub Table : Type 0
Table = ℕ → Option ℕ

abbrev pub set_fd : Table → ℕ → Option ℕ → Table
set_fd t fd file i = if fd == i then file else t i

-- `struct redir`; `none` is -1. The file `f` is the one with the descriptor `fd`.
pub record Redir : Type 0 where
  pub saved_fd : Option ℕ
  pub fd : ℕ
  pub pipe_in : ℕ
  pub pipe_out : ℕ
  pub pid : Option ℕ

-- A redirection and the descriptors.
pub record World : Type 0 where
  pub r : Redir
  pub table : Table

-- What `pipe` returns: two descriptors and the two ends behind them.
pub record Pipe : Type 0 where
  pub out_fd : ℕ
  pub in_fd : ℕ
  pub out_end : ℕ
  pub in_end : ℕ

-- `fd` is what `fileno` returns, and `saved` what `dup` does.
unfoldable pub init_redir : Option ℕ → Option ℕ → World → Status × World
init_redir none saved w = (failure, record w { r = record w.r { pid = none } })
init_redir (some fd) none w =
    (failure, record w { r = record w.r { pid = none; fd = fd; saved_fd = none } })
init_redir (some fd) (some saved) w = (
  success,
  record {
    r = record w.r { pid = none; fd = fd; saved_fd = some saved };
    table = set_fd w.table saved (w.table fd);
  },
)

unfoldable pub create_pipe : Option Pipe → World → Status × World
create_pipe none w = (failure, w)
create_pipe (some p) w = (
  success,
  record {
    r = record w.r { pipe_out = p.out_fd; pipe_in = p.in_fd };
    table = set_fd (set_fd w.table p.out_fd (some p.out_end)) p.in_fd (some p.in_end);
  },
)

-- `while (dup2(from, to) == -1)`
unfoldable pub dup2_retry : List Reply → ℕ → ℕ → Table → Call Status × List Reply × Table
dup2_retry [] from to t = (waits, [], t)
dup2_retry (zero_reply ∷ rs) from to t = (returns success, rs, set_fd t to (t from))
dup2_retry (eintr_reply ∷ rs) from to t = dup2_retry rs from to t
dup2_retry (error_reply ∷ rs) from to t = (returns failure, rs, t)

-- `safe_close` of a descriptor
abbrev pub closed_by : Call Status → ℕ → Table → Table
closed_by (returns success) fd t = set_fd t fd none
closed_by _ fd t = t

unfoldable pub activate_pipe : List Reply → World → Call Status × World
unfolding dup2_retry safe_close
activate_pipe rs w =
    let d = dup2_retry rs w.r.pipe_in w.r.fd w.table in
    let c = safe_close d.1 in
    elim d.0 [
      | returns success ↦ (c.0, record w { table = closed_by c.0 w.r.pipe_out d.2 })
      | other ↦ (other, record w { table = d.2 })
    ]

-- behind the closing of `pipe_in`
unfoldable pub restore_fd : ℕ → Call Status → List Reply → World → Call Status × World
unfolding dup2_retry
restore_fd saved closing rs w =
    let d = dup2_retry rs saved w.r.fd (closed_by closing w.r.pipe_in w.table) in
    elim closing [
      | returns s ↦ elim d.0 [
        | returns success ↦
            (returns success, record { r = record w.r { saved_fd = none }; table = d.2 })
        | other ↦ (other, record w { table = d.2 })
      ]
      | other ↦ (other, w)
    ]

unfoldable pub restore_redir : List Reply → World → Call Status × World
unfolding safe_close restore_fd
restore_redir rs w = elim w.r.saved_fd [
  | none ↦ (returns failure, w)
  | some saved ↦ restore_fd saved (safe_close rs).0 (safe_close rs).1 w
]

-- `exists` tells whether `kill(pid, 0)` succeeds.
unfoldable pub restore_broken_redir : Bool → List Reply → World → Call (Unit {0}) × World
unfolding restore_redir
restore_broken_redir exists rs w = elim w.r.saved_fd [
  | none ↦ (returns tt, w)
  | some saved ↦
      if exists
      then (returns tt, w)
      else (let u = restore_redir rs w in
          elim u.0 [
            | waits ↦ (waits, u.1)
            | aborts ↦ (aborts, u.1)
            | returns s ↦
                (returns tt, record { r = record u.1.r { pid = none }; table = u.1.table })
          ])
]

-- The error of `waitpid` is only reported.
unfoldable pub waitpid_redir : Redir → Redir
waitpid_redir r = record r { pid = none }

-- What `fork` returns.
pub data Forked : Type 0 where
  fork_fails child : Forked
  parent : ℕ → Forked

-- What `fork_redir` returns in the parent, -1 or a process, or that this is the child, whose part is `process_input`.
pub data ForkResult : Type 0 where
  fork_failed in_child : ForkResult
  forked : ℕ → ForkResult

-- The result of `activate_pipe` is ignored, unless it never comes.
unfoldable pub fork_redir : Option Pipe → Forked → List Reply → World → Call ForkResult × World
unfolding create_pipe activate_pipe
fork_redir pipe f rs w = elim (create_pipe pipe w).0 [
  | failure ↦ (returns fork_failed, (create_pipe pipe w).1)
  | success ↦
      let c = (create_pipe pipe w).1 in
      elim f [
        | fork_fails ↦ (returns fork_failed, record c { r = record c.r { pid = none } })
        | child ↦ (returns in_child, c)
        | parent pid ↦
            (let a = activate_pipe rs (record c { r = record c.r { pid = some pid } }) in
              elim a.0 [
                | returns s ↦ (returns (forked pid), a.1)
                | waits ↦ (waits, a.1)
                | aborts ↦ (aborts, a.1)
              ])
      ]
]
