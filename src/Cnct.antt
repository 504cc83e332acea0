-- ===== src/Cnct.antt =====
-- server_lib: a client connection (cnct.c, cnct.h). Each operation runs under the connection's mutex, so that
-- it is one step; a mutex call that fails stops the process and is not modelled.
pub mod Lifetime
use smtp_course_work.Base.{
  ℕ, zero, suc, ◌+◌, ◌-◌, ◌*◌, Bool, true, false, ◌&&◌, Option, none, some, Outcome, done, abort,
  Status, success, failure, Bytes, ◌==◌, if◌then◌else◌,
}
use smtp_course_work.Buffer.{Buffer, init_buffer, reset_buffer, destroy_buffer}

-- `enum cnct_state`
pub data CnctState : Type 0 where
  cnct_shut cnct_open cnct_wait : CnctState

-- `struct cnct`. `none` for `fd` is a negative descriptor. A connection of the poll server has its
-- descriptor in the server's array, and passes it in where the code reads `pollfd->fd`.
pub record Cnct : Type 0 where
  pub fd : Option ℕ
  pub buf : Buffer
  pub queue_cnt : ℕ
  pub state : CnctState

-- BUF_SIZE
abbrev pub buf_size : ℕ
buf_size = 128 * 1024

-- `fd < 0 ? CNCT_SHUT : CNCT_OPEN`
abbrev pub state_of_fd : Option ℕ → CnctState
state_of_fd none = cnct_shut
state_of_fd (some n) = cnct_open

-- Its assertion that `pollfd` is NULL holds: `init_fd_cnct`, which alone calls it, has just stored NULL there.
unfoldable pub reset_fd_cnct : Cnct → Option ℕ → Cnct
unfolding reset_buffer
reset_fd_cnct c fd = record {
  fd = fd;
  queue_cnt = 0;
  state = state_of_fd fd;
  buf = reset_buffer c.buf;
}

unfoldable pub reset_poll_cnct : Cnct → Option ℕ → Cnct
unfolding reset_buffer
reset_poll_cnct c pollfd = record c {
  queue_cnt = 0;
  state = state_of_fd pollfd;
  buf = reset_buffer c.buf;
}

-- `mutex` tells whether `pthread_mutex_init` succeeds, and `block` is what `malloc` returns; the result
-- `none` is -1. The buffer's size is BUF_SIZE.
unfoldable pub init_fd_cnct : Bool → Option Bytes → Option ℕ → Option Cnct
unfolding reset_fd_cnct
init_fd_cnct mutex none fd = none
init_fd_cnct mutex (some block) fd =
    if mutex
    then some (
        reset_fd_cnct
          (record {
            fd = none;
            buf = (init_buffer (some block) buf_size).1;
            queue_cnt = 0;
            state = cnct_shut;
          })
          fd)
    else none

unfoldable pub init_poll_cnct : Bool → Option Bytes → Option ℕ → Option Cnct
unfolding init_fd_cnct
init_poll_cnct mutex block pollfd = elim (init_fd_cnct mutex block pollfd) [
  | none ↦ none
  | some c ↦ some (record c { fd = none })
]

unfoldable pub destroy_cnct : Cnct → Outcome Cnct
destroy_cnct c = if c.queue_cnt == 0 then done (record c { buf = destroy_buffer c.buf }) else abort

unfoldable pub is_open : CnctState → Bool
is_open cnct_shut = false
is_open cnct_open = true
is_open cnct_wait = false

unfoldable pub is_wait : CnctState → Bool
is_wait cnct_shut = false
is_wait cnct_open = false
is_wait cnct_wait = true

unfoldable pub inc_queue_cnt : Cnct → Outcome Cnct
unfolding is_open
inc_queue_cnt c = if is_open c.state then done (record c { queue_cnt = c.queue_cnt + 1 }) else abort

-- A count that falls below 0 stops the process by the assertion.
unfoldable pub dec_queue_cnt : Cnct → Outcome Cnct
unfolding is_wait
dec_queue_cnt c =
    if c.queue_cnt == 0
    then abort
    else if is_wait c.state && ((c.queue_cnt - 1) == 0)
    then done (record c { queue_cnt = c.queue_cnt - 1; state = cnct_shut })
    else done (record c { queue_cnt = c.queue_cnt - 1 })

unfoldable pub is_cnct_queue_empty : Cnct → Bool
is_cnct_queue_empty c = c.queue_cnt == 0

unfoldable pub cnct_state : Cnct → CnctState
cnct_state c = c.state

unfoldable pub shutdown_cnct : Cnct → CnctState × Cnct
shutdown_cnct c =
    let s = if c.queue_cnt == 0 then cnct_shut else cnct_wait in (s, record c { state = s })
