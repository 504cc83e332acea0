-- ===== src/Login/State.antt =====
-- server-state.c, server-cmd.c and `server_fsm_step` of server-fsm.c.
use smtp_course_work.Base.{
  ℕ, ◌+◌, Bool, false, ◌&&◌, Option, none, some, [], ◌∷◌, Status, success, failure, Bytes, bytes_eq,
  if◌then◌else◌,
}
use smtp_course_work.Login.Fsm.{
  FsmState, st_init, st_invalid, FsmEvent, ev_cmd_user, ev_cmd_passw, FsmTrans, tr_init_cmd_user,
  tr_user_known_cmd_passw, trans_table, is_terminal,
}
use smtp_course_work.Login.Parse.{get_param}

-- `struct server_state_t`; `none` is NULL.
pub record ServerState : Type 0 where
  pub state : FsmState
  pub user : Option Bytes
  pub password : Option Bytes
  pub attempts : ℕ

unfoldable pub init_state : ServerState
init_state = record { state = st_init; user = none; password = none; attempts = 0 }

unfoldable pub free_state : ServerState → ServerState
unfolding init_state
free_state s = init_state

-- `got` is the `malloc` of the parameter.
unfoldable pub server_cmd_user : Bool → Bytes → ServerState → Status × ServerState
server_cmd_user got cmd s = (success, record s { user = get_param got ev_cmd_user cmd })

unfoldable pub server_cmd_password : Bool → Bytes → ServerState → Status × ServerState
server_cmd_password got cmd s = (success, record s { password = get_param got ev_cmd_passw cmd })

-- The results 0 and -1 of `server_authorize`, and the -2 that its caller knows.
pub data AuthResult : Type 0 where
  accepted rejected too_many : AuthResult

abbrev pub user_name : Bytes
user_name = b'u' ∷ b's' ∷ b'e' ∷ b'r' ∷ []

abbrev pub pass_phrase : Bytes
pass_phrase = b'p' ∷ b'a' ∷ b's' ∷ b's' ∷ b'w' ∷ b'o' ∷ b'r' ∷ b'd' ∷ []

-- `p && !strcmp(p, word)`
unfoldable pub is_word_of : Option Bytes → Bytes → Bool
is_word_of none word = false
is_word_of (some p) word = bytes_eq p word

unfoldable pub server_authorize : ServerState → AuthResult × ServerState
unfolding is_word_of
server_authorize s =
    if is_word_of s.user user_name && is_word_of s.password pass_phrase
    then (accepted, s)
    else (rejected, record s { attempts = s.attempts + 1 })

-- `if (server_cmd_...(cmd, state)) nxtSt = SERVER_FSM_ST_INVALID`
unfoldable pub state_after : FsmState → Status × ServerState → FsmState × ServerState
state_after next (success, s) = (next, s)
state_after next (failure, s) = (st_invalid, s)

-- The switch over the transitions; those that are not named have no action.
unfoldable pub run_transition :
    Bool → FsmTrans → FsmState → Bytes → ServerState → FsmState × ServerState
unfolding state_after server_cmd_user server_cmd_password
run_transition got tr_init_cmd_user next cmd s = state_after next (server_cmd_user got cmd s)
run_transition got tr_user_known_cmd_passw next cmd s =
    state_after next (server_cmd_password got cmd s)
run_transition got other next cmd s = (next, s)

-- `server_fsm_step`: the next state, and the server's state as the action leaves it. A command that is NULL
-- goes with the events that no action reads the command of; it is the empty string here.
unfoldable pub server_fsm_step :
    Bool → FsmState → FsmEvent → Bytes → ServerState → FsmState × ServerState
unfolding is_terminal trans_table run_transition
server_fsm_step got current event cmd s =
    if is_terminal current
    then (st_init, s)
    else (let (next, trans) = trans_table current event in run_transition got trans next cmd s)
