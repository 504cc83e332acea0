-- ===== src/Login/Fsm.antt =====
-- server-fsm.h and the tables of server-fsm.c: states, events, transitions, and the transition map.
use smtp_course_work.Base.{Bool, true, false}

-- `te_server_fsm_state`
pub data FsmState : Type 0 where
  st_init st_user_known st_authorization st_session st_invalid st_done : FsmState

-- `te_server_fsm_event`
pub data FsmEvent : Type 0 where
  ev_timeout ev_cmd_proceed ev_cmd_quit ev_cmd_user ev_cmd_passw ev_password_accepted : FsmEvent
  ev_password_invalid ev_too_many_attempts ev_invalid : FsmEvent

-- `te_server_fsm_trans`
pub data FsmTrans : Type 0 where
  tr_authorization_cmd_quit tr_authorization_password_accepted : FsmTrans
  tr_authorization_password_invalid tr_authorization_timeout : FsmTrans
  tr_authorization_too_many_attempts tr_init_cmd_quit tr_init_cmd_user tr_init_timeout : FsmTrans
  tr_invalid tr_session_cmd_proceed tr_session_cmd_quit tr_session_timeout : FsmTrans
  tr_user_known_cmd_passw tr_user_known_cmd_quit tr_user_known_timeout : FsmTrans

-- `server_fsm_trans_table`, and what `server_fsm_step` reads where an index is past its end: a
-- terminal state is left before the table is read, and SERVER_FSM_EV_INVALID is tested for.
unfoldable pub trans_table : FsmState → FsmEvent → FsmState × FsmTrans
trans_table st_init ev_timeout = (st_done, tr_init_timeout)
trans_table st_init ev_cmd_proceed = (st_invalid, tr_invalid)
trans_table st_init ev_cmd_quit = (st_done, tr_init_cmd_quit)
trans_table st_init ev_cmd_user = (st_user_known, tr_init_cmd_user)
trans_table st_init ev_cmd_passw = (st_invalid, tr_invalid)
trans_table st_init ev_password_accepted = (st_invalid, tr_invalid)
trans_table st_init ev_password_invalid = (st_invalid, tr_invalid)
trans_table st_init ev_too_many_attempts = (st_invalid, tr_invalid)
trans_table st_user_known ev_timeout = (st_done, tr_user_known_timeout)
trans_table st_user_known ev_cmd_proceed = (st_invalid, tr_invalid)
trans_table st_user_known ev_cmd_quit = (st_done, tr_user_known_cmd_quit)
trans_table st_user_known ev_cmd_user = (st_invalid, tr_invalid)
trans_table st_user_known ev_cmd_passw = (st_authorization, tr_user_known_cmd_passw)
trans_table st_user_known ev_password_accepted = (st_invalid, tr_invalid)
trans_table st_user_known ev_password_invalid = (st_invalid, tr_invalid)
trans_table st_user_known ev_too_many_attempts = (st_invalid, tr_invalid)
trans_table st_authorization ev_timeout = (st_done, tr_authorization_timeout)
trans_table st_authorization ev_cmd_proceed = (st_invalid, tr_invalid)
trans_table st_authorization ev_cmd_quit = (st_done, tr_authorization_cmd_quit)
trans_table st_authorization ev_cmd_user = (st_invalid, tr_invalid)
trans_table st_authorization ev_cmd_passw = (st_invalid, tr_invalid)
trans_table st_authorization ev_password_accepted = (st_session, tr_authorization_password_accepted)
trans_table st_authorization ev_password_invalid = (st_init, tr_authorization_password_invalid)
trans_table st_authorization ev_too_many_attempts = (st_done, tr_authorization_too_many_attempts)
trans_table st_session ev_timeout = (st_done, tr_session_timeout)
trans_table st_session ev_cmd_proceed = (st_session, tr_session_cmd_proceed)
trans_table st_session ev_cmd_quit = (st_done, tr_session_cmd_quit)
trans_table st_session ev_cmd_user = (st_invalid, tr_invalid)
trans_table st_session ev_cmd_passw = (st_invalid, tr_invalid)
trans_table st_session ev_password_accepted = (st_invalid, tr_invalid)
trans_table st_session ev_password_invalid = (st_invalid, tr_invalid)
trans_table st_session ev_too_many_attempts = (st_invalid, tr_invalid)
trans_table s e = (st_invalid, tr_invalid)

-- `(unsigned)state >= SERVER_FSM_ST_INVALID`
unfoldable pub is_terminal : FsmState → Bool
is_terminal st_init = false
is_terminal st_user_known = false
is_terminal st_authorization = false
is_terminal st_session = false
is_terminal st_invalid = true
is_terminal st_done = true

unfoldable pub is_st_invalid : FsmState → Bool
is_st_invalid st_init = false
is_st_invalid st_user_known = false
is_st_invalid st_authorization = false
is_st_invalid st_session = false
is_st_invalid st_invalid = true
is_st_invalid st_done = false

unfoldable pub is_st_authorization : FsmState → Bool
is_st_authorization st_init = false
is_st_authorization st_user_known = false
is_st_authorization st_authorization = true
is_st_authorization st_session = false
is_st_authorization st_invalid = false
is_st_authorization st_done = false

unfoldable pub is_st_done : FsmState → Bool
is_st_done st_init = false
is_st_done st_user_known = false
is_st_done st_authorization = false
is_st_done st_session = false
is_st_done st_invalid = false
is_st_done st_done = true
