-- ===== src/Login/Session.antt =====
-- A session is reached by the right name and password alone.
use smtp_course_work.Base.{
  ℕ, ◌+◌, ◌≡◌, refl, Bool, true, ◌&&◌, Option, none, some, List, [], ◌∷◌, Bytes, bytes_eq_iff,
  if◌then◌else◌, ap, arith, Bool-cases, inl, inr,
}
use smtp_course_work.Login.Fsm.{
  FsmState, st_init, st_user_known, st_authorization, st_session, st_invalid, st_done, FsmEvent,
  ev_timeout, ev_cmd_quit, ev_cmd_passw, is_st_invalid,
}
use smtp_course_work.Login.Parse.{parse_cmd, get_param}
use smtp_course_work.Login.State.{
  ServerState, init_state, user_name, pass_phrase, is_word_of, server_authorize, server_fsm_step,
}
use smtp_course_work.Login.Run.{authorize, run_command}

-- Between two commands the machine is in one of four states, and in a session the name and the password are
-- the right ones.
abbrev pub Sound : FsmState → Option Bytes → Option Bytes → Type 0
Sound st_init u p = Unit
Sound st_user_known u p = Unit
Sound st_authorization u p = ⊥
Sound st_session u p = (u ≡ some user_name) × (p ≡ some pass_phrase)
Sound st_invalid u p = ⊥
Sound st_done u p = Unit

pub record IsSound (s : ServerState) : Type 0 where
  pub sound : Sound s.state s.user s.password

is_word_of-eq : (p : Option Bytes) (word : Bytes) → is_word_of p word ≡ true → p ≡ some word
unfolding is_word_of
is_word_of-eq none word h = cc
is_word_of-eq (some p) word h = ap some ((bytes_eq_iff p word).0 h)

abbrev server : FsmState → Option Bytes → Option Bytes → ℕ → ServerState
server st u p n = record { state = st; user = u; password = p; attempts = n }

abbrev credentials : Option Bytes → Option Bytes → Bool
credentials u p = is_word_of u user_name && is_word_of p pass_phrase

-- From authorization the machine goes to a session, if the credentials are right, and else to its first state,
-- with the attempt counted.
pub authorize_eq :
    (u p : Option Bytes) (n : ℕ)
    → authorize (server st_authorization u p n) ≡ (
        if is_word_of u user_name && is_word_of p pass_phrase
        then server st_session u p n
        else server st_init u p (n + 1))
unfolding authorize server_fsm_step server_authorize
authorize_eq u p n = elim (Bool-cases (credentials u p)) [
  | inl right ↦ rw right refl
  | inr wrong ↦ rw wrong refl
]

authorize-IsSound :
    (u p : Option Bytes) (n : ℕ) → IsSound (authorize (server st_authorization u p n))
authorize-IsSound u p n = rw (authorize_eq u p n) (elim (Bool-cases (credentials u p)) [
  | inl right ↦ rw right (record {
    sound = (is_word_of-eq u user_name (ground arith), is_word_of-eq p pass_phrase (ground arith));
  })
  | inr wrong ↦ rw wrong (record { sound = tt })
])

-- `run_command` with the event of the command given
abbrev pub event_step : Bool → FsmEvent → Bytes → ServerState → ServerState
unfolding run_command
event_step got event cmd s =
    let (next, s') = server_fsm_step got s.state event cmd s in
    if is_st_invalid next then s' else authorize (record s' { state = next })

event_step-IsSound :
    (st : FsmState) (event : FsmEvent) (got : Bool) (cmd : Bytes) (u p : Option Bytes) (n : ℕ)
    → Sound st u p
    → IsSound (event_step got event cmd (server st u p n))
unfolding run_command server_fsm_step authorize
event_step-IsSound st_init ev_timeout got cmd u p n h = record { sound = tt }
event_step-IsSound st_init _ got cmd u p n h = record { sound = tt }
event_step-IsSound st_user_known ev_cmd_passw got cmd u p n h =
    authorize-IsSound u (get_param got ev_cmd_passw cmd) n
event_step-IsSound st_user_known _ got cmd u p n h = record { sound = tt }
event_step-IsSound st_authorization event got cmd u p n h = absurd h
event_step-IsSound st_session ev_timeout got cmd u p n h = record { sound = tt }
event_step-IsSound st_session ev_cmd_quit got cmd u p n h = record { sound = tt }
event_step-IsSound st_session _ got cmd u p n h = record { sound = h }
event_step-IsSound st_invalid event got cmd u p n h = absurd h
event_step-IsSound st_done event got cmd u p n h = record { sound = tt }

run_command-IsSound :
    (got : Bool) (cmd : Bytes) (s : ServerState) → IsSound s → IsSound (run_command got cmd s)
unfolding run_command
run_command-IsSound got cmd s v =
    event_step-IsSound s.state (parse_cmd cmd) got cmd s.user s.password s.attempts v.sound

-- the commands of a session, in order, each with the `malloc` of its parameter
unfoldable pub run_commands : List (Bool × Bytes) → ServerState → ServerState
run_commands [] s = s
run_commands ((got, cmd) ∷ cmds) s = run_commands cmds (run_command got cmd s)

run_commands-IsSound :
    (cmds : List (Bool × Bytes)) (s : ServerState) → IsSound s → IsSound (run_commands cmds s)
unfolding run_commands
run_commands-IsSound [] s v = v
run_commands-IsSound ((got, cmd) ∷ cmds) s v =
    run_commands-IsSound cmds (run_command got cmd s) (run_command-IsSound got cmd s v)

Sound-session :
    (st : FsmState) (u p : Option Bytes)
    → Sound st u p
    → st ≡ st_session
    → (u ≡ some user_name) × (p ≡ some pass_phrase)
Sound-session st u p h e = rw e at h

-- After any commands from the start, also malformed ones and with allocations that fail, a machine that is in a
-- session holds the right name and the right password.
pub session_needs_credentials :
    (cmds : List (Bool × Bytes))
    → (run_commands cmds init_state).state ≡ st_session
    → ((run_commands cmds init_state).user ≡ some user_name)
      × ((run_commands cmds init_state).password ≡ some pass_phrase)
unfolding init_state
session_needs_credentials cmds e =
    let s = run_commands cmds init_state in
    Sound-session s.state s.user s.password
      (run_commands-IsSound cmds init_state (record { sound = tt })).sound e
