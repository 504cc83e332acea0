-- ===== src/Login/Attempts.antt =====
-- Failed logins are counted and never end the session: -2 is not among the results of `server_authorize`.
use smtp_course_work.Base.{
  ℕ, ◌+◌, ◌≡◌, refl, ap, ◌∙◌, Bool, true, false, ◌&&◌, Option, List, [], ◌∷◌, Bytes, length, arith,
}
use smtp_course_work.Login.Fsm.{st_init, st_user_known, ev_cmd_user, ev_cmd_passw}
use smtp_course_work.Login.Parse.{parse_cmd, get_param}
use smtp_course_work.Login.State.{ServerState, user_name, pass_phrase, is_word_of, server_fsm_step}
use smtp_course_work.Login.Run.{run_command}
use smtp_course_work.Login.Session.{authorize_eq, event_step, run_commands}

-- A USER command and a PASSWORD command whose parameters are not the right pair.
pub record WrongLogin (user_cmd password_cmd : Bytes) : Type 0 where
  pub is_user : parse_cmd user_cmd ≡ ev_cmd_user
  pub is_password : parse_cmd password_cmd ≡ ev_cmd_passw
  pub wrong :
      (is_word_of (get_param true ev_cmd_user user_cmd) user_name
        && is_word_of (get_param true ev_cmd_passw password_cmd) pass_phrase)
      ≡ false

abbrev pub AllWrong : List (Bytes × Bytes) → Type 0
AllWrong [] = Unit
AllWrong ((u, p) ∷ logins) = WrongLogin u p × AllWrong logins

-- the commands of the logins, one after the other
abbrev pub commands_of : List (Bytes × Bytes) → List (Bool × Bytes)
commands_of [] = []
commands_of ((u, p) ∷ logins) = (true, u) ∷ (true, p) ∷ commands_of logins

user_step :
    (cmd : Bytes) (u p : Option Bytes) (n : ℕ)
    → parse_cmd cmd ≡ ev_cmd_user
    → run_command true cmd (record { state = st_init; user = u; password = p; attempts = n })
      ≡ record {
        state = st_user_known;
        user = get_param true ev_cmd_user cmd;
        password = p;
        attempts = n;
      }
unfolding run_command server_fsm_step
user_step cmd u p n e =
    ap
      (λ ev.
        event_step true ev cmd (record { state = st_init; user = u; password = p; attempts = n }))
      e

password_step :
    (cmd : Bytes) (u p : Option Bytes) (n : ℕ)
    → parse_cmd cmd ≡ ev_cmd_passw
    → (is_word_of u user_name && is_word_of (get_param true ev_cmd_passw cmd) pass_phrase) ≡ false
    → run_command true cmd (record { state = st_user_known; user = u; password = p; attempts = n })
      ≡ record {
        state = st_init;
        user = u;
        password = get_param true ev_cmd_passw cmd;
        attempts = n + 1;
      }
unfolding run_command server_fsm_step
password_step cmd u p n e w =
    ap
      (λ ev.
        event_step true ev cmd
          (record { state = st_user_known; user = u; password = p; attempts = n }))
      e
    ∙ authorize_eq u (get_param true ev_cmd_passw cmd) n
    ∙ (rw w refl)

-- one failed login
abbrev failed : Bytes → Bytes → ServerState → ServerState
failed user_cmd password_cmd s = record {
  state = st_init;
  user = get_param true ev_cmd_user user_cmd;
  password = get_param true ev_cmd_passw password_cmd;
  attempts = s.attempts + 1;
}

login_step :
    (user_cmd password_cmd : Bytes) (s : ServerState)
    → s.state ≡ st_init
    → WrongLogin user_cmd password_cmd
    → run_command true password_cmd (run_command true user_cmd s) ≡ failed user_cmd password_cmd s
login_step user_cmd password_cmd s h w =
    ap (λ st. run_command true password_cmd (run_command true user_cmd (record s { state = st }))) h
    ∙ ap (run_command true password_cmd) (user_step user_cmd s.user s.password s.attempts w.is_user)
    ∙ password_step password_cmd (get_param true ev_cmd_user user_cmd) s.password s.attempts
        w.is_password w.wrong

-- From the first state, after any number of failed logins one after the other, with memory for
-- the parameters, the machine is in its first state again, and each of the failures has been
-- counted.
pub failed_logins_go_on :
    (logins : List (Bytes × Bytes)) (s : ServerState)
    → s.state ≡ st_init
    → AllWrong logins
    → ((run_commands (commands_of logins) s).state ≡ st_init)
      × ((run_commands (commands_of logins) s).attempts ≡ s.attempts + length logins)
unfolding run_commands
failed_logins_go_on [] s h w = (h, omega arith)
failed_logins_go_on ((u, p) ∷ logins) s h w =
    let ih = failed_logins_go_on logins (failed u p s) refl w.1 in
    (
      ap (λ t. (run_commands (commands_of logins) t).state) (login_step u p s h w.0) ∙ ih.0,
      ap (λ t. (run_commands (commands_of logins) t).attempts) (login_step u p s h w.0)
          ∙ omega (arith, ih.1),
    )
