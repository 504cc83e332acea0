-- ===== src/Tests/Logins.antt =====
-- The login machine at concrete inputs.
use smtp_course_work.Base.{◌≡◌, ◌+◌, refl, true, some, [], ◌∷◌, Bytes}
use smtp_course_work.Login.Fsm.{
  st_init, st_session, st_invalid, ev_cmd_user, ev_cmd_passw, tr_invalid, trans_table, is_terminal,
}
use smtp_course_work.Login.Parse.{is_space, is_word, parse_cmd, get_param, user_word, password_word}
use smtp_course_work.Login.State.{
  init_state, user_name, pass_phrase, is_word_of, server_authorize, server_fsm_step,
}
use smtp_course_work.Login.Run.{run_command}
use smtp_course_work.Login.Table.{rules, next_by, trans_table-eq-rules}
use smtp_course_work.Login.Words.{ReadAs, command_line, command_line_read}
use smtp_course_work.Login.Session.{run_commands, session_needs_credentials}
use smtp_course_work.Login.Attempts.{WrongLogin, failed_logins_go_on}

trans_table-eq-rules_example :
    ((trans_table st_init ev_cmd_user).0 ≡ next_by rules st_init ev_cmd_user)
    × ((trans_table st_init ev_cmd_user).1 ≡ tr_invalid
        → next_by rules st_init ev_cmd_user ≡ st_invalid)
    × (next_by rules st_init ev_cmd_user ≡ st_invalid
        → (trans_table st_init ev_cmd_user).1 ≡ tr_invalid)
unfolding is_terminal
trans_table-eq-rules_example = trans_table-eq-rules st_init ev_cmd_user refl

-- " USER: bob_1 " and " PASSWORD: bob_1 "
abbrev bob : Bytes
bob = b'o' ∷ b'b' ∷ b'_' ∷ b'1' ∷ []

abbrev space : Bytes
space = b' ' ∷ []

command_line_read_example :
    ReadAs ev_cmd_user (b'b' ∷ bob) (command_line space user_word space (b'b' ∷ bob) space)
    × ReadAs ev_cmd_passw (b'b' ∷ bob) (command_line space password_word space (b'b' ∷ bob) space)
unfolding is_space is_word
command_line_read_example =
    command_line_read space space space b'b' bob (refl, tt) (refl, tt) (refl, tt)
      (refl, (refl, (refl, (refl, (refl, tt)))))

-- "USER:user\n" and "PASSWORD:password\n"
abbrev user_line : Bytes
user_line = command_line [] user_word [] user_name []

abbrev password_line : Bytes
password_line = command_line [] password_word [] pass_phrase []

in_session :
    (run_commands ((true, user_line) ∷ (true, password_line) ∷ []) init_state).state ≡ st_session
unfolding run_commands run_command server_fsm_step init_state parse_cmd server_authorize get_param
in_session = refl

session_needs_credentials_example :
    ((run_commands ((true, user_line) ∷ (true, password_line) ∷ []) init_state).user
      ≡ some user_name)
    × ((run_commands ((true, user_line) ∷ (true, password_line) ∷ []) init_state).password
        ≡ some pass_phrase)
session_needs_credentials_example =
    session_needs_credentials ((true, user_line) ∷ (true, password_line) ∷ []) in_session

-- the right name with "bob"
abbrev bob_line : Bytes
bob_line = command_line [] password_word [] (b'b' ∷ b'o' ∷ b'b' ∷ []) []

bob_is_wrong : WrongLogin user_line bob_line
unfolding parse_cmd get_param is_word_of
bob_is_wrong = record { is_user = refl; is_password = refl; wrong = refl }

failed_logins_go_on_example :
    ((run_commands ((true, user_line) ∷ (true, bob_line) ∷ []) init_state).state ≡ st_init)
    × ((run_commands ((true, user_line) ∷ (true, bob_line) ∷ []) init_state).attempts
        ≡ init_state.attempts + 1)
unfolding init_state
failed_logins_go_on_example =
    failed_logins_go_on ((user_line, bob_line) ∷ []) init_state refl (bob_is_wrong, tt)
