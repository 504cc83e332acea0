-- ===== src/Login/Run.antt =====
-- server-run.c: the loop over the commands of a file.
use smtp_course_work.Base.{
  ℕ, zero, suc, Bool, true, false, Option, none, some, [], ◌∷◌, Bytes, c_string, length, ◌==◌,
  if◌then◌else◌,
}
use smtp_course_work.Login.Fsm.{
  FsmEvent, ev_password_accepted, ev_password_invalid, ev_too_many_attempts, is_st_invalid,
  is_st_authorization, is_st_done,
}
use smtp_course_work.Login.Parse.{parse_cmd}
use smtp_course_work.Login.State.{
  ServerState, init_state, AuthResult, accepted, rejected, too_many, server_authorize,
  server_fsm_step,
}

-- MAXCMDLEN
abbrev pub max_cmd_len : ℕ
max_cmd_len = 1024

-- `fgets` of at most `room` bytes: the line with its newline, if that is read, and the rest of the file
unfoldable pub read_line : ℕ → Bytes → Bytes × Bytes
read_line zero file = ([], file)
read_line (suc room) [] = ([], [])
read_line (suc room) (c ∷ file) =
    let (line, rest) = read_line room file in if c == 10 then (c ∷ [], file) else (c ∷ line, rest)

-- `strchr(s, '\n') != NULL`
unfoldable pub has_newline : Bytes → Bool
has_newline [] = false
has_newline (c ∷ s) = let rest = has_newline s in if c == 10 then true else rest

abbrev pub event_of : AuthResult → FsmEvent
event_of accepted = ev_password_accepted
event_of too_many = ev_too_many_attempts
event_of rejected = ev_password_invalid

-- the switch behind a transition: in the state of authorization the machine takes one more step
unfoldable pub authorize : ServerState → ServerState
unfolding is_st_authorization
authorize s =
    if is_st_authorization s.state
    then (let (code, s') = server_authorize s in
        let (next, s'') = server_fsm_step true s'.state (event_of code) [] s' in
        record s'' { state = next })
    else s

-- the body of the loop on one command; `got` is the `malloc` of a parameter
unfoldable pub run_command : Bool → Bytes → ServerState → ServerState
unfolding is_st_invalid authorize
run_command got cmd s =
    let (next, s') = server_fsm_step got s.state (parse_cmd cmd) cmd s in
    if is_st_invalid next then s' else authorize (record s' { state = next })

-- How the loop ends: with the result that `run` returns, or by the read through the NULL that `fgets` returns
-- at the end of the file.
pub data RunEnd : Type 0 where
  result : ℕ → ServerState → RunEnd
  null_read : ServerState → RunEnd
  out_of_fuel : RunEnd

-- `while (!feof(file))`, with a round of fuel for each line. The end of the file is known only after a read has
-- met it: a last line without its newline, which is an error, or a read of nothing.
unfoldable pub run_loop : ℕ → Bytes → ServerState → RunEnd
unfolding read_line has_newline run_command is_st_done
run_loop zero file s = out_of_fuel
run_loop (suc fuel) [] s = null_read s
run_loop (suc fuel) (c ∷ file) s =
    let (line, rest) = read_line 1023 (c ∷ file) in
    let cmd = c_string line in
    let s' = run_command true cmd s in
    let more = run_loop fuel rest s' in
    if has_newline cmd then (if is_st_done s'.state then result 0 s' else more) else result 1 s

-- `run` of a file that can be opened, and of one that cannot.
unfoldable pub run : Option Bytes → Option RunEnd
unfolding run_loop
run none = none
run (some file) = some (run_loop (suc (length file)) file init_state)
