-- ===== src/Login/Table.antt =====
-- The generated transition map against the definitions that it is generated from (src/server.def).
use smtp_course_work.Base.{
  ℕ, ◌≡◌, Bool, true, false, ◌&&◌, Option, none, some, List, [], ◌∷◌, ◌==◌, if◌then◌else◌, arith,
}
use smtp_course_work.Login.Fsm.{
  FsmState, st_init, st_user_known, st_authorization, st_session, st_invalid, st_done, FsmEvent,
  ev_timeout, ev_cmd_proceed, ev_cmd_quit, ev_cmd_user, ev_cmd_passw, ev_password_accepted,
  ev_password_invalid, ev_too_many_attempts, ev_invalid, tr_invalid, trans_table, is_terminal,
}

-- one line of `transition`; `none` for `tst` is "*"
pub record Rule : Type 0 where
  pub tst : Option FsmState
  pub tev : FsmEvent
  pub next : FsmState

abbrev from : FsmState → FsmEvent → FsmState → Rule
from s e n = record { tst = some s; tev = e; next = n }

abbrev from_any : FsmEvent → FsmState → Rule
from_any e n = record { tst = none; tev = e; next = n }

-- `transition` of server.def
unfoldable pub rules : List Rule
rules =
    from st_init ev_cmd_user st_user_known
    ∷ from st_user_known ev_cmd_passw st_authorization
    ∷ from st_authorization ev_password_accepted st_session
    ∷ from st_authorization ev_password_invalid st_init
    ∷ from st_authorization ev_too_many_attempts st_done
    ∷ from st_session ev_cmd_proceed st_session
    ∷ from_any ev_timeout st_done
    ∷ from_any ev_cmd_quit st_done
    ∷ []

-- the enumerations' values
abbrev state_code : FsmState → ℕ
state_code st_init = 0
state_code st_user_known = 1
state_code st_authorization = 2
state_code st_session = 3
state_code st_invalid = 4
state_code st_done = 5

abbrev event_code : FsmEvent → ℕ
event_code ev_timeout = 0
event_code ev_cmd_proceed = 1
event_code ev_cmd_quit = 2
event_code ev_cmd_user = 3
event_code ev_cmd_passw = 4
event_code ev_password_accepted = 5
event_code ev_password_invalid = 6
event_code ev_too_many_attempts = 7
event_code ev_invalid = 8

state_fits : Option FsmState → FsmState → Bool
state_fits none s = true
state_fits (some t) s = state_code t == state_code s

-- the first rule that fits, and the invalid state where none does
unfoldable pub next_by : List Rule → FsmState → FsmEvent → FsmState
unfolding state_fits
next_by [] s e = st_invalid
next_by (r ∷ rs) s e =
    let rest = next_by rs s e in
    if state_fits r.tst s && (event_code r.tev == event_code e) then r.next else rest

-- In every state that is not terminal, and on every event, the map's next state is the one that the definitions
-- give (the invalid state where they give none), and the map names an action exactly where they give one.
pub trans_table-eq-rules :
    (s : FsmState) (e : FsmEvent)
    → is_terminal s ≡ false
    → ((trans_table s e).0 ≡ next_by rules s e)
      × ((trans_table s e).1 ≡ tr_invalid → next_by rules s e ≡ st_invalid)
      × (next_by rules s e ≡ st_invalid → (trans_table s e).1 ≡ tr_invalid)
unfolding is_terminal trans_table next_by rules
trans_table-eq-rules st_init e h = ground arith
trans_table-eq-rules st_user_known e h = ground arith
trans_table-eq-rules st_authorization e h = ground arith
trans_table-eq-rules st_session e h = ground arith
trans_table-eq-rules st_invalid e h = cc
trans_table-eq-rules st_done e h = cc
