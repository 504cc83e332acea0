-- ===== src/Login/Parse.antt =====
-- server-parse.c and server-re.h: the commands, by the regular expressions of the header. `regexec` is modelled on
-- the three expressions that the program compiles: `\s` is a byte that `isspace` accepts and `\w` a letter, a
-- digit or `_`; the classes are disjoint, so that `(\w+)` captures the whole run of word bytes.
use smtp_course_work.Base.{
  ℕ, Bool, true, false, ◌&&◌, ◌||◌, Option, none, some, [], ◌∷◌, Bytes, leb, ◌==◌, if◌then◌else◌,
}
use smtp_course_work.Login.Fsm.{FsmEvent, ev_cmd_quit, ev_cmd_user, ev_cmd_passw, ev_invalid}

unfoldable pub is_space : ℕ → Bool
is_space c = (c == 32) || (leb 9 c && leb c 13)

unfoldable pub is_word : ℕ → Bool
is_word c =
    (leb b'a' c && leb c b'z')
    || (leb b'A' c && leb c b'Z')
    || (leb b'0' c && leb c b'9')
    || (c == b'_')

-- `\s*` at the front
unfoldable pub skip_spaces : Bytes → Bytes
unfolding is_space
skip_spaces [] = []
skip_spaces (c ∷ s) = if is_space c then skip_spaces s else c ∷ s

-- `\s*\n$` over the whole of the rest
unfoldable pub ends_line : Bytes → Bool
unfolding is_space
ends_line [] = false
ends_line (c ∷ []) = c == 10
ends_line (c ∷ d ∷ s) = is_space c && ends_line (d ∷ s)

-- a literal at the front, and what follows it
unfoldable pub after_literal : Bytes → Bytes → Option Bytes
after_literal [] s = some s
after_literal (l ∷ ls) [] = none
after_literal (l ∷ ls) (c ∷ s) = let rest = after_literal ls s in if l == c then rest else none

-- `\w*`, and what follows it
unfoldable pub take_word : Bytes → Bytes × Bytes
unfolding is_word
take_word [] = ([], [])
take_word (c ∷ s) = let (w, rest) = take_word s in if is_word c then (c ∷ w, rest) else ([], c ∷ s)

abbrev pub quit_word : Bytes
quit_word = b'Q' ∷ b'U' ∷ b'I' ∷ b'T' ∷ []

abbrev pub user_word : Bytes
user_word = b'U' ∷ b'S' ∷ b'E' ∷ b'R' ∷ b':' ∷ []

abbrev pub password_word : Bytes
password_word = b'P' ∷ b'A' ∷ b'S' ∷ b'S' ∷ b'W' ∷ b'O' ∷ b'R' ∷ b'D' ∷ b':' ∷ []

-- RE_CMD_QUIT
unfoldable pub match_quit : Bytes → Bool
unfolding skip_spaces after_literal ends_line
match_quit cmd = elim (after_literal quit_word (skip_spaces cmd)) [
  | none ↦ false
  | some rest ↦ ends_line rest
]

-- the capture, where the word is not empty and the line ends behind it
unfoldable pub capture : Bytes × Bytes → Option Bytes
unfolding ends_line
capture ([], rest) = none
capture (c ∷ w, rest) = if ends_line rest then some (c ∷ w) else none

-- RE_CMD_USER and RE_CMD_PASSWORD, which differ in the literal: the capture of a match
unfoldable pub match_param : Bytes → Bytes → Option Bytes
unfolding skip_spaces after_literal take_word capture
match_param word cmd = elim (after_literal word (skip_spaces cmd)) [
  | none ↦ none
  | some rest ↦ capture (take_word (skip_spaces rest))
]

unfoldable pub matched : Option Bytes → Bool
matched none = false
matched (some w) = true

-- The loop over `re_events`, in the order of the table.
unfoldable pub parse_cmd : Bytes → FsmEvent
unfolding match_quit match_param matched
parse_cmd cmd =
    if match_quit cmd
    then ev_cmd_quit
    else if matched (match_param user_word cmd)
    then ev_cmd_user
    else if matched (match_param password_word cmd)
    then ev_cmd_passw
    else ev_invalid

-- `got` is the `malloc` of the copy. The program asks for the parameter of USER and PASSWORD alone; for QUIT,
-- whose expression has no group, the offsets are -1 and the result is unspecified.
unfoldable pub get_param : Bool → FsmEvent → Bytes → Option Bytes
unfolding match_param
get_param got ev_cmd_user cmd = if got then match_param user_word cmd else none
get_param got ev_cmd_passw cmd = if got then match_param password_word cmd else none
get_param got event cmd = none
