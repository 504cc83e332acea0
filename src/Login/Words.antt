-- ===== src/Login/Words.antt =====
-- The commands that the expressions match: what is printed as a USER or a PASSWORD command is read as one, with the
-- word that was printed.
use smtp_course_work.Base.{
  ℕ, ◌≡◌, refl, ap, ◌∙◌, Bool, true, false, Option, none, some, [], ◌∷◌, ◌++◌, Bytes, arith,
}
use smtp_course_work.Login.Fsm.{FsmEvent, ev_cmd_user, ev_cmd_passw}
use smtp_course_work.Login.Parse.{
  is_space, is_word, skip_spaces, ends_line, after_literal, take_word, capture, quit_word,
  user_word, password_word, match_quit, match_param, matched, parse_cmd, get_param,
}

-- Every byte is a letter, a digit or `_`.
abbrev pub AllWord : Bytes → Type 0
AllWord [] = Unit
AllWord (c ∷ w) = (is_word c ≡ true) × AllWord w

-- Every byte is a space.
abbrev pub AllSpace : Bytes → Type 0
AllSpace [] = Unit
AllSpace (c ∷ s) = (is_space c ≡ true) × AllSpace s

word_not_space : (c : ℕ) → is_word c ≡ true → is_space c ≡ false
unfolding is_word is_space
word_not_space c h = ground arith

space_not_word : (c : ℕ) → is_space c ≡ true → is_word c ≡ false
unfolding is_word is_space
space_not_word c h = ground arith

skip_spaces-append : (s t : Bytes) → AllSpace s → skip_spaces (s ++ t) ≡ skip_spaces t
unfolding skip_spaces
skip_spaces-append [] t h = refl
skip_spaces-append (c ∷ s) t h = ground (arith, skip_spaces-append s t h.1)

skip_spaces-word : (c : ℕ) (s : Bytes) → is_word c ≡ true → skip_spaces (c ∷ s) ≡ c ∷ s
unfolding skip_spaces
skip_spaces-word c s h = rw (word_not_space c h) refl

ends_line-spaces : (s : Bytes) → AllSpace s → ends_line (s ++ 10 ∷ []) ≡ true
unfolding ends_line
ends_line-spaces [] h = refl
ends_line-spaces (c ∷ []) h = rw (h.0) refl
ends_line-spaces (c ∷ d ∷ s) h = rw (h.0) (ends_line-spaces (d ∷ s) h.1)

take_word-append :
    (w s : Bytes) → AllWord w → AllSpace s → take_word (w ++ (s ++ 10 ∷ [])) ≡ (w, s ++ 10 ∷ [])
unfolding take_word
take_word-append [] [] h g = refl
take_word-append [] (c ∷ s) h g = rw (space_not_word c g.0) refl
take_word-append (c ∷ w) s h g = ground (arith, take_word-append w s h.1 g, h.0)

after_literal-append : (l s : Bytes) → after_literal l (l ++ s) ≡ some s
unfolding after_literal
after_literal-append [] s = refl
after_literal-append (c ∷ l) s = ground (arith, after_literal-append l s)

-- a command: spaces, the word and the colon, spaces, the parameter, spaces, and the newline
abbrev pub command_line : Bytes → Bytes → Bytes → Bytes → Bytes → Bytes
command_line before word between param after =
    before ++ (word ++ (between ++ (param ++ (after ++ 10 ∷ []))))

-- the spaces in front of a word are skipped
skip-before :
    (before : Bytes) (l : ℕ) (s : Bytes)
    → AllSpace before
    → is_word l ≡ true
    → skip_spaces (before ++ l ∷ s) ≡ l ∷ s
skip-before before l s hb hl = skip_spaces-append before (l ∷ s) hb ∙ skip_spaces-word l s hl

capture-word :
    (c : ℕ) (w after : Bytes)
    → AllWord (c ∷ w)
    → AllSpace after
    → capture (take_word (c ∷ (w ++ (after ++ 10 ∷ [])))) ≡ some (c ∷ w)
unfolding capture
capture-word c w after hw ha =
    ap capture (take_word-append (c ∷ w) after hw ha) ∙ (rw (ends_line-spaces after ha) refl)

-- what an expression with a group does behind its literal
abbrev read_param : Option Bytes → Option Bytes
read_param r = elim r [ none ↦ none | some rest ↦ capture (take_word (skip_spaces rest)) ]

match_param-command_line :
    (l : ℕ) (word before between after : Bytes) (c : ℕ) (w : Bytes)
    → is_word l ≡ true
    → AllSpace before
    → AllSpace between
    → AllSpace after
    → AllWord (c ∷ w)
    → match_param (l ∷ word) (command_line before (l ∷ word) between (c ∷ w) after) ≡ some (c ∷ w)
unfolding match_param
match_param-command_line l word before between after c w hl hb hm ha hw =
    let param = c ∷ (w ++ (after ++ 10 ∷ [])) in
    ap (λ s. read_param (after_literal (l ∷ word) s))
      (skip-before before l (word ++ (between ++ param)) hb hl)
    ∙ ap read_param (after_literal-append (l ∷ word) (between ++ param))
    ∙ ap (λ s. capture (take_word s)) (skip-before between c (w ++ (after ++ 10 ∷ [])) hm (hw.0))
    ∙ capture-word c w after hw ha

-- an expression whose literal is another word does not match
match_param-other :
    (l : ℕ) (word other before s : Bytes)
    → is_word l ≡ true
    → AllSpace before
    → after_literal other (l ∷ (word ++ s)) ≡ none
    → match_param other (before ++ ((l ∷ word) ++ s)) ≡ none
unfolding match_param
match_param-other l word other before s hl hb h =
    ap (λ t. read_param (after_literal other t)) (skip-before before l (word ++ s) hb hl)
    ∙ ap read_param h

abbrev quits : Option Bytes → Bool
quits r = elim r [ none ↦ false | some rest ↦ ends_line rest ]

match_quit-other :
    (l : ℕ) (word before s : Bytes)
    → is_word l ≡ true
    → AllSpace before
    → after_literal quit_word (l ∷ (word ++ s)) ≡ none
    → match_quit (before ++ ((l ∷ word) ++ s)) ≡ false
unfolding match_quit
match_quit-other l word before s hl hb h =
    ap (λ t. quits (after_literal quit_word t)) (skip-before before l (word ++ s) hb hl)
    ∙ ap quits h

-- A printed command: the event that it stands for, and the parameter that is read from it.
abbrev pub ReadAs : FsmEvent → Bytes → Bytes → Type 0
ReadAs event word cmd = (parse_cmd cmd ≡ event) × (get_param true event cmd ≡ some word)

-- With memory for the copy, a USER or a PASSWORD command, printed with any spaces in front of it,
-- behind the colon and behind the parameter, and with a parameter of at least one letter, digit
-- or `_`, is read as that command, and the parameter read from it is the one that was printed.
pub command_line_read :
    (before between after : Bytes) (c : ℕ) (w : Bytes)
    → AllSpace before
    → AllSpace between
    → AllSpace after
    → AllWord (c ∷ w)
    → ReadAs ev_cmd_user (c ∷ w) (command_line before user_word between (c ∷ w) after)
      × ReadAs ev_cmd_passw (c ∷ w) (command_line before password_word between (c ∷ w) after)
unfolding parse_cmd get_param matched after_literal is_word
command_line_read before between after c w hb hm ha hw =
    let s = between ++ (c ∷ (w ++ (after ++ 10 ∷ []))) in
    let user =
      match_param-command_line b'U' (b'S' ∷ b'E' ∷ b'R' ∷ b':' ∷ []) before between after c w refl
        hb hm ha hw in
    let tail = b'A' ∷ b'S' ∷ b'S' ∷ b'W' ∷ b'O' ∷ b'R' ∷ b'D' ∷ b':' ∷ [] in
    let password = match_param-command_line b'P' tail before between after c w refl hb hm ha hw in
    (
      (
        rw (match_quit-other b'U' (b'S' ∷ b'E' ∷ b'R' ∷ b':' ∷ []) before s refl hb refl, user)
            refl,
        user,
      ),
      (
        rw
            (
              match_quit-other b'P' tail before s refl hb refl,
              match_param-other b'P' tail user_word before s refl hb refl,
              password,
            )
            refl,
        password,
      ),
    )
