-- ===== src/Service/Decimal.antt =====
-- `fprintf("%d\n")` and `fscanf("%d")` of a process number.
use Prim.Native.Nat.{ℕ, zero, suc, ◌+◌, ◌-◌, ◌*◌, ◌/◌, ◌%◌, ◌^◌, ◌≤◌, ◌<◌}
use native.Mathlib.Numerals.{unary_clauses}
use smtp_course_work.Base.{
  ◌≡◌, refl, ap, ◌∙◌, sym, Bool, true, false, ◌&&◌, ◌||◌, Option, none, some, [], ◌∷◌, ◌++◌, Bytes,
  ltb, leb, ◌==◌, if◌then◌else◌, ℤ, pos, negsuc, arith, append_assoc, Bool-cases, inl, inr,
}

-- the last digits of a number, at most as many as the first argument, without leading zeros
unfoldable pub digits_of : ℕ → ℕ → Bytes
digits_of zero n = []
digits_of (suc k) n =
    let rest = digits_of k (n / 10) in (if ltb 9 n then rest else []) ++ (b'0' + n % 10) ∷ []

-- An `int` has ten digits at most.
unfoldable pub decimal : ℕ → Bytes
unfolding digits_of
decimal n = digits_of 10 n

-- `"%d\n"`
unfoldable pub pid_line : ℕ → Bytes
unfolding decimal
pid_line pid = decimal pid ++ 10 ∷ []

abbrev pub is_digit : ℕ → Bool
is_digit c = leb b'0' c && leb c b'9'

-- the characters that `isspace` holds of
abbrev pub is_space : ℕ → Bool
is_space c = (c == b' ') || (leb 9 c && leb c 13)

unfoldable pub skip_spaces : Bytes → Bytes
skip_spaces [] = []
skip_spaces (c ∷ s) = let rest = skip_spaces s in if is_space c then rest else c ∷ s

-- the value of the digits in front, added to those read before
unfoldable pub scan_digits : ℕ → Bytes → ℕ
scan_digits n [] = n
scan_digits n (c ∷ s) =
    let rest = scan_digits (n * 10 + (c - b'0')) s in if is_digit c then rest else n

unfoldable pub scan_natural : Bytes → Option ℕ
unfolding scan_digits
scan_natural [] = none
scan_natural (c ∷ s) = if is_digit c then some (scan_digits 0 (c ∷ s)) else none

abbrev pub negative : ℕ → ℤ
negative zero = pos 0
negative (suc n) = negsuc n

unfoldable pub scan_signed : Bytes → Option ℤ
unfolding scan_natural
scan_signed [] = none
scan_signed (c ∷ s) =
    if c == b'-'
    then elim (scan_natural s) [ none ↦ none | some n ↦ some (negative n) ]
    else if c == b'+'
    then elim (scan_natural s) [ none ↦ none | some n ↦ some (pos n) ]
    else elim (scan_natural (c ∷ s)) [ none ↦ none | some n ↦ some (pos n) ]

-- A number beyond the bounds of `int` is read as it stands, where C leaves the result open.
unfoldable pub scan_pid : Bytes → Option ℤ
unfolding skip_spaces scan_signed
scan_pid s = scan_signed (skip_spaces s)

decimal_example :
    (scan_pid (pid_line 40713) ≡ some (pos 40713))
    × (scan_pid (b' ' ∷ b'-' ∷ b'7' ∷ []) ≡ some (negsuc 6))
unfolding scan_pid pid_line
decimal_example = (refl, refl)

digit_is : (d : ℕ) → d ≤ 9 → is_digit (b'0' + d) ≡ true
digit_is d h = ground arith

scan_digits-digit :
    (m d : ℕ) (rest : Bytes)
    → d ≤ 9
    → scan_digits m ((b'0' + d) ∷ rest) ≡ scan_digits (m * 10 + d) rest
unfolding scan_digits
scan_digits-digit m d rest h =
    rw (digit_is d h, scan_digits) (ap (λ k. scan_digits (m * 10 + k) rest) (omega arith))

-- reading the last digit behind the others
scan_digits-last :
    (n : ℕ) (rest : Bytes) → scan_digits (n / 10) ((b'0' + n % 10) ∷ rest) ≡ scan_digits n rest
scan_digits-last n rest =
    scan_digits-digit (n / 10) (n % 10) rest (omega arith)
    ∙ ap (λ k. scan_digits k rest) (omega arith)

ltb_small : (n : ℕ) → n < 10 → ltb 9 n ≡ false
ltb_small n h = ground arith

small_mod : (n : ℕ) → ltb 9 n ≡ false → 0 * 10 + n % 10 ≡ n
small_mod n h = ground arith

tenth : (k n : ℕ) → n < 10 ^ suc (suc k) → n / 10 < 10 ^ suc k
tenth k n h = omega (arith, simp unary_clauses at h)

scan_digits-digits_of :
    (k n : ℕ) (rest : Bytes)
    → n < 10 ^ suc k
    → scan_digits 0 (digits_of (suc k) n ++ rest) ≡ scan_digits n rest
unfolding digits_of
scan_digits-digits_of zero n rest h =
    rw (ltb_small n h)
      (scan_digits-digit 0 (n % 10) rest (omega arith) ∙ ap (λ m. scan_digits m rest) (omega arith))
scan_digits-digits_of (suc k) n rest h = elim (Bool-cases (ltb 9 n)) [
  | inr small ↦ rw small (
      scan_digits-digit 0 (n % 10) rest (omega arith)
      ∙ ap (λ m. scan_digits m rest) (small_mod n small))
  | inl large ↦ rw large (
      ap (λ s. scan_digits 0 s)
        (append_assoc (digits_of (suc k) (n / 10)) ((b'0' + n % 10) ∷ []) rest)
      ∙ scan_digits-digits_of k (n / 10) ((b'0' + n % 10) ∷ rest) (tenth k n h)
      ∙ scan_digits-last n rest)
]

-- the first character printed is a digit
first_digit :
    (k n : ℕ) → (c : ℕ) × (s : Bytes) × (digits_of (suc k) n ≡ c ∷ s) × (is_digit c ≡ true)
unfolding digits_of
first_digit zero n = elim (Bool-cases (ltb 9 n)) [
  | inl large ↦ rw large (b'0' + n % 10, [], refl, digit_is (n % 10) (omega arith))
  | inr small ↦ rw small (b'0' + n % 10, [], refl, digit_is (n % 10) (omega arith))
]
first_digit (suc k) n = elim (Bool-cases (ltb 9 n)) [
  | inl large ↦
      let r = first_digit k (n / 10) in
      rw large (r.0, r.1 ++ (b'0' + n % 10) ∷ [], ap (λ l. l ++ (b'0' + n % 10) ∷ []) r.2, r.3)
  | inr small ↦ rw small (b'0' + n % 10, [], refl, digit_is (n % 10) (omega arith))
]

digit_other :
    (c : ℕ)
    → is_digit c ≡ true
    → (is_space c ≡ false) × ((c == b'-') ≡ false) × ((c == b'+') ≡ false)
digit_other c h = ground arith

scan_pid-digit :
    (c : ℕ) (s : Bytes) → is_digit c ≡ true → scan_pid (c ∷ s) ≡ some (pos (scan_digits 0 (c ∷ s)))
unfolding scan_pid skip_spaces scan_signed scan_natural
scan_pid-digit c s h =
    let o = digit_other c h in rw (o.0, o.1, o.2, h, skip_spaces, scan_signed, scan_natural) refl

-- The number of a process that is printed to the pid file is the one that is read from it.
pub scan_pid-pid_line : (pid : ℕ) → pid < 2 ^ 31 → scan_pid (pid_line pid) ≡ some (pos pid)
unfolding pid_line decimal scan_digits
scan_pid-pid_line pid h =
    let f = first_digit 9 pid in
    let read = scan_digits-digits_of 9 pid (10 ∷ []) (omega arith) in
    ap (λ s. scan_pid (s ++ 10 ∷ [])) f.2
    ∙ scan_pid-digit f.0 (f.1 ++ 10 ∷ []) f.3
    ∙ ap (λ s. some (pos (scan_digits 0 (s ++ 10 ∷ [])))) (sym f.2)
    ∙ ap (λ m. some (pos m)) read
