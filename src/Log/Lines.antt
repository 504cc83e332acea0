-- ===== src/Log/Lines.antt =====
-- The lines that `process_buffer` hands on.
use smtp_course_work.Base.{
  ℕ, zero, suc, ◌≤◌, ◌<◌, ◌≡◌, ◌≢◌, refl, sym, ap, ◌∙◌, true, Option, none, some, List, [], ◌∷◌,
  ◌++◌, Bytes, length, length-append, append_assoc, ◌==◌, arith, Bool-cases, inl, inr,
}
use smtp_course_work.Log.{cut_line, process_lines, process_buffer}

-- No byte is a newline.
abbrev pub NoNewline : Bytes → Type 0
NoNewline [] = Unit
NoNewline (c ∷ s) = (c ≢ 10) × NoNewline s

-- A newline ends it, and it has no other.
pub record IsLine (line : Bytes) : Type 0 where
  pub text : Bytes
  pub no_newline : NoNewline text
  pub ends : line ≡ text ++ 10 ∷ []

abbrev pub AllLines : List Bytes → Type 0
AllLines [] = Unit
AllLines (l ∷ ls) = IsLine l × AllLines ls

abbrev pub joined : List Bytes → Bytes
joined [] = []
joined (l ∷ ls) = l ++ joined ls

-- what `strchr` finds: no newline, or the first line of the string and what is behind it
data IsCut (s : Bytes) : Option (Bytes × Bytes) → Type 0 where
  uncut : NoNewline s → IsCut s none
  cut : (line behind : Bytes) → IsLine line → s ≡ line ++ behind → IsCut s (some (line, behind))

IsLine-cons : (c : ℕ) (line : Bytes) → c ≢ 10 → IsLine line → IsLine (c ∷ line)
IsLine-cons c line ne l = record {
  text = c ∷ l.text;
  no_newline = (ne, l.no_newline);
  ends = ap (λ t. c ∷ t) l.ends;
}

abbrev cons_cut : ℕ → Option (Bytes × Bytes) → Option (Bytes × Bytes)
cons_cut c o = elim o [ none ↦ none | some (line, behind) ↦ some (c ∷ line, behind) ]

IsCut-cons :
    (c : ℕ) (s : Bytes) (o : Option (Bytes × Bytes))
    → c ≢ 10
    → IsCut s o
    → IsCut (c ∷ s) (cons_cut c o)
IsCut-cons c s _ ne (uncut h) = uncut (ne, h)
IsCut-cons c s _ ne (cut line behind l e) =
    cut (c ∷ line) behind (IsLine-cons c line ne l) (ap (λ t. c ∷ t) e)

IsCut-newline : (c : ℕ) (s : Bytes) → (c == 10) ≡ true → IsCut (c ∷ s) (some (c ∷ [], s))
IsCut-newline c s h =
    let e : c ≡ 10 = ground arith in
    cut (c ∷ []) s (record { text = []; no_newline = tt; ends = ap (λ x. x ∷ []) e }) refl

cut_line-IsCut : (s : Bytes) → IsCut s (cut_line s)
unfolding cut_line
cut_line-IsCut [] = uncut tt
cut_line-IsCut (c ∷ s) = elim (Bool-cases (c == 10)) [
  | inl newline ↦ rw newline (IsCut-newline c s newline)
  | inr other ↦ rw other (IsCut-cons c s (cut_line s) (ground (arith, other)) (cut_line-IsCut s))
]

-- whole lines, and the rest of the string without a newline
pub record Splits (s : Bytes) (messages : List Bytes) (left : Bytes) : Type 0 where
  pub lines : AllLines messages
  pub unended : NoNewline left
  pub whole : joined messages ++ left ≡ s

length-IsLine : (line : Bytes) → IsLine line → 0 < length line
length-IsLine line l = omega (arith, ap length l.ends, length-append l.text (10 ∷ []))

-- one round of the loop, by what `strchr` finds
abbrev next : ℕ → Bytes → Option (Bytes × Bytes) → List Bytes × Bytes
next fuel s o = elim o [
  | none ↦ ([], s)
  | some (line, behind) ↦
      let (messages, left) = process_lines fuel (λ l. true) behind in (line ∷ messages, left)
]

Splits-next :
    (fuel : ℕ) (s : Bytes) (o : Option (Bytes × Bytes))
    → IsCut s o
    → length s ≤ suc fuel
    → ((b : Bytes)
        → length b ≤ fuel
        → Splits b (process_lines fuel (λ l. true) b).0 (process_lines fuel (λ l. true) b).1)
    → Splits s (next fuel s o).0 (next fuel s o).1
Splits-next fuel s _ (uncut h) g ih = record { lines = tt; unended = h; whole = refl }
Splits-next fuel s _ (cut line behind l e) g ih =
    let r =
      ih behind (omega (arith, ap length e, length-append line behind, length-IsLine line l)) in
    record {
      lines = (l, r.lines);
      unended = r.unended;
      whole =
          append_assoc line (joined (process_lines fuel (λ l. true) behind).0)
            (process_lines fuel (λ l. true) behind).1
          ∙ ap (λ t. line ++ t) r.whole
          ∙ sym e;
    }

process_lines-Splits :
    (fuel : ℕ) (s : Bytes)
    → length s ≤ fuel
    → Splits s (process_lines fuel (λ l. true) s).0 (process_lines fuel (λ l. true) s).1
unfolding process_lines
process_lines-Splits zero [] h = record { lines = tt; unended = tt; whole = refl }
process_lines-Splits zero (c ∷ s) h = absurd (omega arith)
process_lines-Splits (suc fuel) s h =
    Splits-next fuel s (cut_line s) (cut_line-IsCut s) h (process_lines-Splits fuel)

-- With memory for the copies, `process_buffer` hands on messages that are each one line with its newline, and leaves
-- at the front of the buffer a string without a newline; together and in order they are what the buffer held.
pub process_buffer-Splits :
    (s : Bytes) → Splits s (process_buffer (λ l. true) s).0 (process_buffer (λ l. true) s).1
unfolding process_buffer
process_buffer-Splits s = process_lines-Splits (length s) s (omega arith)
