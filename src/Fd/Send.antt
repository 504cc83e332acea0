-- ===== src/Fd/Send.antt =====
-- `send_all` and `write_all`: what goes out on every path, and when they return.
use smtp_course_work.Base.{
  ℕ, zero, suc, ◌+◌, ◌-◌, ◌≤◌, ◌<◌, ◌≡◌, refl, sym, ap, ◌∙◌, false, Option, none, some, List, [],
  ◌∷◌, ◌++◌, arith, Bytes, length, take, drop, take-append-drop, take-split, drop-drop, Bool-cases,
  inl, inr, ltb,
}
use smtp_course_work.Kernel.{
  Call, returns, waits, aborts, SendReply, took, eintr, eagain, broken, accepted,
}
use smtp_course_work.Fd.{is_error, send_loop, send_all, write_all}

-- What the result says of the bytes that went out: all of `todo` where `n` is returned, else some
-- first bytes of it. The loop never stops the process.
abbrev pub Delivers : Bytes → ℕ → Call (Option ℕ) → Bytes → Type 0
Delivers todo n (returns (some m)) wire = (m ≡ n) × (wire ≡ todo)
Delivers todo n (returns none) wire = (k : ℕ) × (wire ≡ take k todo)
Delivers todo n waits wire = (k : ℕ) × (wire ≡ take k todo)
Delivers todo n aborts wire = ⊥

Delivers-step :
    (todo : Bytes) (d n : ℕ) (r : Call (Option ℕ)) (wire : Bytes)
    → Delivers (drop d todo) n r wire
    → Delivers todo n r (take d todo ++ wire)
Delivers-step todo d n (returns (some m)) wire h =
    (h.0, ap (λ t. take d todo ++ t) h.1 ∙ take-append-drop d todo)
Delivers-step todo d n (returns none) wire h =
    (d + h.0, ap (λ t. take d todo ++ t) h.1 ∙ take-split d h.0 todo)
Delivers-step todo d n waits wire h =
    (d + h.0, ap (λ t. take d todo ++ t) h.1 ∙ take-split d h.0 todo)
Delivers-step todo d n aborts wire h = h

drop_whole : (n : ℕ) (xs : Bytes) → length xs ≤ n → drop n xs ≡ []
drop_whole n [] h = zero_drop n
  where
    zero_drop : (n : ℕ) → ◌≡◌ {A = Bytes} (drop n []) []
    zero_drop zero = refl
    zero_drop (suc n) = refl
drop_whole zero (x ∷ xs) h = absurd (omega arith)
drop_whole (suc n) (x ∷ xs) h = drop_whole n xs (omega arith)

accepted-le : (r : SendReply) (n : ℕ) → accepted r n ≤ n
accepted-le (took k) n = omega arith
accepted-le eintr n = omega arith
accepted-le eagain n = omega arith
accepted-le broken n = omega arith

send_loop-Delivers :
    (replies : List SendReply) (buf : Bytes) (sent : ℕ)
    → sent ≤ length buf
    → Delivers
        (drop sent buf)
        (length buf)
        (send_loop replies buf sent).result
        (send_loop replies buf sent).wire
unfolding send_loop
send_loop-Delivers [] buf sent h = elim (Bool-cases (ltb sent (length buf))) [
  | inl more ↦ rw more (0, refl)
  | inr all ↦
      rw all
        (ground arith, let le : length buf ≤ sent = ground arith in sym (drop_whole sent buf le))
]
send_loop-Delivers (r ∷ rs) buf sent h = elim (Bool-cases (ltb sent (length buf))) [
  | inl more ↦ rw more (elim (Bool-cases (is_error r)) [
    | inl bad ↦ rw bad (0, refl)
    | inr good ↦ rw good (
        let d : ℕ = accepted r (length buf - sent) in
        Delivers-step (drop sent buf) d (length buf) (send_loop rs buf (sent + d)).result
          (send_loop rs buf (sent + d)).wire
          (rw (drop-drop d sent buf) (
            send_loop-Delivers rs buf (sent + d)
              (omega (arith, accepted-le r (length buf - sent))))))
  ])
  | inr all ↦
      rw all
        (ground arith, let le : length buf ≤ sent = ground arith in sym (drop_whole sent buf le))
]

-- For every course of the kernel's answers `send_all` never stops the process; where it returns a
-- count, that is the length of the buffer and exactly the buffer has gone out; where it returns -1
-- or is still waiting, what has gone out is a first part of the buffer.
pub send_all-Delivers :
    (replies : List SendReply) (buf : Bytes)
    → Delivers buf (length buf) (send_all replies buf).result (send_all replies buf).wire
unfolding send_all
send_all-Delivers replies buf = send_loop-Delivers replies buf 0 (omega arith)

-- No answer is an error.
abbrev pub NoErrors : List SendReply → Type 0
NoErrors [] = Unit
NoErrors (r ∷ rs) = (is_error r ≡ false) × NoErrors rs

-- How many answers take at least one byte.
abbrev pub progress : List SendReply → ℕ
progress [] = 0
progress (took (suc k) ∷ rs) = suc (progress rs)
progress (r ∷ rs) = progress rs

progress-step :
    (r : SendReply) (rs : List SendReply) (n : ℕ)
    → 0 < n
    → n ≤ progress (r ∷ rs)
    → n - accepted r n ≤ progress rs
progress-step (took zero) rs n h p = omega arith
progress-step (took (suc k)) rs n h p = omega arith
progress-step eintr rs n h p = omega arith
progress-step eagain rs n h p = omega arith
progress-step broken rs n h p = omega arith

send_loop-returns :
    (replies : List SendReply) (buf : Bytes) (sent : ℕ)
    → sent ≤ length buf
    → NoErrors replies
    → length buf - sent ≤ progress replies
    → (send_loop replies buf sent).result ≡ returns (some (length buf))
unfolding send_loop
send_loop-returns [] buf sent h ok p = ground arith
send_loop-returns (r ∷ rs) buf sent h ok p = elim (Bool-cases (ltb sent (length buf))) [
  | inl more ↦
      rw (more, ok.0)
        (send_loop-returns rs buf (sent + accepted r (length buf - sent))
          (omega (arith, accepted-le r (length buf - sent))) ok.1
          (let q : length buf - sent - accepted r (length buf - sent) ≤ progress rs =
              progress-step r rs (length buf - sent) (ground arith) p in
            omega arith))
  | inr all ↦ rw all (ground arith)
]

-- If no answer is an error, and at least as many answers make progress as there are bytes to send,
-- then `write_all` returns the length of the buffer.
pub write_all-returns :
    (replies : List SendReply) (buf : Bytes)
    → NoErrors replies
    → length buf ≤ progress replies
    → (write_all replies buf).result ≡ returns (some (length buf))
unfolding write_all
write_all-returns replies buf ok p = send_loop-returns replies buf 0 (omega arith) ok (omega arith)
