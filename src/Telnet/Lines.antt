-- ===== src/Telnet/Lines.antt =====
-- The lines of the protocol: a suffix is stripped exactly where it ends the string, and `recv_until`
-- returns at the first separator.
use smtp_course_work.Base.{
  ℕ, ◌+◌, ◌-◌, ◌≤◌, ◌≡◌, ◌⊎◌, refl, sym, ap, ◌∙◌, subst, true, false, Option, none, some, List, [],
  ◌∷◌, ◌++◌, success, append_assoc, append-nil, done, Bytes, length, drop, set, c_string, strlen,
  NoNul, c_string-append_nul, length-append, ◌==◌, ltb, arith, Bool-cases, Option-cases, inl, inr,
}
use smtp_course_work.Buffer.{Buffer, buffer_find, buffer_shift}
use smtp_course_work.Buffer.Bounds.{IsValid, buffer_space_lem, buffer_start_lem}
use smtp_course_work.Buffer.Contents.{contents, store_at_start, contents-store-shift}
use smtp_course_work.Buffer.Find.{Found, buffer_find-Found}
use smtp_course_work.Kernel.{Call, returns, waits, aborts, RecvReply}
use smtp_course_work.Fd.{safe_recv}
use smtp_course_work.Fd.Receive.{safe_recv_lem}
use smtp_course_work.Telnet.{suffix, strip_telnet_cmd, recv_at_start, Until, stop, recv_until}

NoNul-append : (s t : Bytes) → NoNul s → NoNul t → NoNul (s ++ t)
NoNul-append [] t h g = g
NoNul-append (x ∷ s) t h g = (h.0, NoNul-append s t h.1 g)

set-append : (s t : Bytes) (v : ℕ) → set (s ++ t) (length s) v ≡ s ++ set t 0 v
set-append [] t v = refl
set-append (x ∷ s) t v = ap (λ r. x ∷ r) (set-append s t v)

pub drop-length : (s t : Bytes) → drop (length s) (s ++ t) ≡ t
drop-length [] t = refl
drop-length (x ∷ s) t = drop-length s t

strip_at :
    (block : Bytes) (n : ℕ)
    → strlen block ≡ n + 2
    → c_string (drop n block) ≡ suffix
    → strip_telnet_cmd block ≡ (success, set block n 0)
unfolding strip_telnet_cmd
strip_at block n e f =
    let long : ltb (n + 2) 2 ≡ false = ground arith in
    let back : n + 2 - 2 ≡ n = omega arith in rw (e, long, back, f) refl

-- A block that holds a string, the suffix and a NUL is stripped to the string, and its memory behind
-- the cut is as before.
pub strip_telnet_cmd_lem :
    (s rest : Bytes)
    → NoNul s
    → (strip_telnet_cmd (s ++ (suffix ++ 0 ∷ rest)) ≡ (success, s ++ 0 ∷ 10 ∷ 0 ∷ rest))
      × (c_string (strip_telnet_cmd (s ++ (suffix ++ 0 ∷ rest))).1 ≡ s)
strip_telnet_cmd_lem s rest h =
    (stripped, ap (λ r. c_string r.1) stripped ∙ c_string-append_nul s (10 ∷ 0 ∷ rest) h)
  where
    string : c_string (s ++ (suffix ++ 0 ∷ rest)) ≡ s ++ suffix
    string =
        ap c_string (sym (append_assoc s suffix (0 ∷ rest)))
        ∙ c_string-append_nul (s ++ suffix) rest (NoNul-append s suffix h (omega arith))

    stripped : strip_telnet_cmd (s ++ (suffix ++ 0 ∷ rest)) ≡ (success, s ++ 0 ∷ 10 ∷ 0 ∷ rest)
    stripped =
        strip_at (s ++ (suffix ++ 0 ∷ rest)) (length s) (ap length string ∙ length-append s suffix)
          (rw (drop-length s (suffix ++ 0 ∷ rest)) refl)
        ∙ ap (λ r. (success, r)) (set-append s (suffix ++ 0 ∷ rest) 0)

-- What a run of `recv_until` from buffer `b` has done: the buffer holds what it held and what came,
-- and the result is 0 where the buffer is full with no separator in it, or the length up to the end of the first separator.
abbrev pub FoundUntil : Bytes → Buffer → Call (Option ℕ) → Type 0
FoundUntil sep b (returns none) = Unit
FoundUntil sep b (returns (some n)) =
    ((n ≡ 0) × (b.pos ≡ b.size) × Found sep (contents b) none)
    ⊎ ((k : ℕ) × (n ≡ k + length sep) × Found sep (contents b) (some k))
FoundUntil sep b waits = Found sep (contents b) none
FoundUntil sep b aborts = ⊥

pub record Receives (sep : Bytes) (b : Buffer) (u : Until) : Type 0 where
  pub appended : contents u.buffer ≡ contents b ++ u.stream
  pub valid : IsValid u.buffer
  pub found : FoundUntil sep u.buffer u.result

stop-Receives :
    (sep : Bytes) (b : Buffer) (r : Call (Option ℕ))
    → IsValid b
    → FoundUntil sep b r
    → Receives sep b (stop r b)
stop-Receives sep b r v f = record {
  appended = sym (append-nil (contents b));
  valid = v;
  found = f;
}

pub recv_at_start_lem :
    (b : Buffer) (r : RecvReply) (spc : ℕ)
    → IsValid b
    → recv_at_start b r spc ≡ (elim (safe_recv r spc) [
      | none ↦ done none
      | some bs ↦ done (some (bs, store_at_start b bs))
    ])
unfolding recv_at_start
recv_at_start_lem b r spc v = rw (buffer_start_lem v, recv_at_start) refl

module _ (sep : Bytes) where
  Found-at :
      (b : Buffer) (o : Option ℕ) → IsValid b → buffer_find b sep ≡ o → Found sep (contents b) o
  Found-at b o v e = subst (λ r. Found sep (contents b) r) e (buffer_find-Found b sep v)

  full_Receives :
      (b : Buffer)
      → IsValid b
      → buffer_find b sep ≡ none
      → ((b.size - b.pos) == 0) ≡ true
      → Receives sep b (stop (returns (some 0)) b)
  full_Receives b v e full =
      stop-Receives sep b (returns (some 0)) v (inl (refl, ground arith, Found-at b none v e))

  step_Receives :
      (rs : List RecvReply) (b : Buffer) (bs : Bytes)
      → IsValid b
      → length bs ≤ b.size - b.pos
      → ((b' : Buffer) → IsValid b' → Receives sep b' (recv_until rs b' sep))
      → (let next = recv_until rs (buffer_shift (store_at_start b bs) (length bs)).1 sep in
          Receives sep b (record next { stream = bs ++ next.stream }))
  step_Receives rs b bs v h ih =
      let s = contents-store-shift b bs v (omega arith) in
      let r = ih (buffer_shift (store_at_start b bs) (length bs)).1 s.1 in
      record {
        appended =
            r.appended
            ∙ ap
                (λ t.
                  t
                  ++ (recv_until rs (buffer_shift (store_at_start b bs) (length bs)).1 sep).stream)
                s.0
            ∙ append_assoc (contents b) bs
                (recv_until rs (buffer_shift (store_at_start b bs) (length bs)).1 sep).stream;
        valid = r.valid;
        found = r.found;
      }

  recv_until-Receives :
      (replies : List RecvReply) (b : Buffer)
      → IsValid b
      → Receives sep b (recv_until replies b sep)
  unfolding recv_until
  recv_until-Receives [] b v = elim (Option-cases (buffer_find b sep)) [
    | inr (k, e) ↦
        rw (e, recv_until)
          (stop-Receives sep b (returns (some (k + length sep))) v
            (inr (k, refl, Found-at b (some k) v e)))
    | inl e ↦
        rw (e, recv_until, buffer_space_lem v)
          (elim (Bool-cases ((b.size - b.pos) == 0)) [
            | inl full ↦ rw full (full_Receives b v e full)
            | inr room ↦ rw room (stop-Receives sep b waits v (Found-at b none v e))
          ])
  ]
  recv_until-Receives (r ∷ rs) b v = elim (Option-cases (buffer_find b sep)) [
    | inr (k, e) ↦
        rw (e, recv_until)
          (stop-Receives sep b (returns (some (k + length sep))) v
            (inr (k, refl, Found-at b (some k) v e)))
    | inl e ↦
        rw (e, recv_until, buffer_space_lem v)
          (elim (Bool-cases ((b.size - b.pos) == 0)) [
            | inl full ↦ rw full (full_Receives b v e full)
            | inr room ↦
                rw (room, recv_at_start_lem b r (b.size - b.pos) v)
                  (elim (Option-cases (safe_recv r (b.size - b.pos))) [
                    | inl failed ↦ rw failed (stop-Receives sep b (returns none) v tt)
                    | inr (bs, came) ↦ rw came (
                        step_Receives rs b bs v (safe_recv_lem r (b.size - b.pos) bs came).1
                          (λ b' v'. recv_until-Receives rs b' v'))
                  ])
          ])
  ]

-- From a valid buffer, whatever the kernel delivers, `recv_until` never stops the process and leaves a valid
-- buffer that holds what it held followed by what came; a positive result is the end of the first
-- separator in it, 0 means that it is full and holds no separator (or that the separator is empty),
-- and while it waits there is none.
pub recv_until_lem :
    (replies : List RecvReply) (b : Buffer) (sep : Bytes)
    → IsValid b
    → Receives sep b (recv_until replies b sep)
recv_until_lem replies b sep v = recv_until-Receives sep replies b v
