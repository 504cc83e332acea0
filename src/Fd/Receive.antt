-- ===== src/Fd/Receive.antt =====
-- `safe_recv` and `read_all`: whole reads, and the end of the stream.
use smtp_course_work.Base.{
  ℕ, zero, suc, ◌+◌, ◌-◌, ◌≤◌, ◌<◌, ◌≡◌, ◌⊎◌, refl, true, Option, none, some, List, [], ◌∷◌, ◌++◌,
  arith, Bytes, length, take, length-take, length-append, Bool-cases, inl, inr, ltb, ◌==◌,
}
use smtp_course_work.Kernel.{
  Call, returns, waits, aborts, RecvReply, got, eintr, eagain, broken, delivered,
}
use smtp_course_work.Fd.{read_loop, read_all, safe_recv, received}

-- What the result says: a count `m` that the loop, entered at `n`, returns is `n` and the bytes
-- stored since, and either the whole length or, where nothing had been read, 0. Till then no more
-- than the length is stored.
abbrev pub Reads : ℕ → ℕ → Call (Option ℕ) → Bytes → Type 0
Reads len n (returns (some m)) stored = (m ≡ n + length stored) × ((m ≡ len) ⊎ (m ≡ 0))
Reads len n (returns none) stored = n + length stored ≤ len
Reads len n waits stored = n + length stored ≤ len
Reads len n aborts stored = ⊥

Reads-step :
    (len n : ℕ) (bs : Bytes) (r : Call (Option ℕ)) (stored : Bytes)
    → Reads len (n + length bs) r stored
    → Reads len n r (bs ++ stored)
Reads-step len n bs (returns (some m)) stored h = (omega (arith, length-append bs stored, h.0), h.1)
Reads-step len n bs (returns none) stored h = omega (arith, length-append bs stored)
Reads-step len n bs waits stored h = omega (arith, length-append bs stored)
Reads-step len n bs aborts stored h = h

delivered-le : (r : RecvReply) (n : ℕ) → length (delivered r n) ≤ n
delivered-le (got bs) n = omega (arith, length-take n bs)
delivered-le eintr n = omega arith
delivered-le eagain n = omega arith
delivered-le broken n = omega arith

read_loop-Reads :
    (replies : List RecvReply) (len n : ℕ)
    → n ≤ len
    → Reads len n (read_loop replies len n).result (read_loop replies len n).stored
unfolding read_loop
read_loop-Reads [] len n h = elim (Bool-cases (ltb n len)) [
  | inl more ↦ rw more (omega arith)
  | inr all ↦ rw all (omega arith, inl (ground arith))
]
read_loop-Reads (got bs ∷ rs) len n h = elim (Bool-cases (ltb n len)) [
  | inl more ↦ rw more (
      Reads-step len n (take (len - n) bs)
        (read_loop rs len (n + length (take (len - n) bs))).result
        (read_loop rs len (n + length (take (len - n) bs))).stored
        (read_loop-Reads rs len (n + length (take (len - n) bs))
          (omega (arith, length-take (len - n) bs))))
  | inr all ↦ rw all (omega arith, inl (ground arith))
]
read_loop-Reads (eintr ∷ rs) len n h = elim (Bool-cases (ltb n len)) [
  | inl more ↦ rw more (
      Reads-step len n [] (read_loop rs len (n + 0)).result (read_loop rs len (n + 0)).stored
        (read_loop-Reads rs len (n + 0) (omega arith)))
  | inr all ↦ rw all (omega arith, inl (ground arith))
]
read_loop-Reads (eagain ∷ rs) len n h = elim (Bool-cases (ltb n len)) [
  | inl more ↦ elim (Bool-cases (n == 0)) [
    | inl nothing ↦ rw (more, nothing) (ground arith, inr refl)
    | inr some_read ↦
        rw (more, some_read)
          (Reads-step len n [] (read_loop rs len (n + 0)).result (read_loop rs len (n + 0)).stored
            (read_loop-Reads rs len (n + 0) (omega arith)))
  ]
  | inr all ↦ rw all (omega arith, inl (ground arith))
]
read_loop-Reads (broken ∷ rs) len n h = elim (Bool-cases (ltb n len)) [
  | inl more ↦ rw more (omega arith)
  | inr all ↦ rw all (omega arith, inl (ground arith))
]

-- For every course of the kernel's answers `read_all` stores no more than `len` bytes, and the count
-- that it returns is the number of bytes stored, which is `len` or 0: never a part of the length.
pub read_all-Reads :
    (replies : List RecvReply) (len : ℕ)
    → Reads len 0 (read_all replies len).result (read_all replies len).stored
unfolding read_all
read_all-Reads replies len = read_loop-Reads replies len 0 (omega arith)

-- `k` reads at the end of the stream, each of which returns 0
abbrev pub at_end : ℕ → List RecvReply
at_end zero = []
at_end (suc k) = got [] ∷ at_end k

take_none : (n : ℕ) → ◌≡◌ {A = Bytes} (take n []) []
take_none zero = refl
take_none (suc n) = refl

read_loop-at_end : (k len n : ℕ) → n < len → (read_loop (at_end k) len n).result ≡ waits
unfolding read_loop
read_loop-at_end zero len n h = ground arith
read_loop-at_end (suc k) len n h =
    let e : ltb n len ≡ true = ground arith in
    rw (e, take_none (len - n)) (read_loop-at_end k len (n + 0) (omega arith))

-- At the end of the stream `read_all` of a positive length never returns: after the last bytes, fewer
-- than the length, however many reads return 0, it is still reading.
pub read_all-at_end :
    (bs : Bytes) (k len : ℕ) → length bs < len → (read_all (got bs ∷ at_end k) len).result ≡ waits
unfolding read_all read_loop
read_all-at_end bs k len h =
    let e : ltb 0 len ≡ true = ground arith in
    rw e (
      read_loop-at_end k len (0 + length (take (len - 0) bs))
        (omega (arith, length-take (len - 0) bs)))

-- `safe_recv` of a positive length: a result that is not -1 is what the kernel delivers, within the
-- length, and at the end of the stream the result is -1.
pub safe_recv_lem :
    (r : RecvReply) (len : ℕ) (bs : Bytes)
    → safe_recv r len ≡ some bs
    → (bs ≡ delivered r len) × (length bs ≤ len)
unfolding safe_recv received
safe_recv_lem (got []) len bs h = ground (arith, take_none len)
safe_recv_lem (got (x ∷ xs)) zero bs h = ground arith
safe_recv_lem (got (x ∷ xs)) (suc len) bs h = ground (arith, length-take len xs)
safe_recv_lem eintr len bs h = ground arith
safe_recv_lem eagain len bs h = ground arith
safe_recv_lem broken len bs h = ground arith
