-- ===== src/Kernel.antt =====
-- What the program sees of the kernel: the answers to its calls, in the order in which they come.
-- A function that calls the kernel takes the list of answers still to come; where the list ends
-- before the function returns, the function is waiting in a call.
-- `aborts`: a failed `assert` or a `fatal` stops the process.
use smtp_course_work.Base.{ℕ, Bytes, [], min, take, ◌≡◌, ◌⊎◌, inl, inr, refl}

pub data Call {ℓ} (A : Type ℓ) : Type ℓ where
  returns : A → Call A
  waits aborts : Call A

-- An answer to `send` or `write`: at most `k` of the bytes offered are taken (the kernel never
-- takes more than it is offered), or -1 with `errno` EINTR, EAGAIN or EWOULDBLOCK, or another.
pub data SendReply : Type 0 where
  took : ℕ → SendReply
  eintr eagain broken : SendReply

-- An answer to `recv` or `read`: the bytes delivered, of which a call stores no more than it has
-- room for (none at the end of the stream), or -1 as above.
pub data RecvReply : Type 0 where
  got : Bytes → RecvReply
  eintr eagain broken : RecvReply

-- The bytes of `n` offered that an answer takes.
abbrev pub accepted : SendReply → ℕ → ℕ
accepted (took k) n = min k n
accepted _ n = 0

abbrev pub delivered : RecvReply → ℕ → Bytes
delivered (got bs) n = take n bs
delivered _ n = []

pub Call-cases {ℓ} :
    {A : Type ℓ} (r : Call A) → ((a : A) × (r ≡ returns a)) ⊎ (r ≡ waits) ⊎ (r ≡ aborts)
Call-cases (returns a) = inl (a, refl)
Call-cases waits = inr (inl refl)
Call-cases aborts = inr (inr refl)
