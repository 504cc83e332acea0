-- ===== src/Cnct/Lifetime.antt =====
-- The states of a connection and the count of the answers that it waits for.
use smtp_course_work.Base.{
  ℕ, zero, suc, ◌+◌, ◌-◌, ◌≤◌, ◌<◌, ◌≡◌, refl, false, Outcome, done, abort, ◌>>=◌, ◌==◌,
  if◌then◌else◌, arith, Bool-cases, inl, inr, ◌&&◌, ◌∙◌,
}
use smtp_course_work.Cnct.{
  CnctState, cnct_shut, cnct_open, cnct_wait, Cnct, is_open, is_wait, inc_queue_cnt, dec_queue_cnt,
  shutdown_cnct,
}

-- A connection that is shut waits for nothing, and one that waits has something to wait for.
abbrev pub Settled : CnctState → ℕ → Type 0
Settled cnct_shut n = n ≡ 0
Settled cnct_open n = Unit
Settled cnct_wait n = 0 < n

pub record IsSettled (c : Cnct) : Type 0 where
  pub settled : Settled c.state c.queue_cnt

-- what `dec_queue_cnt` makes of a connection that waits for an answer
abbrev pub after_state : CnctState → ℕ → CnctState
after_state s n = if is_wait s && ((n - 1) == 0) then cnct_shut else s

is_open-after_state : (s : CnctState) (n : ℕ) → is_open (after_state s n) ≡ is_open s
unfolding is_open is_wait
is_open-after_state cnct_shut n = refl
is_open-after_state cnct_open n = refl
is_open-after_state cnct_wait n = ground arith

abbrev pub counted_down : Cnct → Cnct
counted_down c = record c { queue_cnt = c.queue_cnt - 1; state = after_state c.state c.queue_cnt }

pub Settled-after_state :
    (s : CnctState) (n : ℕ) → 0 < n → Settled s n → Settled (after_state s n) (n - 1)
unfolding is_wait
Settled-after_state cnct_shut n p h = absurd (omega arith)
Settled-after_state cnct_open n p h = tt
Settled-after_state cnct_wait n p h = elim (Bool-cases ((n - 1) == 0)) [
  | inl last ↦ rw last (ground arith)
  | inr more ↦ rw more (ground arith)
]

after_wait : (s : CnctState) (n : ℕ) → s ≡ cnct_wait → n ≡ 1 → after_state s n ≡ cnct_shut
unfolding is_wait
after_wait s n e one = rw (e, one) refl

after_open : (s : CnctState) (n : ℕ) → s ≡ cnct_open → after_state s n ≡ cnct_open
unfolding is_wait
after_open s n e = rw e refl

pub dec_queue_cnt_done : (c : Cnct) → 0 < c.queue_cnt → dec_queue_cnt c ≡ done (counted_down c)
unfolding dec_queue_cnt
dec_queue_cnt_done c h = ground arith

-- a connection stays open, and one that is not open stays so
pub is_open-counted_down : (c : Cnct) → is_open (counted_down c).state ≡ is_open c.state
unfolding is_open is_wait
is_open-counted_down c = is_open-after_state c.state c.queue_cnt

dec_queue_cnt_abort : (c : Cnct) → c.queue_cnt ≡ 0 → dec_queue_cnt c ≡ abort
unfolding dec_queue_cnt
dec_queue_cnt_abort c h = ground arith

-- `dec_queue_cnt` of a settled connection stops the process exactly when no answer is awaited;
-- otherwise it counts one down and leaves a settled connection, which is shut if it was waiting
-- for this answer alone, and is in the state in which it was if it was open.
pub dec_queue_cnt_lem :
    (c : Cnct)
    → IsSettled c
    → (c.queue_cnt ≡ 0 → dec_queue_cnt c ≡ abort)
      × (0 < c.queue_cnt
          → (c' : Cnct) × (dec_queue_cnt c ≡ done c')
            × (c'.queue_cnt + 1 ≡ c.queue_cnt)
            × IsSettled c'
            × (c.state ≡ cnct_wait → c.queue_cnt ≡ 1 → c'.state ≡ cnct_shut)
            × (c.state ≡ cnct_open → c'.state ≡ cnct_open))
unfolding is_wait
dec_queue_cnt_lem c v = (
  dec_queue_cnt_abort c,
  λ h. (
    counted_down c,
    dec_queue_cnt_done c h,
    omega arith,
    record { settled = Settled-after_state c.state c.queue_cnt h v.settled },
    after_wait c.state c.queue_cnt,
    after_open c.state c.queue_cnt,
  ),
)

Settled-shutdown : (n : ℕ) → Settled (if n == 0 then cnct_shut else cnct_wait) n
Settled-shutdown zero = refl
Settled-shutdown (suc n) = let ne : (suc n == 0) ≡ false = ground arith in rw ne (omega arith)

Settled-open : (s : CnctState) (n : ℕ) → s ≡ cnct_open → Settled s n
Settled-open s n e = rw e tt

-- Opening, counting up and shutting down leave a settled connection: `shutdown_cnct` of any
-- connection is settled and keeps the count, and `inc_queue_cnt` of an open one counts up.
pub inc_shutdown_IsSettled :
    (c : Cnct)
    → IsSettled (shutdown_cnct c).1
      × ((shutdown_cnct c).1.queue_cnt ≡ c.queue_cnt)
      × (c.state ≡ cnct_open
          → (c' : Cnct) × (inc_queue_cnt c ≡ done c')
            × (c'.queue_cnt ≡ c.queue_cnt + 1)
            × IsSettled c')
unfolding shutdown_cnct inc_queue_cnt
inc_shutdown_IsSettled c = (
  record { settled = Settled-shutdown c.queue_cnt },
  refl,
  λ e. (
    record c { queue_cnt = c.queue_cnt + 1 },
    ground arith,
    refl,
    record { settled = Settled-open c.state (c.queue_cnt + 1) e },
  ),
)

-- `m` calls of `dec_queue_cnt`
unfoldable pub dec_times : ℕ → Cnct → Outcome Cnct
dec_times zero c = done c
dec_times (suc m) c = dec_queue_cnt c >>= λ c'. dec_times m c'

waiting_drains :
    (m : ℕ) (c : Cnct)
    → c.state ≡ cnct_wait
    → 0 < c.queue_cnt
    → m ≤ c.queue_cnt
    → (c' : Cnct) × (dec_times m c ≡ done c')
      × (c'.queue_cnt + m ≡ c.queue_cnt)
      × (c'.state ≡ (if m == c.queue_cnt then cnct_shut else cnct_wait))
unfolding dec_times is_wait
waiting_drains zero c w p h = (c, refl, omega arith, w ∙ ground arith)
waiting_drains (suc zero) c w p h =
    (counted_down c, rw (dec_queue_cnt_done c p) refl, omega arith, rw w (ground arith))
waiting_drains (suc (suc m)) c w p h =
    let ih =
      waiting_drains (suc m) (counted_down c) (rw w (ground arith)) (omega arith) (omega arith) in
    (ih.0, rw (dec_queue_cnt_done c p) ih.1, omega (arith, ih.2), ih.3 ∙ ground arith)

-- A connection that is shut down while `n` answers are awaited becomes free exactly with the last of
-- them: after `m` of the `n` calls of `dec_queue_cnt` it is shut where `m` is `n`, and waits before.
pub shutdown_drains :
    (c : Cnct) (m : ℕ)
    → m ≤ c.queue_cnt
    → (c' : Cnct) × (dec_times m (shutdown_cnct c).1 ≡ done c')
      × (c'.queue_cnt + m ≡ c.queue_cnt)
      × (c'.state ≡ (if m == c.queue_cnt then cnct_shut else cnct_wait))
unfolding shutdown_cnct dec_times
shutdown_drains c zero h = (
  record c { state = if c.queue_cnt == 0 then cnct_shut else cnct_wait },
  refl,
  omega arith,
  ground arith,
)
shutdown_drains c (suc m) h =
    waiting_drains (suc m) (record c { state = if c.queue_cnt == 0 then cnct_shut else cnct_wait })
      (ground arith) (omega arith) h
