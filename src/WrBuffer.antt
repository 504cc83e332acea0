-- ===== src/WrBuffer.antt =====
-- struct_wrbuffer/inc/wrbuffer.h: the strings that wait to be sent to a client. A `char *` is the
-- C string that it points to, without its NUL.
pub mod Pending
use smtp_course_work.Base.{
  ℕ, zero, suc, ◌+◌, ◌-◌, Bool, true, false, Option, none, some, List, [], ◌∷◌, Outcome, done,
  abort, Status, success, failure, Bytes, length, ltb, leb, if◌then◌else◌,
}
use smtp_course_work.Stailq.{Stailq}

module _ (sq : Stailq Bytes) where
  open sq use {Queue, view, init, first, insert_tail, remove_head}

  -- `struct wrbuffer`; `pos` counts the bytes of the head that are sent.
  pub record WrBuffer : Type 0 where
    pub queue : Queue
    pub pos : ℕ

  unfoldable pub init_wrbuffer : WrBuffer
  init_wrbuffer = record { queue = init; pos = 0 }

  unfoldable pub is_wrbuffer_empty : WrBuffer → Bool
  is_wrbuffer_empty b = elim (first b.queue) [ none ↦ true | some s ↦ false ]

  -- `while (!STAILQ_EMPTY)` with fuel: the strings that are freed, in order, and the queue left
  reset_loop : ℕ → Queue → List Bytes × Queue
  reset_loop zero q = ([], q)
  reset_loop (suc fuel) q = elim (first q) [
    | none ↦ ([], q)
    | some s ↦ let (freed, q') = reset_loop fuel (remove_head q) in (s ∷ freed, q')
  ]

  -- One round for each entry.
  unfoldable pub reset_wrbuffer : WrBuffer → List Bytes × WrBuffer
  unfolding reset_loop
  reset_wrbuffer b =
      let (freed, q) = reset_loop (length (view b.queue)) b.queue in
      (freed, record { queue = q; pos = 0 })

  unfoldable pub destroy_wrbuffer : WrBuffer → List Bytes × WrBuffer
  unfolding reset_wrbuffer
  destroy_wrbuffer b = reset_wrbuffer b

  -- `got_node` tells whether `malloc` succeeds.
  unfoldable pub wrbuffer_add : Bool → WrBuffer → Bytes → Status × WrBuffer
  wrbuffer_add got_node b s =
      if got_node then (success, record b { queue = insert_tail b.queue s }) else (failure, b)

  unfoldable pub wrbuffer_head : WrBuffer → Option Bytes
  wrbuffer_head b = first b.queue

  -- The pointer as the head's string and the offset in it.
  unfoldable pub wrbuffer_start : WrBuffer → Outcome (Bytes × ℕ)
  unfolding wrbuffer_head
  wrbuffer_start b = elim (wrbuffer_head b) [ none ↦ abort | some s ↦ done (s, b.pos) ]

  -- `nremains >= len` is `pos + len <= strlen`: the difference is signed.
  shift_head : WrBuffer → ℕ → Bytes → Outcome (Option Bytes × WrBuffer)
  shift_head b len s =
      if leb (b.pos + len) (length s)
      then (if ltb (b.pos + len) (length s)
          then done (none, record b { pos = b.pos + len })
          else done (some s, record { queue = remove_head b.queue; pos = 0 }))
      else abort

  -- The string that is freed, if one is, and the buffer left.
  unfoldable pub wrbuffer_shift : WrBuffer → ℕ → Outcome (Option Bytes × WrBuffer)
  unfolding wrbuffer_head shift_head
  wrbuffer_shift b len = elim (wrbuffer_head b) [ none ↦ abort | some s ↦ shift_head b len s ]

  unfoldable pub wrbuffer_remained : WrBuffer → Outcome ℕ
  unfolding wrbuffer_head
  wrbuffer_remained b = elim (wrbuffer_head b) [
    | none ↦ done 0
    | some s ↦ if ltb b.pos (length s) then done (length s - b.pos) else abort
  ]
