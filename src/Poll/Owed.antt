-- ===== src/Poll/Owed.antt =====
-- The life of one slot of the poll server: the gets that the database is asked for, the answers that come by the control
-- pipe, and the clients that have the slot one after the other.
use smtp_course_work.Base.{
  ℕ, ◌+◌, ◌<◌, ◌≡◌, inl, inr, refl, subst, ap, ◌∙◌, true, false, done, Bytes, if◌then◌else◌, arith,
  Bool-cases, Option-cases,
}
use smtp_course_work.Stailq.{Stailq}
use smtp_course_work.Cnct.{cnct_shut, shutdown_cnct, reset_poll_cnct}
use smtp_course_work.Cnct.Lifetime.{Settled}
use smtp_course_work.Cmds.{Vdb}
use smtp_course_work.CnctIo.Asked.{counting, Asked, process_cnct-Asked}
use smtp_course_work.Poll.{
  Slot, Answer, Served, Events, ClientReplies, unserved, client_input, client_output, client_rest,
  process_client, remove_connection, occupy, answer_slot,
}
use smtp_course_work.Poll.Slots.{IsSlot, occupy-IsSlot}
use smtp_course_work.Poll.Clients.{IsConnected, process_client-IsSlot, removed-cases}
use smtp_course_work.Poll.Answers.{answer_slot_lem}

module _ (sq : Stailq Bytes) {S : Type 0} (vdb : Vdb S) where
  -- Removing a connection keeps its count.
  removed_count : (s : Slot sq) → (remove_connection sq s).cnct.queue_cnt ≡ s.cnct.queue_cnt
  unfolding remove_connection shutdown_cnct
  removed_count s = elim (Option-cases s.fd) [
    | inl h ↦ rw (h, remove_connection) refl
    | inr (fd, h) ↦ rw (h, remove_connection) refl
  ]

  abbrev pub served : Events → ClientReplies → Slot sq → S × ℕ → Served sq (S × ℕ)
  served ev k s db = process_client sq (counting vdb) ev k s db

  -- what a client's slot and the database are served to
  abbrev Grown : Slot sq → S × ℕ → Served sq (S × ℕ) → Type 0
  Grown s db p = Asked s.cnct db p.slot.cnct p.db

  output_of : Events → ClientReplies → Served sq (S × ℕ) → Served sq (S × ℕ)
  output_of ev k p =
      if ev.writable
      then client_output sq (counting vdb) k p.slot p.db
      else unserved sq (counting vdb) false p.slot p.db

  output-Grown :
      (ev : Events) (k : ClientReplies) (s : Slot sq) (db : S × ℕ) (p : Served sq (S × ℕ))
      → Grown s db p
      → Grown s db (output_of ev k p)
  unfolding output_of client_output
  output-Grown ev k s db p h = elim (Bool-cases ev.writable) [ inl w ↦ rw w h | inr w ↦ rw w h ]

  removed-Grown :
      (s : Slot sq) (db : S × ℕ) (p : Served sq (S × ℕ))
      → Grown s db p
      → Grown s db (record p { slot = remove_connection sq p.slot })
  removed-Grown s db p h = ap (λ n. n + db.1) (removed_count p.slot) ∙ h

  rest-Grown :
      (ev : Events) (k : ClientReplies) (s : Slot sq) (db : S × ℕ) (p : Served sq (S × ℕ))
      → Grown s db p
      → Grown s db (client_rest sq (counting vdb) ev k p)
  unfolding client_rest output_of
  rest-Grown ev k s db p h =
      let q = output_of ev k p in
      let g = output-Grown ev k s db p h in
      elim (removed-cases p.removed) [
        | inl a ↦ rw (a, client_rest) (removed-Grown s db p h)
        | inr (inr (inl a)) ↦ rw (a, client_rest) h
        | inr (inr (inr a)) ↦ rw (a, client_rest) h
        | inr (inl a) ↦ elim (removed-cases q.removed) [
          | inl b ↦ rw (a, b, client_rest) (removed-Grown s db q g)
          | inr (inl b) ↦ rw (a, b, client_rest) g
          | inr (inr (inl b)) ↦ rw (a, b, client_rest) g
          | inr (inr (inr b)) ↦ rw (a, b, client_rest) g
        ]
      ]

  process_client-Grown :
      (ev : Events) (k : ClientReplies) (s : Slot sq) (db : S × ℕ) → Grown s db (served ev k s db)
  unfolding process_client client_input
  process_client-Grown ev k s db = elim (Bool-cases ev.closed) [
    | inl c ↦ rw c (rest-Grown ev k s db (unserved sq (counting vdb) true s db) refl)
    | inr c ↦ elim (Bool-cases ev.readable) [
      | inr r ↦ rw (c, r) (rest-Grown ev k s db (unserved sq (counting vdb) false s db) refl)
      | inl r ↦
          rw (c, r)
            (rest-Grown ev k s db (client_input sq (counting vdb) k s db)
              (process_cnct-Asked vdb k.sends k.got_block k.received s.cnct db))
    ]
  ]

  -- A slot, the database with the number of gets that it has been asked for on behalf of the slot, and the number of
  -- answers that have come for it.
  pub record Life : Type 0 where
    pub slot : Slot sq
    pub db : S × ℕ
    pub answered : ℕ

  -- A client is served; the database does something else; an answer comes, which the database has been asked for; a new
  -- client gets the slot.
  pub data LifeStep (l : Life) : Life → Type 0 where
    serves :
        (ev : Events) (k : ClientReplies)
        → IsConnected sq l.slot
        → LifeStep l
            (record l { slot = (served ev k l.slot l.db).slot; db = (served ev k l.slot l.db).db })
    goes_on : (db : S) → LifeStep l (record l { db = (db, l.db.1) })
    answers :
        (a : Answer) (s : Slot sq)
        → l.answered < l.db.1
        → answer_slot sq a l.slot ≡ done s
        → LifeStep l (record l { slot = s; answered = l.answered + 1 })
    connects :
        (socket : ℕ)
        → l.slot.cnct.state ≡ cnct_shut
        → LifeStep l (record l { slot = occupy sq l.slot socket })

  pub data LifeReach (l : Life) : Life → Type 0 where
    life_here : LifeReach l l
    life_next : {m n : Life} → LifeReach l m → LifeStep m n → LifeReach l n

  -- The slot is well formed, and awaits the answers that have been asked for and have not come.
  pub record IsAwaited (l : Life) : Type 0 where
    pub slot : IsSlot sq l.slot
    pub awaited : l.slot.cnct.queue_cnt + l.answered ≡ l.db.1

  shut_awaits : (s : Slot sq) → IsSlot sq s → s.cnct.state ≡ cnct_shut → s.cnct.queue_cnt ≡ 0
  shut_awaits s v h = subst (λ st. Settled st s.cnct.queue_cnt) h v.settled.settled

  occupied_count : (s : Slot sq) (socket : ℕ) → (occupy sq s socket).cnct.queue_cnt ≡ 0
  unfolding occupy reset_poll_cnct
  occupied_count s socket = refl

  LifeStep-IsAwaited : {l m : Life} → LifeStep l m → IsAwaited l → IsAwaited m
  LifeStep-IsAwaited {l} (serves ev k c) v = record {
    slot = process_client-IsSlot sq (counting vdb) ev k l.slot l.db c;
    awaited = omega (arith, process_client-Grown ev k l.slot l.db, v.awaited);
  }
  LifeStep-IsAwaited {l} (goes_on db) v = record { slot = v.slot; awaited = v.awaited }
  LifeStep-IsAwaited {l} (answers a s h e) v =
      let r = answer_slot_lem sq a l.slot v.slot (omega (arith, v.awaited)) in
      let same : r.0 ≡ s = ground (arith, r.1, e) in
      record {
        slot = subst (λ t. IsSlot sq t) same r.2;
        awaited =
            subst (λ t. t.cnct.queue_cnt + (l.answered + 1) ≡ l.db.1) same
              (omega (arith, r.4, v.awaited));
      }
  LifeStep-IsAwaited {l} (connects socket h) v = record {
    slot = (occupy-IsSlot sq l.slot socket v.slot h).0;
    awaited = omega (arith, occupied_count l.slot socket, shut_awaits l.slot v.slot h, v.awaited);
  }

  LifeReach-IsAwaited : {l m : Life} → LifeReach l m → IsAwaited l → IsAwaited m
  LifeReach-IsAwaited life_here v = v
  LifeReach-IsAwaited (life_next r st) v = LifeStep-IsAwaited st (LifeReach-IsAwaited r v)

  -- From a well-formed slot that awaits the answers asked for and not come, whatever its clients send and in whatever
  -- order the answers come: an answer that has been asked for is always taken, without stopping the server; and where
  -- the slot is free for a new client, every answer asked for has come, so that the new client gets none of them.
  pub life_answers :
      (l m : Life)
      → IsAwaited l
      → LifeReach l m
      → (m.answered < m.db.1 → (a : Answer) → (s : Slot sq) × (answer_slot sq a m.slot ≡ done s))
        × (m.slot.cnct.state ≡ cnct_shut → m.answered ≡ m.db.1)
  life_answers l m v r =
      let w = LifeReach-IsAwaited r v in
      (
        λ h a. let t = answer_slot_lem sq a m.slot w.slot (omega (arith, w.awaited)) in (t.0, t.1),
        λ h. omega (arith, shut_awaits m.slot w.slot h, w.awaited),
      )
