-- ===== src/Poll/Invariant.antt =====
-- A round of the poll server keeps its slots well formed.
use smtp_course_work.Base.{
  ℕ, suc, ◌≡◌, ◌≢◌, inl, inr, refl, subst, ap, ◌∙◌, false, ◌||◌, none, some, List, [], ◌∷◌, Bytes,
  ◌==◌, arith, Bool-cases, Option-cases,
}
use smtp_course_work.Stailq.{Stailq}
use smtp_course_work.Kernel.{Call, returns, waits, aborts, Call-cases}
use smtp_course_work.Cmds.{Vdb}
use smtp_course_work.Poll.{Slot, interrupted, Events, ClientReplies, process_client}
use smtp_course_work.Poll.Slots.{Matches, IsSlot, AllSlots}
use smtp_course_work.Poll.Clients.{IsConnected, process_client-IsSlot}
use smtp_course_work.Poll.Round.{
  PollReply, ready, interrupted, failed, Round, Polled, is_skipped, poll_control, poll_bound,
  poll_client, poll_clients, poll_fds,
}
use smtp_course_work.Poll.Prepared.{
  Like, Prepared, Owes, poll_control-Prepared, poll_bound-Prepared,
}

module _ (sq : Stailq Bytes) where
  skips_none :
      (s : Slot sq) (ev : Events) (n : ℕ) → s.fd ≡ none → ((n == 0) || is_skipped sq s ev) ≢ false
  unfolding is_skipped
  skips_none s ev n gone h = elim (Bool-cases (n == 0)) [
    | inl z ↦ absurd (ground (arith, h, z))
    | inr z ↦ absurd (ground (arith, h, z, gone))
  ]

  module _ {S : Type 0} (vdb : Vdb S) where
    -- Serving one of the clients, from the last slot down, stops the process: `here`, where the slots behind have been
    -- served and left the database and the number of events that the client meets, or behind the first.
    pub data Stops (left : ℕ) (db : S)
        : List (Events × ClientReplies) → List (Slot sq) → Type 0 where
      stops_here :
          (ev : Events) (k : ClientReplies) (events : List (Events × ClientReplies)) (s : Slot sq)
          (slots : List (Slot sq)) (p : Polled sq S)
          → poll_clients sq vdb events left slots db ≡ returns p
          → ((p.left == 0) || is_skipped sq s ev) ≡ false
          → (process_client sq vdb ev k s p.db).removed ≡ aborts
          → Stops left db ((ev, k) ∷ events) (s ∷ slots)
      stops_behind :
          (x : Events × ClientReplies) (events : List (Events × ClientReplies)) (s : Slot sq)
          (slots : List (Slot sq))
          → Stops left db events slots
          → Stops left db (x ∷ events) (s ∷ slots)

    abbrev Clients :
        ℕ → S → List (Events × ClientReplies) → List (Slot sq) → Call (Polled sq S) → Type 0
    Clients left db events slots (returns p) = Like sq slots p.slots
    Clients left db events slots waits = Unit
    Clients left db events slots aborts = Stops left db events slots

    fd-IsConnected : (s : Slot sq) (fd : ℕ) → IsSlot sq s → s.fd ≡ some fd → IsConnected sq s
    fd-IsConnected s fd v h = record {
      fd = fd;
      has_fd = h;
      opened = subst (λ f. Matches f s.cnct.state) h v.matches;
    }

    poll_client-Clients :
        (left : ℕ) (db : S) (ev : Events) (k : ClientReplies)
        (events : List (Events × ClientReplies)) (s : Slot sq) (slots : List (Slot sq))
        (p : Polled sq S)
        → poll_clients sq vdb events left slots db ≡ returns p
        → IsSlot sq s
        → Like sq slots p.slots
        → Clients left db ((ev, k) ∷ events) (s ∷ slots) (poll_client sq vdb ev k s p)
    unfolding poll_client
    poll_client-Clients left db ev k events s slots p behind v h =
        elim (Bool-cases ((p.left == 0) || is_skipped sq s ev)) [
          | inl z ↦ rw z ((v, h.0), ap suc h.1)
          | inr z ↦ elim (Option-cases s.fd) [
            | inl gone ↦ absurd (skips_none s ev p.left gone z)
            | inr (fd, here) ↦
                let c = process_client sq vdb ev k s p.db in
                let kept = process_client-IsSlot sq vdb ev k s p.db (fd-IsConnected s fd v here) in
                elim (Call-cases c.removed) [
                  | inl (r, e) ↦ rw (z, e, poll_client) ((kept, h.0), ap suc h.1)
                  | inr (inl e) ↦ rw (z, e, poll_client) tt
                  | inr (inr e) ↦
                      rw (z, e, poll_client) (stops_here ev k events s slots p behind z e)
                ]
          ]
        ]

    poll_clients-Clients :
        (events : List (Events × ClientReplies)) (left : ℕ) (slots : List (Slot sq)) (db : S)
        → AllSlots sq slots
        → Clients left db events slots (poll_clients sq vdb events left slots db)
    unfolding poll_clients
    poll_clients-Clients events left [] db v = (tt, refl)
    poll_clients-Clients [] left (s ∷ slots) db v = (v, refl)
    poll_clients-Clients ((ev, k) ∷ events) left (s ∷ slots) db v =
        let ih = poll_clients-Clients events left slots db v.1 in
        elim (Call-cases (poll_clients sq vdb events left slots db)) [
          | inl (p, e) ↦
              rw (e, poll_clients)
                (poll_client-Clients left db ev k events s slots p e v.0
                  (subst (Clients left db events slots) e ih))
          | inr (inl e) ↦ rw (e, poll_clients) tt
          | inr (inr e) ↦
              rw (e, poll_clients)
                (stops_behind (ev, k) events s slots (subst (Clients left db events slots) e ih))
        ]

    -- The process stops: `poll` fails, or serving a client does it, from the slots that the control pipe and the
    -- bound socket have left.
    pub data RoundStops (round : Round) (slots : List (Slot sq)) (db : S) : Type 0 where
      poll_fails : round.reply ≡ failed → RoundStops round slots db
      client_stops :
          (n left left' : ℕ) (slots₁ slots₂ : List (Slot sq))
          → round.reply ≡ ready n
          → poll_control sq round.control n slots ≡ returns (left, slots₁)
          → poll_bound sq round.bound left slots₁ ≡ returns (left', slots₂)
          → Like sq slots slots₂
          → Stops left' db round.clients slots₂
          → RoundStops round slots db

    -- what a round leaves: its slots, a wait, or the end of the process
    abbrev pub Rounded : Round → List (Slot sq) → S → Call (Polled sq S) → Type 0
    Rounded round slots db (returns p) = Like sq slots p.slots
    Rounded round slots db waits = Unit
    Rounded round slots db aborts = RoundStops round slots db

    Clients-Rounded :
        (round : Round) (n left left' : ℕ) (slots slots₁ slots₂ : List (Slot sq)) (db : S)
        (r : Call (Polled sq S))
        → round.reply ≡ ready n
        → poll_control sq round.control n slots ≡ returns (left, slots₁)
        → poll_bound sq round.bound left slots₁ ≡ returns (left', slots₂)
        → Like sq slots slots₂
        → Clients left' db round.clients slots₂ r
        → Rounded round slots db r
    Clients-Rounded round n left left' slots slots₁ slots₂ db (returns p) e a b l h =
        (h.0, h.1 ∙ l.1)
    Clients-Rounded round n left left' slots slots₁ slots₂ db waits e a b l h = tt
    Clients-Rounded round n left left' slots slots₁ slots₂ db aborts e a b l h =
        client_stops n left left' slots₁ slots₂ e a b l h

    ready-Rounded :
        (round : Round) (n : ℕ) (slots : List (Slot sq)) (db : S)
        → AllSlots sq slots
        → Owes sq round.control slots
        → Rounded
            (record round { reply = ready n })
            slots
            db
            (poll_fds sq vdb (record round { reply = ready n }) slots db)
    unfolding poll_fds
    ready-Rounded round n slots db v h =
        let first = poll_control-Prepared sq round.control n slots v h in
        elim (Call-cases (poll_control sq round.control n slots)) [
          | inr (inl a) ↦ rw (a, poll_fds) tt
          | inr (inr a) ↦ absurd (subst (Prepared sq slots) a first)
          | inl ((left, slots₁), a) ↦
              let l = subst (Prepared sq slots) a first in
              let second = poll_bound-Prepared sq round.bound left slots₁ l.0 in
              elim (Call-cases (poll_bound sq round.bound left slots₁)) [
                | inr (inl b) ↦ rw (a, b, poll_fds) tt
                | inr (inr b) ↦ absurd (subst (Prepared sq slots₁) b second)
                | inl ((left', slots₂), b) ↦
                    let m = subst (Prepared sq slots₁) b second in
                    rw (a, b, poll_fds)
                      (Clients-Rounded (record round { reply = ready n }) n left left' slots slots₁
                        slots₂ db (poll_clients sq vdb round.clients left' slots₂ db) refl a b
                        (m.0, m.1 ∙ l.1) (poll_clients-Clients round.clients left' slots₂ db m.0))
              ]
        ]

    reply-Rounded :
        (reply : PollReply) (round : Round) (slots : List (Slot sq)) (db : S)
        → AllSlots sq slots
        → Owes sq round.control slots
        → Rounded
            (record round { reply = reply })
            slots
            db
            (poll_fds sq vdb (record round { reply = reply }) slots db)
    unfolding poll_fds
    reply-Rounded (ready n) round slots db v h = ready-Rounded round n slots db v h
    reply-Rounded interrupted round slots db v h = (v, refl)
    reply-Rounded failed round slots db v h = poll_fails refl

    -- From well-formed slots, where the answers that come by the control pipe are owed and its reads do not fail, a
    -- round leaves as many slots, all well formed, or waits in a call; it stops the process only where `poll` fails,
    -- or where the slots left by the control pipe and the bound socket, as many and well formed, are served from the
    -- last one down and serving one of them stops it, with the database as the slots behind it have left it.
    pub poll_fds-Rounded :
        (round : Round) (slots : List (Slot sq)) (db : S)
        → AllSlots sq slots
        → Owes sq round.control slots
        → Rounded round slots db (poll_fds sq vdb round slots db)
    poll_fds-Rounded round slots db v h = reply-Rounded round.reply round slots db v h
