-- ===== src/Serve/Dumb.antt =====
-- Serving one client after the other: no assertion fails at the end of a connection, and no socket stays open.
use smtp_course_work.Base.{
  ℕ, ◌≡◌, ◌⊎◌, inl, inr, refl, ◌∙◌, Bool, true, false, Option, none, some, List, [], ◌∷◌, Bytes,
  arith, Bool-cases,
}
use smtp_course_work.Kernel.{Call, returns, waits, aborts, Call-cases}
use smtp_course_work.Cnct.{Cnct, init_fd_cnct, reset_fd_cnct, destroy_cnct}
use smtp_course_work.Cmds.{Vdb}
use smtp_course_work.CnctIo.{process_cnct}
use smtp_course_work.CnctIo.Keeps.{process_cnct_queue_cnt}
use smtp_course_work.Serve.{
  Turn, Session, serve_client, Visit, visits, interrupted, refused, stopped, after_visit,
  run_server,
}

result-cases :
    (r : Call (Option ℕ))
    → (r ≡ returns none) ⊎ ((n : ℕ) × (r ≡ returns (some n))) ⊎ (r ≡ waits) ⊎ (r ≡ aborts)
result-cases (returns none) = inl refl
result-cases (returns (some n)) = inr (inl (n, refl))
result-cases waits = inr (inr (inl refl))
result-cases aborts = inr (inr (inr refl))

fresh_queue :
    (mutex : Bool) (block : Option Bytes) (fd : Option ℕ) (c : Cnct)
    → init_fd_cnct mutex block fd ≡ some c
    → c.queue_cnt ≡ 0
unfolding init_fd_cnct reset_fd_cnct
fresh_queue mutex none fd c h = absurd (ground (arith, h))
fresh_queue true (some b) fd c h = ground (arith, h)
fresh_queue false (some b) fd c h = absurd (ground (arith, h))

module _ {S : Type 0} (vdb : Vdb S) (sync : vdb.has_async ≡ false) where
  serve_queue_cnt :
      (turns : List Turn) (c : Cnct) (db : S)
      → (serve_client vdb turns c db).cnct.queue_cnt ≡ c.queue_cnt
  unfolding serve_client
  serve_queue_cnt [] c db = refl
  serve_queue_cnt (t ∷ turns) c db =
      let p = process_cnct vdb t.got_block t.received t.sends c db in
      let kept = process_cnct_queue_cnt vdb t.sends t.got_block t.received c db sync in
      elim (Bool-cases t.running) [
        | inr stop ↦ rw (stop, serve_client) refl
        | inl go ↦ elim (result-cases p.result) [
          | inl e ↦ rw (go, e, serve_client) kept
          | inr (inl (n, e)) ↦ rw (go, e, serve_client) (serve_queue_cnt turns p.cnct p.db ∙ kept)
          | inr (inr (inl e)) ↦ rw (go, e, serve_client) kept
          | inr (inr (inr e)) ↦ rw (go, e, serve_client) kept
        ]
      ]

  -- what `after_visit` makes of the end of a session where its assertion holds
  abbrev pub closed_by : Session S → Call (Bool × S)
  closed_by v = elim v.ended [
    | waits ↦ waits
    | aborts ↦ aborts
    | returns running ↦ returns (running, v.db)
  ]

  closed_lem : (v : Session S) → v.cnct.queue_cnt ≡ 0 → after_visit vdb v ≡ closed_by v
  unfolding after_visit destroy_cnct
  closed_lem v h = elim (Call-cases v.ended) [
    | inl (b, e) ↦ rw (e, h, after_visit) refl
    | inr (inl e) ↦ rw (e, after_visit) refl
    | inr (inr e) ↦ rw (e, after_visit) refl
  ]

  -- With a database without asynchronous gets, for every course of a session on a new connection, the assertion of
  -- `destroy_cnct` at its end holds: the server goes on with the database that the session has left.
  pub destroy_holds :
      (mutex : Bool) (block : Option Bytes) (socket : ℕ) (c : Cnct) (turns : List Turn) (db : S)
      → init_fd_cnct mutex block (some socket) ≡ some c
      → after_visit vdb (serve_client vdb turns c db) ≡ closed_by (serve_client vdb turns c db)
  destroy_holds mutex block socket c turns db h =
      closed_lem (serve_client vdb turns c db)
        (serve_queue_cnt turns c db ∙ fresh_queue mutex block (some socket) c h)

after-cases :
    {S : Type 0} (r : Call (Bool × S))
    → ((db : S) × (r ≡ returns (true, db)))
      ⊎ ((db : S) × (r ≡ returns (false, db)))
      ⊎ (r ≡ waits)
      ⊎ (r ≡ aborts)
after-cases (returns (true, db)) = inl (db, refl)
after-cases (returns (false, db)) = inr (inl (db, refl))
after-cases waits = inr (inr (inl refl))
after-cases aborts = inr (inr (inr refl))

-- The connection of each client is made.
abbrev pub AllMade : List Visit → Type 0
AllMade [] = Unit
AllMade (visits socket mutex block turns ∷ vs) =
    ((c : Cnct) × (init_fd_cnct mutex block (some socket) ≡ some c)) × AllMade vs
AllMade (_ ∷ vs) = AllMade vs

module _ {S : Type 0} (vdb : Vdb S) where
  run_server_open :
      (vs : List Visit) (db : S) (wires : List Bytes)
      → AllMade vs
      → (run_server vdb vs db wires).ended ≡ returns tt
      → (run_server vdb vs db wires).left_open ≡ []
  unfolding run_server
  run_server_open [] db wires m e = refl
  run_server_open (interrupted ∷ vs) db wires m e = run_server_open vs db wires m e
  run_server_open (stopped ∷ vs) db wires m e = refl
  run_server_open (refused ∷ vs) db wires m e = refl
  run_server_open (visits socket mutex block turns ∷ vs) db wires m e =
      let (c, made) = m.0 in
      let v = serve_client vdb turns c db in
      elim (after-cases (after_visit vdb v)) [
        | inl (d, a) ↦
            rw (made, a, run_server)
              (run_server_open vs d (v.wire ∷ wires) m.1 (rw (made, a, run_server) at e))
        | inr (inl (d, a)) ↦ rw (made, a, run_server) refl
        | inr (inr (inl a)) ↦
            rw (made, a, run_server) (absurd (ground (arith, rw (made, a, run_server) at e)))
        | inr (inr (inr a)) ↦
            rw (made, a, run_server) (absurd (ground (arith, rw (made, a, run_server) at e)))
      ]
