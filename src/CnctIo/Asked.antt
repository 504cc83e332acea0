-- ===== src/CnctIo/Asked.antt =====
-- A connection counts an answer to come for each asynchronous get that is made for it.
use smtp_course_work.Base.{
  ℕ, ◌+◌, ◌≡◌, inl, inr, refl, subst, Bool, true, false, Option, none, some, List, [], ◌∷◌, Outcome,
  done, abort, Bytes, c_string, length, ◌==◌, arith, Bool-cases, Option-cases,
}
use smtp_course_work.Kernel.{SendReply, RecvReply}
use smtp_course_work.Buffer.{Buffer, buffer_find, buffer_cut, buffer_space, buffer_shift}
use smtp_course_work.Telnet.{suffix, suffix_len, strip_telnet_cmd, recv_at_start}
use smtp_course_work.Cnct.{Cnct, inc_queue_cnt}
use smtp_course_work.Cmds.{
  Vdb, CmdResult, split_space, cmd_set, notify, cmd_get, cmd_drop, process_cmd,
}
use smtp_course_work.CnctIo.{arg_or, process_request, process_line, process_received, process_cnct}
use smtp_course_work.CnctIo.Keeps.{Outcome-cases, Status-cases}

inc_count : (c c' : Cnct) → inc_queue_cnt c ≡ done c' → c'.queue_cnt ≡ c.queue_cnt + 1
unfolding inc_queue_cnt
inc_count c c' h = ground (arith, h)

module _ {S : Type 0} where
  abbrev count_call : Outcome S → ℕ → Outcome (S × ℕ)
  count_call abort n = abort
  count_call (done s) n = done (s, n)

  -- The database, with the number of asynchronous gets that it has been asked for.
  abbrev pub counting : Vdb S → Vdb (S × ℕ)
  counting vdb = record {
    get = elim vdb.get [ none ↦ none | some get ↦ some (λ d key. get d.0 key) ];
    set = λ d key value. count_call (vdb.set d.0 key value) d.1;
    geta = elim vdb.geta [
      | none ↦ none
      | some geta ↦ some (λ d key. count_call (geta d.0 key) (d.1 + 1))
    ];
    has_async = vdb.has_async;
  }

  -- As many answers more are to come as gets have been asked for.
  abbrev pub Asked : Cnct → S × ℕ → Cnct → S × ℕ → Type 0
  Asked c db c' db' = c'.queue_cnt + db.1 ≡ c.queue_cnt + db'.1

  abbrev AskedOut : Cnct → S × ℕ → Outcome (CmdResult (S × ℕ)) → Type 0
  AskedOut c db abort = Unit
  AskedOut c db (done r) = Asked c db (arg_or r.arg c) r.db

  module _ (vdb : Vdb S) (c : Cnct) (db : S × ℕ) where
    cmd_set-Asked : (rest : Bytes) → AskedOut c db (cmd_set (counting vdb) rest db (some c))
    unfolding cmd_set
    cmd_set-Asked rest = elim (Option-cases (split_space rest)) [
      | inl h ↦ rw (h, cmd_set) refl
      | inr ((k, v), h) ↦ elim (Outcome-cases (vdb.set db.0 k (some v))) [
        | inl e ↦ rw (h, e, cmd_set) tt
        | inr (d, e) ↦ rw (h, e, cmd_set) refl
      ]
    ]

    cmd_drop-Asked : (rest : Bytes) → AskedOut c db (cmd_drop (counting vdb) rest db (some c))
    unfolding cmd_drop
    cmd_drop-Asked rest = elim (Outcome-cases (vdb.set db.0 rest none)) [
      | inl e ↦ rw (e, cmd_drop) tt
      | inr (d, e) ↦ rw (e, cmd_drop) refl
    ]

    get_async-Asked :
        (rest : Bytes)
        → vdb.has_async ≡ true
        → AskedOut c db (cmd_get (counting vdb) rest db (some c))
    unfolding cmd_get notify
    get_async-Asked rest h = elim (Option-cases vdb.geta) [
      | inl no_geta ↦ rw (h, no_geta, cmd_get) tt
      | inr (geta, has) ↦ elim (Outcome-cases (inc_queue_cnt c)) [
        | inl e ↦ rw (h, has, e, cmd_get, notify) tt
        | inr (c', e) ↦ elim (Outcome-cases (geta db.0 rest)) [
          | inl f ↦ rw (h, has, e, f, cmd_get, notify) tt
          | inr (d, f) ↦ rw (h, has, e, f, cmd_get, notify) (omega (arith, inc_count c c' e))
        ]
      ]
    ]

    get_sync-Asked :
        (rest : Bytes)
        → vdb.has_async ≡ false
        → AskedOut c db (cmd_get (counting vdb) rest db (some c))
    unfolding cmd_get
    get_sync-Asked rest h = elim (Option-cases vdb.get) [
      | inl no_get ↦ rw (h, no_get, cmd_get) tt
      | inr (get, has) ↦ elim (Outcome-cases (get db.0 rest)) [
        | inl f ↦ rw (h, has, f, cmd_get) tt
        | inr (d, f) ↦ rw (h, has, f, cmd_get) refl
      ]
    ]

    process_cmd-Asked : (cmd : Bytes) → AskedOut c db (process_cmd (counting vdb) cmd db (some c))
    unfolding process_cmd
    process_cmd-Asked [] = refl
    process_cmd-Asked (x ∷ rest) = elim (Bool-cases (x == b'=')) [
      | inl a ↦ rw a (cmd_set-Asked rest)
      | inr a ↦ elim (Bool-cases (x == b'?')) [
        | inl b ↦
            rw (a, b)
              (elim (Bool-cases vdb.has_async) [
                | inl h ↦ get_async-Asked rest h
                | inr h ↦ get_sync-Asked rest h
              ])
        | inr b ↦ elim (Bool-cases (x == b'-')) [
          | inl d ↦ rw (a, b, d) (cmd_drop-Asked rest)
          | inr d ↦ rw (a, b, d) refl
        ]
      ]
    ]

  module _ (vdb : Vdb S) (sends : List SendReply) where
    process_request-Asked :
        (c : Cnct) (request : Bytes) (db : S × ℕ)
        → Asked c db
            (process_request (counting vdb) sends c request db).cnct
            (process_request (counting vdb) sends c request db).db
    unfolding process_request
    process_request-Asked c request db =
        let r = process_cmd (counting vdb) request db (some c) in
        elim (Outcome-cases r) [
          | inl e ↦ rw (e, process_request) refl
          | inr (out, e) ↦
              let asked = subst (AskedOut c db) e (process_cmd-Asked vdb c db request) in
              elim (Bool-cases out.to_send) [
                | inl t ↦ rw (e, t, process_request) asked
                | inr t ↦ rw (e, t, process_request) asked
              ]
        ]

    process_line-Asked :
        (c : Cnct) (db : S × ℕ) (line : Option Bytes)
        → Asked c db
            (process_line (counting vdb) sends c db line).cnct
            (process_line (counting vdb) sends c db line).db
    unfolding process_line
    process_line-Asked c db none = refl
    process_line-Asked c db (some block) = elim (Status-cases (strip_telnet_cmd block).0) [
      | inl h ↦
          rw (h, process_line) (process_request-Asked c (c_string (strip_telnet_cmd block).1) db)
      | inr h ↦ rw (h, process_line) refl
    ]

    process_received-Asked :
        (got_block : Bool) (c : Cnct) (db : S × ℕ) (buf : Buffer)
        → Asked c db
            (process_received (counting vdb) got_block sends c db buf).cnct
            (process_received (counting vdb) got_block sends c db buf).db
    unfolding process_received
    process_received-Asked got_block c db buf = elim (Option-cases (buffer_find buf suffix)) [
      | inl h ↦ rw (h, process_received) refl
      | inr (pos, h) ↦
          let cut = buffer_cut got_block buf (pos + suffix_len) in
          rw (h, process_received) (process_line-Asked (record c { buf = cut.1 }) db cut.0)
    ]

    came-Asked :
        (got_block : Bool) (reply : RecvReply) (c : Cnct) (db : S × ℕ) (spc : ℕ)
        → buffer_space c.buf ≡ done spc
        → (spc == 0) ≡ false
        → Asked c db
            (process_cnct (counting vdb) got_block reply sends c db).cnct
            (process_cnct (counting vdb) got_block reply sends c db).db
    unfolding process_cnct
    came-Asked got_block reply c db spc h n = elim (Outcome-cases (recv_at_start c.buf reply spc)) [
      | inl e ↦ rw (h, n, e, process_cnct) refl
      | inr (r, e) ↦ elim (Option-cases r) [
        | inl f ↦ rw (h, n, e, f, process_cnct) refl
        | inr ((bs, buf), f) ↦ elim (Bool-cases (length bs == 0)) [
          | inl z ↦ rw (h, n, e, f, z, process_cnct) refl
          | inr z ↦
              rw (h, n, e, f, z, process_cnct)
                (process_received-Asked got_block c db (buffer_shift buf (length bs)).1)
        ]
      ]
    ]

    -- On every path of `process_cnct`, whatever is received, the count of the answers that the connection awaits grows
    -- by the number of asynchronous gets that the database is asked for.
    pub process_cnct-Asked :
        (got_block : Bool) (reply : RecvReply) (c : Cnct) (db : S × ℕ)
        → Asked c db
            (process_cnct (counting vdb) got_block reply sends c db).cnct
            (process_cnct (counting vdb) got_block reply sends c db).db
    unfolding process_cnct
    process_cnct-Asked got_block reply c db = elim (Outcome-cases (buffer_space c.buf)) [
      | inl e ↦ rw (e, process_cnct) refl
      | inr (spc, e) ↦ elim (Bool-cases (spc == 0)) [
        | inl z ↦ rw (e, z, process_cnct) refl
        | inr z ↦ came-Asked got_block reply c db spc e z
      ]
    ]
