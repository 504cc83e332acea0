-- ===== src/CnctIo/Keeps.antt =====
-- Whatever a client sends, `process_cnct` keeps what neither the buffer of its connection nor an asynchronous get
-- changes: the state, and without asynchronous gets the count of answers.
use smtp_course_work.Base.{
  ℕ, ◌+◌, ◌≡◌, ◌⊎◌, inl, inr, refl, ◌∙◌, subst, Bool, true, false, Option, none, some, List, [],
  ◌∷◌, Outcome, done, abort, Bytes, c_string, Status, success, failure, length, ◌==◌, arith,
  Bool-cases, Option-cases,
}
use smtp_course_work.Kernel.{SendReply, RecvReply}
use smtp_course_work.Buffer.{Buffer, buffer_find, buffer_cut, buffer_space, buffer_shift}
use smtp_course_work.Telnet.{suffix, suffix_len, strip_telnet_cmd, recv_at_start}
use smtp_course_work.Cnct.{Cnct, inc_queue_cnt}
use smtp_course_work.Cmds.{Vdb, split_space, cmd_set, notify, cmd_get, cmd_drop, process_cmd}
use smtp_course_work.CnctIo.{arg_or, process_request, process_line, process_received, process_cnct}

pub Outcome-cases : {A : Type 0} (o : Outcome A) → (o ≡ abort) ⊎ ((a : A) × (o ≡ done a))
Outcome-cases abort = inl refl
Outcome-cases (done a) = inr (a, refl)

module _ {X : Type 0} (f : Cnct → X) where
  -- The buffer does not matter.
  abbrev NoBuffer : Type 0
  NoBuffer = (c : Cnct) (buf : Buffer) → f (record c { buf = buf }) ≡ f c

  -- An asynchronous get, where the database has it, does not matter.
  abbrev NoAsync : {S : Type 0} → Vdb S → Type 0
  NoAsync vdb = vdb.has_async ≡ true → (c c' : Cnct) → inc_queue_cnt c ≡ done c' → f c' ≡ f c

  -- A connection, if there is one, is as it was.
  abbrev Kept : Cnct → Option Cnct → Type 0
  Kept c none = Unit
  Kept c (some c') = f c' ≡ f c

  abbrev OutKept {ℓ} : {S : Type ℓ} → Cnct → (S → Option Cnct) → Outcome S → Type 0
  OutKept c arg_of abort = Unit
  OutKept c arg_of (done r) = Kept c (arg_of r)

module _ {X S : Type 0} (f : Cnct → X) (vdb : Vdb S) (async : NoAsync f vdb) (c : Cnct) where
  notify-Kept : vdb.has_async ≡ true → OutKept f c (λ a. a) (notify vdb (some c))
  unfolding notify
  notify-Kept has = elim (Outcome-cases (inc_queue_cnt c)) [
    | inl h ↦ rw (h, notify) tt
    | inr (c', h) ↦ rw (h, notify) (async has c c' h)
  ]

  notify_arg :
      (arg : Option Cnct) → vdb.has_async ≡ true → notify vdb (some c) ≡ done arg → Kept f c arg
  notify_arg arg has h = subst (λ o. OutKept f c (λ a. a) o) h (notify-Kept has)

  cmd_set-Kept : (rest : Bytes) (db : S) → OutKept f c (λ r. r.arg) (cmd_set vdb rest db (some c))
  unfolding cmd_set
  cmd_set-Kept rest db = elim (Option-cases (split_space rest)) [
    | inl h ↦ rw (h, cmd_set) refl
    | inr ((k, v), h) ↦ elim (Outcome-cases (vdb.set db k (some v))) [
      | inl e ↦ rw (h, e, cmd_set) tt
      | inr (d, e) ↦ rw (h, e, cmd_set) refl
    ]
  ]

  cmd_drop-Kept : (rest : Bytes) (db : S) → OutKept f c (λ r. r.arg) (cmd_drop vdb rest db (some c))
  unfolding cmd_drop
  cmd_drop-Kept rest db = elim (Outcome-cases (vdb.set db rest none)) [
    | inl e ↦ rw (e, cmd_drop) tt
    | inr (d, e) ↦ rw (e, cmd_drop) refl
  ]

  get_async-Kept :
      (rest : Bytes) (db : S)
      → vdb.has_async ≡ true
      → OutKept f c (λ r. r.arg) (cmd_get vdb rest db (some c))
  unfolding cmd_get
  get_async-Kept rest db h = elim (Option-cases vdb.geta) [
    | inl no_geta ↦ rw (h, no_geta, cmd_get) tt
    | inr (geta, has) ↦ elim (Outcome-cases (notify vdb (some c))) [
      | inl e ↦ rw (h, has, e, cmd_get) tt
      | inr (arg, e) ↦ elim (Outcome-cases (geta db rest)) [
        | inl f ↦ rw (h, has, e, f, cmd_get) tt
        | inr (d, f) ↦ rw (h, has, e, f, cmd_get) (notify_arg arg h e)
      ]
    ]
  ]

  get_sync-Kept :
      (rest : Bytes) (db : S)
      → vdb.has_async ≡ false
      → OutKept f c (λ r. r.arg) (cmd_get vdb rest db (some c))
  unfolding cmd_get
  get_sync-Kept rest db h = elim (Option-cases vdb.get) [
    | inl no_get ↦ rw (h, no_get, cmd_get) tt
    | inr (get, has) ↦ elim (Outcome-cases (get db rest)) [
      | inl f ↦ rw (h, has, f, cmd_get) tt
      | inr (d, f) ↦ rw (h, has, f, cmd_get) refl
    ]
  ]

  cmd_get-Kept : (rest : Bytes) (db : S) → OutKept f c (λ r. r.arg) (cmd_get vdb rest db (some c))
  cmd_get-Kept rest db = elim (Bool-cases vdb.has_async) [
    | inl h ↦ get_async-Kept rest db h
    | inr h ↦ get_sync-Kept rest db h
  ]

  process_cmd-Kept :
      (cmd : Bytes) (db : S) → OutKept f c (λ r. r.arg) (process_cmd vdb cmd db (some c))
  unfolding process_cmd
  process_cmd-Kept [] db = refl
  process_cmd-Kept (x ∷ rest) db = elim (Bool-cases (x == b'=')) [
    | inl a ↦ rw a (cmd_set-Kept rest db)
    | inr a ↦ elim (Bool-cases (x == b'?')) [
      | inl b ↦ rw (a, b) (cmd_get-Kept rest db)
      | inr b ↦ elim (Bool-cases (x == b'-')) [
        | inl d ↦ rw (a, b, d) (cmd_drop-Kept rest db)
        | inr d ↦ rw (a, b, d) refl
      ]
    ]
  ]

  arg_state : (arg : Option Cnct) → Kept f c arg → f (arg_or arg c) ≡ f c
  arg_state none h = refl
  arg_state (some c') h = h

  pub process_request_state :
      (sends : List SendReply) (request : Bytes) (db : S)
      → f (process_request vdb sends c request db).cnct ≡ f c
  unfolding process_request
  process_request_state sends request db =
      elim (Outcome-cases (process_cmd vdb request db (some c))) [
        | inl e ↦ rw (e, process_request) refl
        | inr (out, e) ↦
            let kept =
              arg_state out.arg
                (subst (λ o. OutKept f c (λ r. r.arg) o) e (process_cmd-Kept request db)) in
            elim (Bool-cases out.to_send) [
              | inl t ↦ rw (e, t, process_request) kept
              | inr t ↦ rw (e, t, process_request) kept
            ]
      ]

pub Status-cases : (s : Status) → (s ≡ success) ⊎ (s ≡ failure)
Status-cases success = inl refl
Status-cases failure = inr refl

module _ {X S : Type 0} (f : Cnct → X) (buffer : NoBuffer f) (vdb : Vdb S) (async : NoAsync f vdb)
    (sends : List SendReply) where
  process_line_state :
      (c : Cnct) (db : S) (line : Option Bytes) → f (process_line vdb sends c db line).cnct ≡ f c
  unfolding process_line
  process_line_state c db none = refl
  process_line_state c db (some block) = elim (Status-cases (strip_telnet_cmd block).0) [
    | inl h ↦
        rw (h, process_line)
          (process_request_state f vdb async c sends (c_string (strip_telnet_cmd block).1) db)
    | inr h ↦ rw (h, process_line) refl
  ]

  process_received_state :
      (got_block : Bool) (c : Cnct) (db : S) (buf : Buffer)
      → f (process_received vdb got_block sends c db buf).cnct ≡ f c
  unfolding process_received
  process_received_state got_block c db buf = elim (Option-cases (buffer_find buf suffix)) [
    | inl h ↦ rw (h, process_received) (buffer c buf)
    | inr (pos, h) ↦
        let cut = buffer_cut got_block buf (pos + suffix_len) in
        rw (h, process_received)
          (process_line_state (record c { buf = cut.1 }) db cut.0 ∙ buffer c cut.1)
  ]

  -- a receive that has succeeded
  after_receive_state :
      (got_block : Bool) (reply : RecvReply) (c : Cnct) (db : S) (spc : ℕ)
      → buffer_space c.buf ≡ done spc
      → (spc == 0) ≡ false
      → f (process_cnct vdb got_block reply sends c db).cnct ≡ f c
  unfolding process_cnct
  after_receive_state got_block reply c db spc h n =
      elim (Outcome-cases (recv_at_start c.buf reply spc)) [
        | inl e ↦ rw (h, n, e, process_cnct) refl
        | inr (r, e) ↦ elim (Option-cases r) [
          | inl f ↦ rw (h, n, e, f, process_cnct) refl
          | inr ((bs, buf), f) ↦ elim (Bool-cases (length bs == 0)) [
            | inl z ↦ rw (h, n, e, f, z, process_cnct) refl
            | inr z ↦
                rw (h, n, e, f, z, process_cnct)
                  (process_received_state got_block c db (buffer_shift buf (length bs)).1)
          ]
        ]
      ]

  process_cnct_keeps :
      (got_block : Bool) (reply : RecvReply) (c : Cnct) (db : S)
      → f (process_cnct vdb got_block reply sends c db).cnct ≡ f c
  unfolding process_cnct
  process_cnct_keeps got_block reply c db = elim (Outcome-cases (buffer_space c.buf)) [
    | inl e ↦ rw (e, process_cnct) refl
    | inr (spc, e) ↦ elim (Bool-cases (spc == 0)) [
      | inl z ↦ rw (e, z, process_cnct) refl
      | inr z ↦ after_receive_state got_block reply c db spc e z
    ]
  ]

inc_state : (c c' : Cnct) → inc_queue_cnt c ≡ done c' → c'.state ≡ c.state
unfolding inc_queue_cnt
inc_state c c' h = ground (arith, h)

module _ {S : Type 0} (vdb : Vdb S) (sends : List SendReply) (got_block : Bool) (reply : RecvReply)
    (c : Cnct) (db : S) where
  -- Whatever is received and whatever the command is, the connection keeps its state.
  pub process_cnct_state : (process_cnct vdb got_block reply sends c db).cnct.state ≡ c.state
  process_cnct_state =
      process_cnct_keeps (λ d. d.state) (λ d buf. refl) vdb (λ has. inc_state) sends got_block reply
        c db

  -- Without asynchronous gets it also keeps the count of answers that are to come.
  pub process_cnct_queue_cnt :
      vdb.has_async ≡ false
      → (process_cnct vdb got_block reply sends c db).cnct.queue_cnt ≡ c.queue_cnt
  process_cnct_queue_cnt sync =
      process_cnct_keeps (λ d. d.queue_cnt) (λ d buf. refl) vdb
        (λ has. absurd (ground (arith, has, sync))) sends got_block reply c db
