-- ===== src/Cmds/Session.antt =====
-- The commands over a database that is a map: what a client reads is what it has written.
use smtp_course_work.Base.{
  ℕ, ◌≡◌, ◌≢◌, refl, ap, ◌∙◌, true, false, Option, none, some, [], ◌∷◌, ◌++◌, Outcome, done, Bytes,
  bytes_eq, bytes_eq_refl, ◌==◌, if◌then◌else◌, arith, Bool-cases, inl, inr,
}
use smtp_course_work.Cnct.{Cnct}
use smtp_course_work.Cmds.{Vdb, CmdResult, split_space, cmd_set, cmd_drop, process_cmd}

-- A database that answers at once: its operations, the states that they keep, the keys that it takes, and
-- the map that it is.
pub record MapDb : Type 1 where
  pub State : Type 0
  pub get : State → Bytes → Outcome (Option Bytes)
  pub set : State → Bytes → Option Bytes → Outcome State
  pub Valid : State → Type 0
  pub Takes : Bytes → Type 0
  pub view : State → Bytes → Option Bytes
  pub get_lem : (s : State) (k : Bytes) → Valid s → Takes k → get s k ≡ done (view s k)
  pub set_lem :
      (s : State) (k : Bytes) (o : Option Bytes)
      → Valid s
      → Takes k
      → (s' : State) × (set s k o ≡ done s')
        × ((j : Bytes) → view s' j ≡ (if bytes_eq k j then o else view s j))
        × Valid s'

-- No byte is a space.
abbrev pub NoSpace : Bytes → Type 0
NoSpace [] = Unit
NoSpace (c ∷ s) = (c ≢ b' ') × NoSpace s

split_space-append :
    (key value : Bytes) → NoSpace key → split_space (key ++ b' ' ∷ value) ≡ some (key, value)
unfolding split_space
split_space-append [] value h = refl
split_space-append (c ∷ key) value h = ground (arith, split_space-append key value h.1)

module _ (m : MapDb) where
  -- the function pointers of such a database
  abbrev pub vdb_of : Vdb m.State
  vdb_of = record { get = some m.get; set = m.set; geta = none; has_async = false }

  abbrev pub replied : Option Bytes → m.State → Option Cnct → Outcome (CmdResult m.State)
  replied answer db arg = done (record { answer = answer; to_send = true; db = db; arg = arg })

  -- `?key` answers the value of the key, or NULL, and changes nothing.
  pub process_cmd-get :
      (db : m.State) (k : Bytes) (arg : Option Cnct)
      → m.Valid db
      → m.Takes k
      → process_cmd vdb_of (b'?' ∷ k) db arg ≡ replied (m.view db k) db arg
  unfolding process_cmd
  process_cmd-get db k arg v t = rw (m.get_lem db k v t) refl

  -- From a valid database, `=key value`, with a key that it takes and that holds no space, succeeds without an
  -- answer; then `?key` answers the value, also an empty one, and `-key` leads to a database where `?key` answers
  -- NULL; and both leave the value of every other key as it was.
  pub process_cmd_session :
      (db : m.State) (k w : Bytes) (arg : Option Cnct)
      → m.Valid db
      → m.Takes k
      → NoSpace k
      → (db₁ db₂ : m.State) × (process_cmd vdb_of (b'=' ∷ (k ++ b' ' ∷ w)) db arg
          ≡ replied none db₁ arg)
        × (process_cmd vdb_of (b'?' ∷ k) db₁ arg ≡ replied (some w) db₁ arg)
        × (process_cmd vdb_of (b'-' ∷ k) db₁ arg ≡ replied none db₂ arg)
        × (process_cmd vdb_of (b'?' ∷ k) db₂ arg ≡ replied none db₂ arg)
        × ((j : Bytes)
            → bytes_eq k j ≡ false
            → (m.view db₁ j ≡ m.view db j) × (m.view db₂ j ≡ m.view db j))
  unfolding process_cmd
  process_cmd_session db k w arg v t free =
      let s₁ = m.set_lem db k (some w) v t in
      let s₂ = m.set_lem s₁.0 k none s₁.3 t in
      (
        s₁.0,
        s₂.0,
        rw (split_space-append k w free, cmd_set, s₁.1) refl,
        process_cmd-get s₁.0 k arg s₁.3 t
            ∙ ap (λ o. replied o s₁.0 arg) (s₁.2 k ∙ (rw (bytes_eq_refl k))),
        rw (s₂.1, cmd_drop) refl,
        process_cmd-get s₂.0 k arg s₂.3 t
            ∙ ap (λ o. replied o s₂.0 arg) (s₂.2 k ∙ (rw (bytes_eq_refl k))),
        λ j ne.
            let e₁ : m.view s₁.0 j ≡ m.view db j = s₁.2 j ∙ (rw ne) in (e₁, s₂.2 j ∙ (rw ne e₁)),
      )

  -- A request that is empty, begins with another byte, or sets a value with no space in it, is answered
  -- with NULL and changes nothing.
  pub process_cmd_ignored :
      (db : m.State) (c : ℕ) (rest : Bytes) (arg : Option Cnct)
      → (c ≡ b'=' → split_space rest ≡ none)
      → c ≢ b'?'
      → c ≢ b'-'
      → process_cmd vdb_of (c ∷ rest) db arg ≡ replied none db arg
  unfolding process_cmd
  process_cmd_ignored db c rest arg a b d = elim (Bool-cases (c == b'=')) [
    | inl e ↦
        let no_space : split_space rest ≡ none = a (ground arith) in rw (e, no_space, cmd_set) refl
    | inr ne ↦
        let not_get : (c == b'?') ≡ false = ground (arith, b) in
        let not_drop : (c == b'-') ≡ false = ground (arith, d) in rw (ne, not_get, not_drop) refl
  ]
