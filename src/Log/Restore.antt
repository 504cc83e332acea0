-- ===== src/Log/Restore.antt =====
-- A redirection that is set up and taken back leaves the descriptor as it was, and one descriptor too many.
use smtp_course_work.Base.{
  ℕ, ◌≡◌, ◌≢◌, ◌⊎◌, inl, inr, refl, sym, ◌∙◌, subst, true, Option, none, some, List, [], ◌∷◌,
  Status, success, failure, ◌==◌, arith, Bool-cases,
}
use smtp_course_work.Kernel.{Call, returns, waits, aborts}
use smtp_course_work.Fd.{Reply, zero_reply, eintr_reply, error_reply, safe_close}
use smtp_course_work.Log.Redir.{
  Table, set_fd, World, Pipe, init_redir, create_pipe, dup2_retry, closed_by, activate_pipe,
  restore_fd, restore_redir,
}

pub set_fd-same : (t : Table) (fd : ℕ) (file : Option ℕ) → set_fd t fd file fd ≡ file
set_fd-same t fd file = rw (same fd) refl
  where
    same : (a : ℕ) → (a == a) ≡ true
    same a = ground arith

pub set_fd-other : (t : Table) (fd i : ℕ) (file : Option ℕ) → fd ≢ i → set_fd t fd file i ≡ t i
set_fd-other t fd i file ne = elim (Bool-cases (fd == i)) [
  | inl e ↦ absurd (ne (ground (arith, e)))
  | inr e ↦ rw e refl
]

-- what a `dup2` that succeeds leaves
dup2_done :
    (rs : List Reply) (from to : ℕ) (t : Table)
    → (dup2_retry rs from to t).0 ≡ returns success
    → (dup2_retry rs from to t).2 ≡ set_fd t to (t from)
unfolding dup2_retry
dup2_done [] from to t h = absurd (ground (arith, h))
dup2_done (zero_reply ∷ rs) from to t h = refl
dup2_done (eintr_reply ∷ rs) from to t h = dup2_done rs from to t h
dup2_done (error_reply ∷ rs) from to t h = absurd (ground (arith, h))

Status-cases :
    (c : Call Status) → (c ≡ returns success) ⊎ (c ≡ returns failure) ⊎ (c ≡ waits) ⊎ (c ≡ aborts)
Status-cases (returns success) = inl refl
Status-cases (returns failure) = inr (inl refl)
Status-cases waits = inr (inr (inl refl))
Status-cases aborts = inr (inr (inr refl))

-- an `activate_pipe` that succeeds
activated :
    (rs : List Reply) (w : World)
    → (activate_pipe rs w).0 ≡ returns success
    → (activate_pipe rs w).1
      ≡ record w { table = set_fd (set_fd w.table w.r.fd (w.table w.r.pipe_in)) w.r.pipe_out none }
unfolding activate_pipe
activated rs w =
    let d = dup2_retry rs w.r.pipe_in w.r.fd w.table in
    elim (Status-cases d.0) [
      | inr (inl e) ↦ rw (e, activate_pipe) (λ h. absurd (ground (arith, h)))
      | inr (inr (inl e)) ↦ rw (e, activate_pipe) (λ h. absurd (ground (arith, h)))
      | inr (inr (inr e)) ↦ rw (e, activate_pipe) (λ h. absurd (ground (arith, h)))
      | inl e ↦ rw (e, dup2_done rs w.r.pipe_in w.r.fd w.table e, activate_pipe) (λ h. rw h refl)
    ]

-- what a `restore_redir` that succeeds leaves, by the result of `safe_close`
abbrev pub taken_back : ℕ → Call Status → World → World
taken_back saved c w = record {
  r = record w.r { saved_fd = none };
  table = set_fd (closed_by c w.r.pipe_in w.table) w.r.fd (closed_by c w.r.pipe_in w.table saved);
}

restored_fd :
    (saved : ℕ) (c : Call Status) (rs : List Reply) (w : World)
    → (restore_fd saved c rs w).0 ≡ returns success
    → (restore_fd saved c rs w).1 ≡ taken_back saved c w
unfolding restore_fd
restored_fd saved waits rs w h = absurd (ground (arith, h))
restored_fd saved aborts rs w h = absurd (ground (arith, h))
restored_fd saved (returns s) rs w h =
    let t = closed_by (returns s) w.r.pipe_in w.table in
    let d = dup2_retry rs saved w.r.fd t in
    elim (Status-cases d.0) [
      | inr (inl e) ↦ absurd (ground (arith, rw (e, restore_fd) at h))
      | inr (inr (inl e)) ↦ absurd (ground (arith, rw (e, restore_fd) at h))
      | inr (inr (inr e)) ↦ absurd (ground (arith, rw (e, restore_fd) at h))
      | inl e ↦ rw (e, dup2_done rs saved w.r.fd t e, restore_fd) refl
    ]

pub restored :
    (rs : List Reply) (w : World) (saved : ℕ)
    → w.r.saved_fd ≡ some saved
    → (restore_redir rs w).0 ≡ returns success
    → (restore_redir rs w).1 ≡ taken_back saved (safe_close rs).0 w
unfolding restore_redir
restored rs w saved e =
    rw (e, restore_redir) (λ h. restored_fd saved (safe_close rs).0 (safe_close rs).1 w h)

pub closed_by-other : (c : Call Status) (fd i : ℕ) (t : Table) → fd ≢ i → closed_by c fd t i ≡ t i
closed_by-other (returns success) fd i t ne = set_fd-other t fd i none ne
closed_by-other (returns failure) fd i t ne = refl
closed_by-other waits fd i t ne = refl
closed_by-other aborts fd i t ne = refl

-- the redirection of the descriptor `fd`, set up with the descriptors that the kernel gives
abbrev pub prepared : ℕ → ℕ → Pipe → World → World
prepared fd saved p w = (create_pipe (some p) (init_redir (some fd) (some saved) w).1).1

-- the descriptors differ
pub record Apart (fd saved : ℕ) (p : Pipe) : Type 0 where
  pub fd_saved : fd ≢ saved
  pub fd_out : fd ≢ p.out_fd
  pub fd_in : fd ≢ p.in_fd
  pub saved_out : saved ≢ p.out_fd
  pub saved_in : saved ≢ p.in_fd
  pub out_in : p.out_fd ≢ p.in_fd

module _ (w : World) (fd saved : ℕ) (p : Pipe) (apart : Apart fd saved p) where
  -- the descriptors before `activate_pipe`, and behind it
  abbrev before : Table
  before =
      set_fd (set_fd (set_fd w.table saved (w.table fd)) p.out_fd (some p.out_end)) p.in_fd
        (some p.in_end)

  abbrev active : Table
  active = set_fd (set_fd before fd (before p.in_fd)) p.out_fd none

  active-fd : active fd ≡ some p.in_end
  active-fd =
      set_fd-other (set_fd before fd (before p.in_fd)) p.out_fd fd none (λ e. apart.fd_out (sym e))
      ∙ set_fd-same before fd (before p.in_fd)
      ∙ set_fd-same (set_fd (set_fd w.table saved (w.table fd)) p.out_fd (some p.out_end)) p.in_fd
          (some p.in_end)

  -- a descriptor that is none of these three
  active-other :
      (i : ℕ) → i ≢ fd → i ≢ p.out_fd → i ≢ p.in_fd → active i ≡ set_fd w.table saved (w.table fd) i
  active-other i a b c =
      set_fd-other (set_fd before fd (before p.in_fd)) p.out_fd i none (λ e. b (sym e))
      ∙ set_fd-other before fd i (before p.in_fd) (λ e. a (sym e))
      ∙ set_fd-other (set_fd (set_fd w.table saved (w.table fd)) p.out_fd (some p.out_end)) p.in_fd
          i (some p.in_end) (λ e. c (sym e))
      ∙ set_fd-other (set_fd w.table saved (w.table fd)) p.out_fd i (some p.out_end)
          (λ e. b (sym e))

  saved_copy : (c : Call Status) → closed_by c p.in_fd active saved ≡ w.table fd
  saved_copy c =
      closed_by-other c p.in_fd saved active (λ e. apart.saved_in (sym e))
      ∙ active-other saved (λ e. apart.fd_saved (sym e)) apart.saved_out apart.saved_in
      ∙ set_fd-same w.table saved (w.table fd)

  untouched :
      (c : Call Status) (i : ℕ)
      → i ≢ fd
      → i ≢ saved
      → i ≢ p.out_fd
      → i ≢ p.in_fd
      → closed_by c p.in_fd active i ≡ w.table i
  untouched c i a b d e =
      closed_by-other c p.in_fd i active (λ f. e (sym f))
      ∙ active-other i a d e
      ∙ set_fd-other w.table saved i (w.table fd) (λ f. b (sym f))

  -- what `redirection_lem` states of the descriptors that `activate_pipe` and then `restore_redir` leave
  abbrev pub Redirected : World → World → Type 0
  Redirected a b =
      (a.table fd ≡ some p.in_end)
      × (b.table fd ≡ w.table fd)
      × (b.table saved ≡ w.table fd)
      × (b.r.saved_fd ≡ none)
      × ((i : ℕ) → i ≢ fd → i ≢ saved → i ≢ p.out_fd → i ≢ p.in_fd → b.table i ≡ w.table i)

  -- Where the four descriptors differ, and the calls succeed, after however many interruptions: while the redirection
  -- is active, what is written to the descriptor goes into the pipe; when it is taken back, the descriptor has the
  -- file of before. The copy of that file stays open, although the redirection forgets it, and the other descriptors
  -- are as before.
  pub redirection_lem :
      (rs rs' : List Reply)
      → (activate_pipe rs (prepared fd saved p w)).0 ≡ returns success
      → (restore_redir rs' (activate_pipe rs (prepared fd saved p w)).1).0 ≡ returns success
      → Redirected
          (activate_pipe rs (prepared fd saved p w)).1
          (restore_redir rs' (activate_pipe rs (prepared fd saved p w)).1).1
  unfolding init_redir create_pipe
  redirection_lem rs rs' h h' =
      let a : World = record { r = (prepared fd saved p w).r; table = active } in
      let e : (activate_pipe rs (prepared fd saved p w)).1 ≡ a =
        activated rs (prepared fd saved p w) h in
      let c = (safe_close rs').0 in
      let b : (restore_redir rs' a).1 ≡ taken_back saved c a =
        restored rs' a saved refl (subst (λ v. (restore_redir rs' v).0 ≡ returns success) e h') in
      subst (λ v. Redirected v (restore_redir rs' v).1) (sym e)
        (subst (λ u. Redirected a u) (sym b)
          (
            active-fd,
            set_fd-same (closed_by c p.in_fd active) fd (closed_by c p.in_fd active saved)
                ∙ saved_copy c,
            set_fd-other (closed_by c p.in_fd active) fd saved (closed_by c p.in_fd active saved)
                  apart.fd_saved
                ∙ saved_copy c,
            refl,
            λ i x y z u.
                set_fd-other (closed_by c p.in_fd active) fd i (closed_by c p.in_fd active saved)
                  (λ f. x (sym f))
                ∙ untouched c i x y z u,
          ))
