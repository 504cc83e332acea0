-- ===== src/Log/Stop.antt =====
-- Stopping a logger gives both descriptors their files back.
use smtp_course_work.Base.{
  ℕ, ◌≡◌, ◌≢◌, refl, sym, ap, ◌∙◌, subst, none, some, List, Status, success,
}
use smtp_course_work.Kernel.{Call, returns}
use smtp_course_work.Fd.{Reply, safe_close}
use smtp_course_work.Log.Redir.{World, closed_by, restore_redir, waitpid_redir}
use smtp_course_work.Log.Restore.{set_fd-same, set_fd-other, closed_by-other, taken_back, restored}
use smtp_course_work.Log.Logger.{Logger, out_world, err_world, put_out, logger_stop}

-- Two descriptors that are redirected to pipes, each with a copy of its file.
pub record IsLogging (l : Logger) (out_copy err_copy : ℕ) : Type 0 where
  pub out_saved : l.out.saved_fd ≡ some out_copy
  pub err_saved : l.err.saved_fd ≡ some err_copy
  pub out_copy_in : l.out.pipe_in ≢ out_copy
  pub out_copy_err : l.out.pipe_in ≢ err_copy
  pub err_copy_in : l.err.pipe_in ≢ err_copy
  pub fds : l.out.fd ≢ l.err.fd
  pub out_err_copy : l.out.fd ≢ err_copy
  pub err_in_out : l.err.pipe_in ≢ l.out.fd

module _ (l : Logger) (out_copy err_copy : ℕ) (ok : IsLogging l out_copy err_copy) where
  -- the two redirections, taken back, by the results of `safe_close`
  abbrev out_back : Call Status → World
  out_back c = taken_back out_copy c (out_world l)

  abbrev err_back : Call Status → Call Status → World
  err_back c d = taken_back err_copy d (err_world (put_out l (out_back c)))

  -- what `logger_stop` makes of what is taken back
  abbrev stopped : World → World → Logger
  stopped o e = record {
    out = record o.r { pid = none };
    err = record e.r { pid = none };
    table = e.table;
  }

  out_restored : (c d : Call Status) → (err_back c d).table l.out.fd ≡ l.table out_copy
  out_restored c d =
      set_fd-other (closed_by d l.err.pipe_in (out_back c).table) l.err.fd l.out.fd _
        (λ e. ok.fds (sym e))
      ∙ closed_by-other d l.err.pipe_in l.out.fd (out_back c).table ok.err_in_out
      ∙ set_fd-same (closed_by c l.out.pipe_in l.table) l.out.fd _
      ∙ closed_by-other c l.out.pipe_in out_copy l.table ok.out_copy_in

  err_restored : (c d : Call Status) → (err_back c d).table l.err.fd ≡ l.table err_copy
  err_restored c d =
      set_fd-same (closed_by d l.err.pipe_in (out_back c).table) l.err.fd _
      ∙ closed_by-other d l.err.pipe_in err_copy (out_back c).table ok.err_copy_in
      ∙ set_fd-other (closed_by c l.out.pipe_in l.table) l.out.fd err_copy _ ok.out_err_copy
      ∙ closed_by-other c l.out.pipe_in err_copy l.table ok.out_copy_err

  stopped_lem :
      (ro re : List Reply)
      → (restore_redir ro (out_world l)).0 ≡ returns success
      → (restore_redir re (err_world (put_out l (restore_redir ro (out_world l)).1))).0
        ≡ returns success
      → logger_stop ro re l ≡ (
        returns tt,
        stopped (out_back (safe_close ro).0) (err_back (safe_close ro).0 (safe_close re).0),
      )
  unfolding logger_stop waitpid_redir
  stopped_lem ro re ho he =
      let o : (restore_redir ro (out_world l)).1 ≡ out_back (safe_close ro).0 =
        restored ro (out_world l) out_copy ok.out_saved ho in
      let second : World → Call Status × World = λ v. restore_redir re (err_world (put_out l v)) in
      let e : (second (out_back (safe_close ro).0)).1
          ≡ err_back (safe_close ro).0 (safe_close re).0 =
        restored re (err_world (put_out l (out_back (safe_close ro).0))) err_copy ok.err_saved
          (subst (λ v. (second v).0 ≡ returns success) o he) in
      rw (ho, he, logger_stop)
        (ap (λ v. (returns tt, stopped v (second v).1)) o
          ∙ ap (λ u. (returns tt, stopped (out_back (safe_close ro).0) u)) e)

  -- Where the two redirections are taken back, after however many interruptions, `logger_stop` returns, both
  -- descriptors have the files that their copies had, and the logger has neither copies nor processes.
  pub logger_stop_lem :
      (ro re : List Reply)
      → (restore_redir ro (out_world l)).0 ≡ returns success
      → (restore_redir re (err_world (put_out l (restore_redir ro (out_world l)).1))).0
        ≡ returns success
      → (l' : Logger) × (logger_stop ro re l ≡ (returns tt, l'))
        × (l'.table l.out.fd ≡ l.table out_copy)
        × (l'.table l.err.fd ≡ l.table err_copy)
        × (l'.out.saved_fd ≡ none)
        × (l'.err.saved_fd ≡ none)
        × (l'.out.pid ≡ none)
        × (l'.err.pid ≡ none)
  unfolding logger_stop waitpid_redir
  logger_stop_lem ro re ho he =
      let c = (safe_close ro).0 in
      let d = (safe_close re).0 in
      (
        stopped (out_back c) (err_back c d),
        stopped_lem ro re ho he,
        out_restored c d,
        err_restored c d,
        refl,
        refl,
        refl,
        refl,
      )
