-- ===== src/Process/Success.antt =====
-- What `start_instance` and `restart_instance` have done when they return true.
use clearwater_fv_test.Base.{zero, suc, ◌≡◌, refl, inl, inr, Bool, true, Bool-cases}
use clearwater_fv_test.Text.Integer.{ℤ, pos, negsuc}
use clearwater_fv_test.System.{Os, Trace, Ensures, >>=-Ensures, always}
use clearwater_fv_test.Process.Quiet.{execute_process-Fails}
use clearwater_fv_test.Process.{
  ProcessInstance, start_forked, start_instance, kill_instance, restart_instance,
}

abbrev pub IsUp : ProcessInstance → Type 0
IsUp i = i.running ≡ true

-- The instance is running, if the method returned true.
abbrev pub UpIf : Bool × ProcessInstance → Trace → Type 0
UpIf (b, j) u = b ≡ true → IsUp j

module _ (os : Os) where
  start_forked-UpIf :
      (i : ProcessInstance) (p : ℤ) (t : Trace) → Ensures UpIf (start_forked os i p t)
  unfolding start_forked
  start_forked-UpIf i (pos zero) t =
      let (u, g, how) = execute_process-Fails os i t in
      elim how [ inl e ↦ simp e tt | inr e ↦ simp e (λ works. cc) ]
  start_forked-UpIf i (pos (suc n)) t = λ works. refl
  start_forked-UpIf i (negsuc zero) t = λ works. cc
  start_forked-UpIf i (negsuc (suc n)) t = λ works. refl

  pub start-UpIf : (i : ProcessInstance) (t : Trace) → Ensures UpIf (start_instance os i t)
  unfolding start_instance
  start-UpIf i t = start_forked-UpIf i (os.fork t) _

  pub restart-UpIf : (i : ProcessInstance) (t : Trace) → Ensures UpIf (restart_instance os i t)
  unfolding restart_instance
  restart-UpIf i t =
      >>=-Ensures (λ a u. Unit {0}) UpIf (kill_instance os i t) _
        (always _ (kill_instance os i t) (λ a u. tt))
        (λ (killed, j) u h. elim (Bool-cases killed) [
          | inl good ↦ rw good (start-UpIf j u)
          | inr bad ↦ rw bad (λ works. cc)
        ])
