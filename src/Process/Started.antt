-- ===== src/Process/Started.antt =====
-- What `start_instance` leaves as it was, in the parent.
use clearwater_fv_test.Base.{zero, suc, ◌≡◌, refl, Bool, ◌∷◌}
use clearwater_fv_test.Text.{Text}
use clearwater_fv_test.Text.Integer.{ℤ, pos, negsuc}
use clearwater_fv_test.System.{Os, Trace, ok, contents, forked}
use clearwater_fv_test.Process.Spec.{StaysParent}
use clearwater_fv_test.Process.{ProcessInstance, start_instance, start_forked}

module _ (os : Os) (parent : StaysParent os) where
  start_forked-ip :
      (i : ProcessInstance) (p : ℤ) (t : Trace)
      → ¬ p ≡ pos 0
      → (b : Bool) × (j : ProcessInstance) × (u : Trace) × (start_forked os i p (forked p ∷ t)
          ≡ (ok (b, j), u))
        × (j.ip ≡ i.ip)
        × ((path : Text) → contents path u ≡ contents path t)
  unfolding start_forked
  start_forked-ip i (pos zero) t here = absurd (here refl)
  start_forked-ip i (pos (suc n)) t here = (_, _, _, refl, refl, λ path. refl)
  start_forked-ip i (negsuc zero) t here = (_, _, _, refl, refl, λ path. refl)
  start_forked-ip i (negsuc (suc n)) t here = (_, _, _, refl, refl, λ path. refl)

  pub start-ip :
      (i : ProcessInstance) (t : Trace)
      → (b : Bool) × (j : ProcessInstance) × (u : Trace) × (start_instance os i t ≡ (ok (b, j), u))
        × (j.ip ≡ i.ip)
        × ((path : Text) → contents path u ≡ contents path t)
  unfolding start_instance
  start-ip i t = start_forked-ip i (os.fork t) t (parent t)
