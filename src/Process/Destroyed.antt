-- ===== src/Process/Destroyed.antt =====
-- The destructors of the instances, where the processes end when they are told to.
use clearwater_fv_test.Base.{
  ℕ, ◌≡◌, refl, ap, subst, ◌∙◌, inl, inr, Bool, true, false, [], ◌∷◌, Option, none, some,
  Bool-cases,
}
use clearwater_fv_test.Text.{Text}
use clearwater_fv_test.Text.Integer.{ℤ, is_zero}
use clearwater_fv_test.System.{Trace, Os, ok, removed, removed_all, signalled, waited}
use clearwater_fv_test.Process.Quiet.{Grows, same, more}
use clearwater_fv_test.Process.Live.{has_exited, Grows-live}
use clearwater_fv_test.Process.Balance.{
  times, Balanced, SignalsLive, After, Kept, HasPid, HasValue, kill-Kept, Grows-SignalsLive,
}
use clearwater_fv_test.Process.{
  Kind, memcached, rogers, dnsmasq, chronos, ProcessInstance, kill_instance, kill_pid, terminate,
  reap, destroy_kind, destroy,
}

module _ (os : Os) where
  -- Every process takes SIGTERM and ends of it, and directories can be removed.
  pub record Obeys : Type 0 where
    pub takes : (t : Trace) (p : ℤ) → is_zero (os.kill t p) ≡ true
    pub ends : (t : Trace) (p : ℤ) → has_exited os (os.waitpid t p) ≡ true
    pub removes : (t : Trace) (dir : Text) → os.remove_all t dir ≡ true

  module _ (obeys : Obeys) where
    open obeys use {takes, ends, removes}

    terminate-ok :
        (i : ProcessInstance) (p : ℤ) (t : Trace)
        → (u : Trace) × (terminate os i p t ≡ (ok (true, record i { running = false }), u))
    unfolding terminate reap
    terminate-ok i p t =
        let u : Trace = signalled p (os.kill t p) ∷ t in
        (waited p (os.waitpid u p) ∷ u, rw (takes t p, ends u p))

    kill_pid-ok :
        (i : ProcessInstance) (o : Option ℤ) (t : Trace)
        → HasValue os o
        → (u : Trace) × (kill_pid os i o t ≡ (ok (true, record i { running = false }), u))
    unfolding kill_pid
    kill_pid-ok i none t has_value = absurd has_value
    kill_pid-ok i (some p) t has_value = terminate-ok i p t

    kill-ok :
        (i : ProcessInstance) (t : Trace)
        → HasPid os i
        → (u : Trace) × (kill_instance os i t ≡ (ok (true, record i { running = false }), u))
    unfolding kill_instance
    kill-ok i t has_pid = elim (Bool-cases i.running) [
      | inl up ↦ let (u, e) = kill_pid-ok i i.pid t (has_pid up) in (u, simp up e)
      | inr down ↦ (t, simp down (ap (λ (b : Bool). (ok (true, record i { running = b }), t)) down))
    ]

    destroy_kind-ok :
        (k : Kind) (t : Trace) → (u : Trace) × Grows t u × (destroy_kind os k t ≡ (ok tt, u))
    unfolding destroy_kind
    destroy_kind-ok memcached t = (t, same, refl)
    destroy_kind-ok (rogers file) t = (t, same, refl)
    destroy_kind-ok (dnsmasq file) t = (removed file ∷ t, more _ tt same, refl)
    destroy_kind-ok (chronos files) t =
        (removed_all files.instance_dir ∷ t, more _ tt same, rw (removes t files.instance_dir))

    -- A destroyed instance leaves no child of its own.
    pub destroy-ok :
        (others : ℤ → ℕ) (i : ProcessInstance) (t : Trace)
        → HasPid os i
        → SignalsLive os t
        → Balanced os others (i ∷ []) t
        → (u : Trace) × (destroy os i t ≡ (ok tt, u)) × SignalsLive os u × Balanced os others [] u
    unfolding destroy
    destroy-ok others i t has_pid sound balance =
        let (u, g, e) = destroy_kind-ok i.kind t in
        let (v, f) = kill-ok i u has_pid in
        let (sound', (balance', ready)) = subst (After os (Kept os others)) f (
          kill-Kept os others i u (Grows-SignalsLive os g sound)
            (λ q. ap (times q) (Grows-live os g) ∙ balance q)) in
        (v, simp (e, f), sound', balance')
