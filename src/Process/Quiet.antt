-- ===== src/Process/Quiet.antt =====
-- The parts of `ProcessInstance` that neither fork nor signal nor wait for a process: the
-- `execute_process` of every subclass, and `wait_for_instance`.
use clearwater_fv_test.Base.{
  ℕ, zero, suc, ◌≡◌, refl, ◌⊎◌, inl, inr, Bool, true, false, List, [], ◌∷◌, ◌++◌, Bool-cases,
}
use clearwater_fv_test.Text.{Text, codes}
use clearwater_fv_test.Text.Integer.{ℤ, is_zero, is_minus_one, to_string}
use clearwater_fv_test.System.{
  Outcome, raised, terminated, continue, Event, Trace, Os, ok, undefined, replaced, M, forked,
  signalled, waited, executed, perror, reopened, resolved, opened_socket, connected, slept, closed,
  freed_addrinfo,
}
use clearwater_fv_test.Process.{
  Kind, memcached, rogers, dnsmasq, chronos, ProcessInstance, exec_failed, execute_kind,
  execute_process, connect_loop, connect_socket, wait_for_instance,
}

abbrev pub IsQuiet : Event → Type 0
IsQuiet (forked _) = ⊥
IsQuiet (signalled _ _) = ⊥
IsQuiet (waited _ _) = ⊥
IsQuiet _ = Unit

-- A trace that quiet events continue.
pub data Grows (t : Trace) : Trace → Type 0 where
  same : Grows t t
  more : {t' : Trace} (e : Event) → IsQuiet e → Grows t t' → Grows t (e ∷ t')

pub Grows-trans : {t u v : Trace} → Grows t u → Grows u v → Grows t v
Grows-trans g same = g
Grows-trans g (more e q h) = more e q (Grows-trans g h)

-- Whatever way it ends.
abbrev pub IsSilent {ℓ} : {A : Type ℓ} → M A → Type 0
IsSilent m = (t : Trace) → Grows t (m t).1

module _ {ℓ κ} {A : Type ℓ} {B : Type κ} where
  pub continue-Grows :
      (t : Trace) (r : Outcome A × Trace) (f : A → M B)
      → Grows t r.1
      → ((a : A) → IsSilent (f a))
      → Grows t (continue r f).1
  continue-Grows t (ok a, u) f g h = Grows-trans g (h a u)
  continue-Grows t (raised e, u) f g h = g
  continue-Grows t (terminated, u) f g h = g
  continue-Grows t (undefined, u) f g h = g
  continue-Grows t (replaced, u) f g h = g

module _ (os : Os) where
  -- `execute_process` ends the program or returns false.
  abbrev pub Fails : M Bool → Trace → Type 0
  Fails m t = (t' : Trace) × Grows t t' × ((m t ≡ (replaced, t')) ⊎ (m t ≡ (ok false, t')))

  exec_failed-Fails :
      (file : Text) (argv : List Text) (t : Trace) → Fails (exec_failed os file argv) t
  unfolding exec_failed
  exec_failed-Fails file argv t = elim (Bool-cases (os.execlp t file)) [
    | inl started ↦ (executed file argv ∷ t, more _ tt same, inl (rw started))
    | inr not_started ↦ (
      perror (codes "execlp") ∷ executed file argv ∷ t,
      more _ tt (more _ tt same),
      inr (rw not_started),
    )
  ]

  execute_kind-Fails : (k : Kind) (i : ProcessInstance) (t : Trace) → Fails (execute_kind os k i) t
  unfolding execute_kind
  execute_kind-Fails memcached i t = exec_failed-Fails _ _ t
  execute_kind-Fails (rogers f) i t = exec_failed-Fails _ _ t
  execute_kind-Fails (dnsmasq f) i t = exec_failed-Fails _ _ t
  execute_kind-Fails (chronos c) i t =
      let (t', g, how) =
        exec_failed-Fails (codes "../modules/chronos/build/bin/chronos")
          (codes "chronos"
            ∷ codes "--local-config-file"
            ∷ c.local_conf_file
            ∷ codes "--cluster-config-file"
            ∷ c.cluster_conf_file
            ∷ codes "--shared-config-file"
            ∷ c.shared_conf_file
            ∷ [])
          (reopened (c.log_dir ++ codes "/chronos_stderr.txt") (codes "stderr")
            ∷ reopened (c.log_dir ++ codes "/chronos_stdout.txt") (codes "stdout")
            ∷ t) in
      (t', Grows-trans (more _ tt (more _ tt same)) g, how)

  pub execute_process-Fails : (i : ProcessInstance) (t : Trace) → Fails (execute_process os i) t
  unfolding execute_process
  execute_process-Fails i t = execute_kind-Fails i.kind i t

  -- A Boolean is returned.
  abbrev pub Returns : M Bool → Trace → Type 0
  Returns m t = (b : Bool) × (t' : Trace) × (m t ≡ (ok b, t')) × Grows t t'

  connect_loop-Returns : (n : ℕ) (t : Trace) → Returns (connect_loop os n) t
  unfolding connect_loop
  connect_loop-Returns zero t = (false, t, refl, same)
  connect_loop-Returns (suc n) t = elim (Bool-cases (is_zero (os.connect t))) [
    | inl up ↦ (true, connected (os.connect t) ∷ t, rw up, more _ tt same)
    | inr down ↦
        let (b, t', e, g) =
          connect_loop-Returns n (slept 1_000_000 ∷ connected (os.connect t) ∷ t) in
        (b, t', rw down e, Grows-trans (more _ tt (more _ tt same)) g)
  ]

  connect_socket-Returns : (s : ℤ) (t : Trace) → Returns (connect_socket os s) t
  unfolding connect_socket
  connect_socket-Returns s t = elim (Bool-cases (is_minus_one s)) [
    | inl bad ↦ (false, perror (codes "socket") ∷ t, rw bad, more _ tt same)
    | inr good ↦
        let (b, t', e, g) = connect_loop-Returns 5 (slept 10_000 ∷ t) in
        (
          b,
          freed_addrinfo ∷ closed s ∷ t',
          rw good (rw e),
          more _ tt (more _ tt (Grows-trans (more _ tt same) g)),
        )
  ]

  -- With no address the behaviour is undefined; otherwise a Boolean is returned.
  pub wait-quiet :
      (i : ProcessInstance) (t : Trace)
      → (t' : Trace) × Grows t t'
        × ((wait_for_instance os i t ≡ (undefined, t'))
            ⊎ ((b : Bool) × (wait_for_instance os i t ≡ (ok b, t'))))
  unfolding wait_for_instance
  wait-quiet i t = elim (Bool-cases (os.getaddrinfo t i.ip)) [
    | inl found ↦
        let t₁ : Trace = resolved i.ip (to_string i.port) ∷ t in
        let (b, t', e, g) =
          connect_socket-Returns (os.socket t₁) (opened_socket (os.socket t₁) ∷ t₁) in
        (t', Grows-trans (more _ tt (more _ tt same)) g, inr (b, simp (found, e)))
    | inr lost ↦ (resolved i.ip (to_string i.port) ∷ t, more _ tt same, inl (rw lost))
  ]
