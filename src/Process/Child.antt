-- ===== src/Process/Child.antt =====
-- `get_log_level`, and what `start_instance` does in the forked child.
use clearwater_fv_test.Base.{
  ◌+◌, inl, inr, sym, ap, ◌∙◌, ℕ, ◌^◌, ◌<◌, ◌≡◌, ◌≢◌, refl, Bool, true, false, List, [], ◌∷◌, ◌++◌,
  some, arith, All,
}
use clearwater_fv_test.Text.{Text, codes}
use clearwater_fv_test.Text.Decimal.{decimal}
use clearwater_fv_test.Text.Integer.{pos, negsuc, decimal-strtol_int}
use clearwater_fv_test.System.{Os, Trace, Outcome, ok, replaced, forked, perror}
use clearwater_fv_test.Process.Quiet.{Grows, same, more, execute_process-Fails}
use clearwater_fv_test.Process.{
  Kind, memcached, rogers, dnsmasq, chronos, ProcessInstance, strchr, is_noisy, get_log_level,
  exec_failed, execute_kind, execute_process, start_forked, start_instance,
}

strchr_first :
    (c : ℕ) (pre rest : Text) → All (λ x. x ≢ c) pre → strchr c (pre ++ c ∷ rest) ≡ some (c ∷ rest)
unfolding strchr
strchr_first c [] rest h = ground arith
strchr_first c (x ∷ pre) rest h = ground (arith, strchr_first c pre rest h.1)

noisy_not_colon : (c : ℕ) (cs : Text) → is_noisy (c ∷ cs) ≡ true → c ≢ b':'
noisy_not_colon c cs h = ground arith

-- A value of NOISY that begins with one of T, t, Y and y, and has a decimal number that fits an
-- `int` after its first colon, sets the log level to that number.
get_log_level-noisy :
    (os : Os) (c : ℕ) (pre : Text) (n : ℕ)
    → os.getenv (codes "NOISY") ≡ some (c ∷ pre ++ b':' ∷ decimal n)
    → is_noisy (c ∷ []) ≡ true
    → All (λ x. x ≢ b':') pre
    → n < 2 ^ 31
    → get_log_level os ≡ decimal n
unfolding get_log_level
get_log_level-noisy os c pre n set noisy no_colon small =
    let is_c : is_noisy (c ∷ pre ++ b':' ∷ decimal n) ≡ true = noisy in
    rw (set, is_c, strchr_first b':' (c ∷ pre) (decimal n) (noisy_not_colon c [] noisy, no_colon))
      (decimal-strtol_int n small)

-- How often fork() was called.
abbrev pub forks : Trace → ℕ
forks [] = 0
forks (forked p ∷ t) = forks t + 1
forks (_ ∷ t) = forks t

Grows-forks : {t u : Trace} → Grows t u → forks u ≡ forks t
Grows-forks same = refl
Grows-forks (more (forked _) q g) = absurd q
Grows-forks (more _ q g) = Grows-forks g

module _ (os : Os) where
  abbrev pub NoProgram : Type 0
  NoProgram = (t : Trace) (file : Text) → os.execlp t file ≡ false

  exec_failed-false :
      NoProgram
      → (file : Text) (argv : List Text) (t : Trace) → (exec_failed os file argv t).0 ≡ ok false
  unfolding exec_failed
  exec_failed-false none_starts file argv t = rw (none_starts t file)

  execute_kind-false :
      NoProgram
      → (k : Kind) (i : ProcessInstance) (t : Trace) → (execute_kind os k i t).0 ≡ ok false
  unfolding execute_kind
  execute_kind-false none_starts memcached i t = exec_failed-false none_starts _ _ t
  execute_kind-false none_starts (rogers f) i t = exec_failed-false none_starts _ _ t
  execute_kind-false none_starts (dnsmasq f) i t = exec_failed-false none_starts _ _ t
  execute_kind-false none_starts (chronos c) i t = exec_failed-false none_starts _ _ _

  -- The instance is as it was, false is returned, and fork() was called once.
  abbrev pub StartsNone : Type 0
  StartsNone =
      (i : ProcessInstance) (t : Trace)
      → (u : Trace) × (start_instance os i t ≡ (ok (false, i), u)) × (forks u ≡ forks t + 1)

  pub child-StartsNone : NoProgram → ((t : Trace) → os.fork t ≡ pos 0) → StartsNone
  unfolding start_instance start_forked execute_process
  child-StartsNone none_starts child i t =
      let (u, g, how) = execute_process-Fails os i (forked (pos 0) ∷ t) in
      let returned = execute_kind-false none_starts i.kind i (forked (pos 0) ∷ t) in
      elim how [
        | inl ends ↦
            let clash : ◌≡◌ {A = Outcome Bool} (ok false) replaced =
              sym returned ∙ ap (λ r. r.0) ends in
            cc
        | inr fails ↦ (u, rw (child t) (simp fails), Grows-forks g)
      ]

  pub refused-StartsNone : ((t : Trace) → os.fork t ≡ negsuc 0) → StartsNone
  unfolding start_instance start_forked
  refused-StartsNone refused i t =
      (perror (codes "fork") ∷ forked (negsuc 0) ∷ t, rw (refused t), refl)
