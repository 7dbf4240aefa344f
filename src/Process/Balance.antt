-- ===== src/Process/Balance.antt =====
-- The children of a program that keeps several instances: each method of one instance changes the
-- children that are left exactly as it changes what that instance owns.
use clearwater_fv_test.Base.{
  ℕ, zero, suc, ◌+◌, ◌<◌, ◌≡◌, refl, ap, ◌∙◌, inl, inr, Bool, true, false, not, List, [], ◌∷◌,
  Option, none, some, arith, ==_iff, Bool-cases, if◌then◌else◌,
}
use clearwater_fv_test.Text.Integer.{ℤ, pos, negsuc, is_zero}
use clearwater_fv_test.System.{
  Trace, Os, Outcome, ok, raised, terminated, undefined, replaced, M, pure, continue, ForkReturns,
  forked, signalled, waited,
}
use clearwater_fv_test.Process.Quiet.{Grows, same, more, execute_process-Fails, wait-quiet}
use clearwater_fv_test.Process.Live.{
  same_pid, same_pid_refl, forget, has_exited, live, owned, Grows-live, kill_result,
}
use clearwater_fv_test.Process.{
  ProcessInstance, start_forked, start_instance, reap, terminate, kill_pid, kill_instance,
  restart_instance, wait_for_instance,
}

same_pid→≡ : (a b : ℤ) → same_pid a b ≡ true → a ≡ b
same_pid→≡ (pos a) (pos b) e = ap pos ((==_iff a b).0 e)
same_pid→≡ (pos a) (negsuc b) e = cc
same_pid→≡ (negsuc a) (pos b) e = cc
same_pid→≡ (negsuc a) (negsuc b) e = ap negsuc ((==_iff a b).0 e)

-- How often an identifier is in a list.
abbrev pub times : ℤ → List ℤ → ℕ
times q [] = 0
times q (p ∷ ps) = (if same_pid p q then 1 else 0) + times q ps

times-forget :
    (p q : ℤ) (ps : List ℤ) → 0 < times p ps → times q (forget p ps) + times q (p ∷ []) ≡ times q ps
times-forget p q [] h = absurd (omega arith)
times-forget p q (x ∷ ps) h = elim (Bool-cases (same_pid p x)) [
  | inl this ↦ rw (this, same_pid→≡ p x this) (omega arith)
  | inr other ↦ elim (Bool-cases (same_pid x p)) [
    | inl flipped ↦
        let e : same_pid p x ≡ true = rw (same_pid→≡ x p flipped) (same_pid_refl p) in cc
    | inr later ↦
        let rest : 0 < times p ps = omega (arith, rw later at h) in
        rw other (omega (arith, times-forget p q ps rest))
  ]
]

module _ (os : Os) where
  abbrev pub living : ℤ → Trace → ℕ
  living q t = times q (live os t)

  abbrev pub held : ℤ → List ProcessInstance → ℕ
  held q [] = 0
  held q (i ∷ is) = times q (owned os i) + held q is

  -- The children that are left are those that the instances own, and `others`.
  abbrev pub Balanced : (ℤ → ℕ) → List ProcessInstance → Trace → Type 0
  Balanced others is t = (q : ℤ) → living q t ≡ others q + held q is

  -- Every kill() went to a child that was left at that time.
  abbrev pub SignalsLive : Trace → Type 0
  SignalsLive [] = Unit
  SignalsLive (signalled p r ∷ t) = (0 < living p t) × SignalsLive t
  SignalsLive (_ ∷ t) = SignalsLive t

  abbrev pub After {ℓ} : {A : Type ℓ} → (A → Trace → Type 0) → Outcome A × Trace → Type 0
  After P (ok a, t) = SignalsLive t × P a t
  After P (_, t) = SignalsLive t

  pub >>=-After {ℓ κ} :
      {A : Type ℓ} {B : Type κ} (P : A → Trace → Type 0) (Q : B → Trace → Type 0)
      (r : Outcome A × Trace) (f : A → M B)
      → After P r
      → ((a : A) (t : Trace) → SignalsLive t → P a t → After Q (f a t))
      → After Q (continue r f)
  >>=-After P Q (ok a, t) f h k = k a t h.0 h.1
  >>=-After P Q (raised e, t) f h k = h
  >>=-After P Q (terminated, t) f h k = h
  >>=-After P Q (undefined, t) f h k = h
  >>=-After P Q (replaced, t) f h k = h

  pub Grows-SignalsLive : {t t' : Trace} → Grows t t' → SignalsLive t → SignalsLive t'
  Grows-SignalsLive same h = h
  Grows-SignalsLive (more (signalled _ _) q g) h = absurd q
  Grows-SignalsLive (more (forked _) q g) h = absurd q
  Grows-SignalsLive (more (waited _ _) q g) h = absurd q
  Grows-SignalsLive (more _ q g) h = Grows-SignalsLive g h

  -- `_pid` was set.
  abbrev pub HasValue : Option ℤ → Type 0
  HasValue none = ⊥
  HasValue (some p) = Unit

  abbrev pub HasPid : ProcessInstance → Type 0
  HasPid i = i.running ≡ true → HasValue i.pid

  -- What a method of one instance leaves, among `others`.
  abbrev pub Kept : (ℤ → ℕ) → Bool × ProcessInstance → Trace → Type 0
  Kept others (b, j) t = Balanced others (j ∷ []) t × HasPid j

  module _ (others : ℤ → ℕ) (i : ProcessInstance) where
    terminate-Kept :
        (p : ℤ) (t : Trace)
        → i.running ≡ true
        → i.pid ≡ some p
        → SignalsLive t
        → Balanced others (i ∷ []) t
        → After (Kept others) (terminate os i p t)
    unfolding terminate reap
    terminate-Kept p t up here sound balance =
        let owns : owned os i ≡ p ∷ [] = simp (up, here) in
        let one : times p (p ∷ []) ≡ 1 = rw (same_pid_refl p) in
        let left : 0 < living p t = omega (arith, rw owns at (balance p), one) in
        elim (Bool-cases (is_zero (os.kill t p))) [
          | inl sent ↦
              let status : ℕ = os.waitpid (signalled p (os.kill t p) ∷ t) p in
              elim (Bool-cases (has_exited os status)) [
                | inl gone ↦
                    rw (sent, gone)
                      (
                        (left, sound),
                        (
                          λ q.
                              omega
                                (arith, times-forget p q (live os t) left, rw owns at (balance q)),
                          λ e. cc,
                        ),
                      )
                | inr stays ↦
                    rw (sent, stays, here)
                      ((left, sound), (λ q. omega (arith, rw owns at (balance q)), λ e. tt))
              ]
          | inr refused ↦ rw refused ((left, sound), (balance, λ e. rw here tt))
        ]

    kill_pid-Kept :
        (o : Option ℤ) (t : Trace)
        → i.running ≡ true
        → i.pid ≡ o
        → SignalsLive t
        → Balanced others (i ∷ []) t
        → After (Kept others) (kill_pid os i o t)
    unfolding kill_pid
    kill_pid-Kept none t up here sound balance = sound
    kill_pid-Kept (some p) t up here sound balance = terminate-Kept p t up here sound balance

    pub kill-Kept :
        (t : Trace)
        → SignalsLive t
        → Balanced others (i ∷ []) t
        → After (Kept others) (kill_instance os i t)
    unfolding kill_instance
    kill-Kept t sound balance = elim (Bool-cases i.running) [
      | inl up ↦ simp up (kill_pid-Kept i.pid t up refl sound balance)
      | inr down ↦ simp down (sound, (λ q. omega (arith, rw down at (balance q)), λ e. cc))
    ]

    start_forked-Kept :
        (p : ℤ) (t : Trace)
        → ((n : ℕ) → p ≡ negsuc n → n ≡ 0)
        → i.running ≡ false
        → SignalsLive t
        → Balanced others (i ∷ []) t
        → After (Kept others) (start_forked os i p (forked p ∷ t))
    unfolding start_forked
    start_forked-Kept (pos zero) t law down sound balance =
        let (t', g, how) = execute_process-Fails os i (forked (pos zero) ∷ t) in
        let sound' = Grows-SignalsLive g sound in
        elim how [
          | inl e ↦ simp e sound'
          | inr e ↦ simp e (sound', (λ q. ap (times q) (Grows-live os g) ∙ balance q, λ up. cc))
        ]
    start_forked-Kept (pos (suc n)) t law down sound balance =
        (sound, (λ q. omega (arith, rw down at (balance q)), λ e. tt))
    start_forked-Kept (negsuc zero) t law down sound balance = (sound, (balance, λ up. cc))
    start_forked-Kept (negsuc (suc n)) t law down sound balance =
        absurd (omega (arith, law (suc n) refl))

    pub start-Kept :
        ForkReturns os
        → (t : Trace) → i.running ≡ false
        → SignalsLive t
        → Balanced others (i ∷ []) t
        → After (Kept others) (start_instance os i t)
    unfolding start_instance
    start-Kept law t down sound balance = start_forked-Kept (os.fork t) t (law t) down sound balance

  module _ (others : ℤ → ℕ) where
    start_if-Kept :
        ForkReturns os
        → (b : Bool) (j : ProcessInstance) (t : Trace) → SignalsLive t
        → Kept others (b, j) t × (j.running ≡ not b)
        → After (Kept others) ((if b then start_instance os j else pure (false, j)) t)
    start_if-Kept law true j t sound (kept, down) = start-Kept others j law t down sound kept.0
    start_if-Kept law false j t sound (kept, down) = (sound, kept)

    start_of :
        ForkReturns os
        → (a : Bool × ProcessInstance) (t : Trace) → SignalsLive t
        → Kept others a t × (a.1.running ≡ not a.0)
        → After (Kept others) ((if a.0 then start_instance os a.1 else pure (false, a.1)) t)
    start_of law (b, j) t sound h = start_if-Kept law b j t sound h

    -- A result with what its equation says.
    After-result :
        (r : Outcome (Bool × ProcessInstance) × Trace)
        → ((b : Bool) (j : ProcessInstance) (t : Trace) → r ≡ (ok (b, j), t) → j.running ≡ not b)
        → After (Kept others) r
        → After (λ a t. Kept others a t × (a.1.running ≡ not a.0)) r
    After-result (ok (b, j), t) k h = (h.0, (h.1, k b j t refl))
    After-result (raised e, t) k h = h
    After-result (terminated, t) k h = h
    After-result (undefined, t) k h = h
    After-result (replaced, t) k h = h

    pub restart-Kept :
        ForkReturns os
        → (i : ProcessInstance) (t : Trace) → SignalsLive t
        → Balanced others (i ∷ []) t
        → After (Kept others) (restart_instance os i t)
    unfolding restart_instance
    restart-Kept law i t sound balance =
        >>=-After (λ a t. Kept others a t × (a.1.running ≡ not a.0)) (Kept others)
          (kill_instance os i t) _
          (After-result (kill_instance os i t)
            (λ b j t' e. ap (λ (k : ProcessInstance). k.running) (kill_result os i t e))
            (kill-Kept others i t sound balance))
          (start_of law)

    pub wait-Kept :
        (is : List ProcessInstance) (i : ProcessInstance) (t : Trace)
        → SignalsLive t
        → Balanced others is t
        → After {A = Bool} (λ b t'. Balanced others is t') (wait_for_instance os i t)
    wait-Kept is i t sound balance =
        let (t', g, how) = wait-quiet os i t in
        let sound' = Grows-SignalsLive g sound in
        elim how [
          | inl e ↦ simp e sound'
          | inr (b, e) ↦ simp e (sound', λ q. ap (times q) (Grows-live os g) ∙ balance q)
        ]
