-- ===== src/Process/Wait.antt =====
-- `wait_for_instance`: what its result says, how long it takes, and what it leaves open.
use clearwater_fv_test.Base.{
  ℕ, zero, suc, ◌+◌, ◌-◌, ◌*◌, ◌≤◌, ◌<◌, ◌≡◌, refl, sym, ◌∙◌, ◌↔◌, inl, inr, Bool, true, false, [],
  ◌∷◌, arith, Bool-cases,
}
use clearwater_fv_test.Text.{codes}
use clearwater_fv_test.Text.Integer.{to_string, is_zero, is_minus_one}
use clearwater_fv_test.System.{
  Trace, Os, ok, connected, slept, closed, freed_addrinfo, resolved, opened_socket, perror,
}
use clearwater_fv_test.Process.{ProcessInstance, connect_loop, wait_for_instance}

-- Totals over a trace.
abbrev pub connects : Trace → ℕ
connects [] = 0
connects (connected r ∷ t) = suc (connects t)
connects (_ ∷ t) = connects t

abbrev pub slept_us : Trace → ℕ
slept_us [] = 0
slept_us (slept n ∷ t) = n + slept_us t
slept_us (_ ∷ t) = slept_us t

-- Address lists that getaddrinfo made, less those that were freed, in the order of the calls.
abbrev pub addrinfo_open : Trace → ℕ
addrinfo_open [] = 0
addrinfo_open (resolved h s ∷ t) = suc (addrinfo_open t)
addrinfo_open (freed_addrinfo ∷ t) = addrinfo_open t - 1
addrinfo_open (_ ∷ t) = addrinfo_open t

module _ (os : Os) where
  -- The trace before attempt `k`, when all before it failed.
  abbrev pub before_attempt : ℕ → Trace → Trace
  before_attempt zero t = t
  before_attempt (suc k) t = before_attempt k (slept 1_000_000 ∷ connected (os.connect t) ∷ t)

  abbrev pub Accepts : ℕ → Trace → Type 0
  Accepts k t = is_zero (os.connect (before_attempt k t)) ≡ true

  -- The loop returns, within its attempts and a second for each one that failed.
  connect_loop-bounds :
      (n : ℕ) (t : Trace)
      → (b : Bool) × (t' : Trace) × (connect_loop os n t ≡ (ok b, t'))
        × (connects t' ≤ connects t + n)
        × (slept_us t' ≤ slept_us t + 1_000_000 * n)
        × (addrinfo_open t' ≡ addrinfo_open t)
  unfolding connect_loop
  connect_loop-bounds zero t = (false, t, refl, omega arith, omega arith, refl)
  connect_loop-bounds (suc n) t = elim (Bool-cases (is_zero (os.connect t))) [
    | inl up ↦ (true, connected (os.connect t) ∷ t, rw up, omega arith, omega arith, refl)
    | inr down ↦
        let (b, t', e, c, s, a) =
          connect_loop-bounds n (slept 1_000_000 ∷ connected (os.connect t) ∷ t) in
        (b, t', rw down e, omega arith, omega arith, a)
  ]

  connect_loop-true :
      (n : ℕ) (t : Trace) → (connect_loop os n t).0 ≡ ok true → (k : ℕ) × (k < n) × Accepts k t
  unfolding connect_loop
  connect_loop-true zero t h = cc
  connect_loop-true (suc n) t h = elim (Bool-cases (is_zero (os.connect t))) [
    | inl up ↦ (0, omega arith, up)
    | inr down ↦
        let (k, lt, up) =
          connect_loop-true n (slept 1_000_000 ∷ connected (os.connect t) ∷ t)
            (rw (down, connect_loop) at h) in
        (suc k, omega arith, up)
  ]

  connect_loop-Accepts :
      (n k : ℕ) (t : Trace) → k < n → Accepts k t → (connect_loop os n t).0 ≡ ok true
  unfolding connect_loop
  connect_loop-Accepts zero k t lt up = elim lt [ ]
  connect_loop-Accepts (suc n) zero t lt up = rw up
  connect_loop-Accepts (suc n) (suc k) t lt up = elim (Bool-cases (is_zero (os.connect t))) [
    | inl now ↦ rw now
    | inr later ↦ rw later (connect_loop-Accepts n k _ (omega arith) up)
  ]

  abbrev pub resolved_trace : ProcessInstance → Trace → Trace
  resolved_trace i t = resolved i.ip (to_string i.port) ∷ t

  abbrev pub HasSocket : ProcessInstance → Trace → Type 0
  HasSocket i t = is_minus_one (os.socket (resolved_trace i t)) ≡ false

  -- The trace when the first connect() is about to be made.
  abbrev pub first_attempt : ProcessInstance → Trace → Trace
  first_attempt i t =
      let t₁ : Trace = resolved_trace i t in slept 10_000 ∷ opened_socket (os.socket t₁) ∷ t₁

  -- If an address is found, `wait_for_instance` returns, after at most five connect() calls and at
  -- most 5.01 seconds of sleep.
  pub wait-bounds :
      (i : ProcessInstance) (t : Trace)
      → os.getaddrinfo t i.ip ≡ true
      → (b : Bool) × (t' : Trace) × (wait_for_instance os i t ≡ (ok b, t'))
        × (connects t' ≤ connects t + 5)
        × (slept_us t' ≤ slept_us t + 5_010_000)
  unfolding wait_for_instance
  wait-bounds i t found = elim (Bool-cases (is_minus_one (os.socket (resolved_trace i t)))) [
    | inl bad ↦ (
      false,
      perror (codes "socket") ∷ opened_socket (os.socket (resolved_trace i t)) ∷ resolved_trace i t,
      simp (found, bad),
      omega arith,
      omega arith,
    )
    | inr good ↦
        let (b, t', e, c, s, a) = connect_loop-bounds 5 (first_attempt i t) in
        (
          b,
          freed_addrinfo ∷ closed (os.socket (resolved_trace i t)) ∷ t',
          simp (found, good, e),
          omega arith,
          omega arith,
        )
  ]

  wait-connect_loop :
      (i : ProcessInstance) (t : Trace)
      → os.getaddrinfo t i.ip ≡ true
      → HasSocket i t
      → (wait_for_instance os i t).0 ≡ (connect_loop os 5 (first_attempt i t)).0
  unfolding wait_for_instance
  wait-connect_loop i t found good =
      let (b, t', e, c, s, a) = connect_loop-bounds 5 (first_attempt i t) in simp (found, good, e)

  -- If an address is found and a socket made, the result is true exactly when one of the first
  -- five connect() calls, each a second after the one before, is answered by 0.
  pub wait_true_iff :
      (i : ProcessInstance) (t : Trace)
      → os.getaddrinfo t i.ip ≡ true
      → HasSocket i t
      → ((wait_for_instance os i t).0 ≡ ok true)
        ↔ ((k : ℕ) × (k < 5) × Accepts k (first_attempt i t))
  wait_true_iff i t found good =
      let e = wait-connect_loop i t found good in
      (
        λ h. connect_loop-true 5 (first_attempt i t) (sym e ∙ h),
        λ h. e ∙ connect_loop-Accepts 5 h.0 (first_attempt i t) h.1 h.2,
      )

  wait-frees :
      (i : ProcessInstance) (t : Trace)
      → os.getaddrinfo t i.ip ≡ true
      → HasSocket i t
      → addrinfo_open (wait_for_instance os i t).1 ≡ addrinfo_open t
  unfolding wait_for_instance
  wait-frees i t found good =
      let (b, t', e, c, s, a) = connect_loop-bounds 5 (first_attempt i t) in
      simp (found, good, e) (omega arith)

  wait-leaks :
      (i : ProcessInstance) (t : Trace)
      → os.getaddrinfo t i.ip ≡ true
      → is_minus_one (os.socket (resolved_trace i t)) ≡ true
      → addrinfo_open (wait_for_instance os i t).1 ≡ addrinfo_open t + 1
  unfolding wait_for_instance
  wait-leaks i t found bad = simp (found, bad) (omega arith)

  -- If an address is found, `wait_for_instance` leaves as many lists of addresses allocated as there
  -- were before it exactly if a socket is made, however the calls of connect() end; if socket()
  -- fails, it leaves exactly one more.
  pub wait_frees_iff :
      (i : ProcessInstance) (t : Trace)
      → os.getaddrinfo t i.ip ≡ true
      → ((addrinfo_open (wait_for_instance os i t).1 ≡ addrinfo_open t) ↔ HasSocket i t)
        × ((addrinfo_open (wait_for_instance os i t).1 ≡ addrinfo_open t + 1) ↔ (¬ HasSocket i t))
  wait_frees_iff i t found = elim (Bool-cases (is_minus_one (os.socket (resolved_trace i t)))) [
    | inl bad ↦
        let e = wait-leaks i t found bad in
        ((λ h. absurd (omega (arith, e, h)), λ good. cc), (λ h good. cc, λ h. e))
    | inr good ↦
        let e = wait-frees i t found good in
        ((λ h. good, λ h. e), (λ h. absurd (omega (arith, e, h)), λ h. absurd (h good)))
  ]
