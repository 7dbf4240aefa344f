-- ===== src/Process/Spec.antt =====
-- What a client of `ProcessInstance` may rely on: a machine that has no child or one.
use clearwater_fv_test.Base.{ℕ, ◌≡◌, Bool, true, false, List, [], ◌∷◌, Option, none, some}
use clearwater_fv_test.Text.{Text, codes}
use clearwater_fv_test.Text.Integer.{ℤ, pos, is_zero, is_minus_one}
use clearwater_fv_test.System.{Os, Trace, forked, signalled, waited, perror}
use clearwater_fv_test.Process.Live.{has_exited}
use clearwater_fv_test.Process.Quiet.{Grows}
use clearwater_fv_test.Process.Signals.{Call, starts, kills, restarts, waits}
use clearwater_fv_test.Process.{ProcessInstance}

-- No child, or a child with its identifier.
pub data Phase : Type 0 where
  down : Phase
  up : ℤ → Phase

module _ (os : Os) where
  abbrev pub status_of : Trace → ℤ → ℕ
  status_of t p = os.waitpid (signalled p (os.kill t p) ∷ t) p

  -- A call in a state and after a trace, with its result, and the state and the trace after it. What
  -- the environment answers decides between the steps of a call.
  pub data Step : Trace → Call → Phase → Bool → Phase → Trace → Type 0 where
    start_works :
        {t : Trace} {x : Phase}
        → is_minus_one (os.fork t) ≡ false
        → Step t starts x true (up (os.fork t)) (forked (os.fork t) ∷ t)
    start_fails :
        {t : Trace} {x : Phase}
        → is_minus_one (os.fork t) ≡ true
        → Step t starts x false x (perror (codes "fork") ∷ forked (os.fork t) ∷ t)
    kill_idle : {t : Trace} → Step t kills down true down t
    kill_works :
        {t : Trace} {p : ℤ}
        → is_zero (os.kill t p) ≡ true
        → has_exited os (status_of t p) ≡ true
        → Step t kills (up p) true down (waited p (status_of t p) ∷ signalled p (os.kill t p) ∷ t)
    kill_survived :
        {t : Trace} {p : ℤ}
        → is_zero (os.kill t p) ≡ true
        → has_exited os (status_of t p) ≡ false
        → Step t kills
            (up p)
            false
            (up p)
            (waited p (status_of t p) ∷ signalled p (os.kill t p) ∷ t)
    kill_refused :
        {t : Trace} {p : ℤ}
        → is_zero (os.kill t p) ≡ false
        → Step t kills (up p) false (up p) (perror (codes "kill") ∷ signalled p (os.kill t p) ∷ t)
    restart_goes_on :
        {t u v : Trace} {x y z : Phase} {b : Bool}
        → Step t kills x true y u
        → Step u starts y b z v
        → Step t restarts x b z v
    restart_stops :
        {t u : Trace} {x y : Phase} → Step t kills x false y u → Step t restarts x false y u
    wait : {t u : Trace} {x : Phase} {b : Bool} → Grows t u → Step t waits x b x u

  -- Calls with their results.
  pub data Run : Trace → List Call → Phase → List Bool → Phase → Trace → Type 0 where
    finished : {t : Trace} {x : Phase} → Run t [] x [] x t
    next :
        {t u v : Trace} {c : Call} {cs : List Call} {x y z : Phase} {b : Bool} {bs : List Bool}
        → Step t c x b y u
        → Run u cs y bs z v
        → Run t (c ∷ cs) x (b ∷ bs) z v

abbrev pub phase_of : Bool → Option ℤ → Phase
phase_of false o = down
phase_of true none = down
phase_of true (some p) = up p

-- The abstract state of an instance.
abbrev pub phase : ProcessInstance → Phase
phase i = phase_of i.running i.pid

-- `_pid` was set.
abbrev pub HasValue : Option ℤ → Type 0
HasValue none = ⊥
HasValue (some p) = Unit

-- As a new instance is, and as every method leaves it.
abbrev pub IsUsable : ProcessInstance → Type 0
IsUsable i = i.running ≡ true → HasValue i.pid

-- The program is not a child of a fork() of its own.
abbrev pub StaysParent : Os → Type 0
StaysParent os = (t : Trace) → ¬ os.fork t ≡ pos 0

abbrev pub Resolves : Os → Type 0
Resolves os = (t : Trace) (host : Text) → os.getaddrinfo t host ≡ true
