-- ===== src/System.antt =====
-- What the harness asks of its environment: POSIX calls, `boost::filesystem`, environment
-- variables. `Os` holds their answers, each a function of all that was called before; every call
-- is recorded in a trace, newest first.
use clearwater_fv_test.Base.{ℕ, ◌≡◌, List, [], ◌∷◌, ◌++◌, Option, Bool, text_eq, if◌then◌else◌}
use clearwater_fv_test.Text.{Text}
use clearwater_fv_test.Text.Integer.{ℤ, negsuc}

pub data Event : Type 0 where
  forked : ℤ → Event  -- the value that fork() returned
  signalled : ℤ → ℤ → Event  -- kill(pid, SIGTERM), and what it returned
  waited : ℤ → ℕ → Event  -- waitpid(pid, &status, 0), and the status that it left
  executed : Text → List Text → Event  -- execlp(file, argv)
  perror : Text → Event
  reopened : Text → Text → Event  -- freopen(file, "a", stream)
  resolved : Text → Text → Event  -- getaddrinfo(host, service)
  opened_socket : ℤ → Event
  connected : ℤ → Event  -- what connect() returned
  slept : ℕ → Event  -- microseconds of usleep or sleep
  closed : ℤ → Event
  freed_addrinfo : Event
  opened_file : Text → Event  -- an ofstream that truncates the file
  wrote : Text → Text → Event  -- a text written to the file at its end
  created_directory : Text → Event
  removed_all : Text → Event
  removed : Text → Event

abbrev pub Trace : Type 0
Trace = List Event

pub record Os : Type 0 where
  pub fork : Trace → ℤ
  pub kill : Trace → ℤ → ℤ
  pub waitpid : Trace → ℤ → ℕ
  pub wifsignaled : ℕ → Bool
  pub wifexited : ℕ → Bool
  pub execlp : Trace → Text → Bool  -- whether the new program starts
  pub getaddrinfo : Trace → Text → Bool  -- whether an address is found
  pub socket : Trace → ℤ
  pub connect : Trace → ℤ
  pub create_directory : Trace → Text → Bool  -- false: throws
  pub remove_all : Trace → Text → Bool  -- false: throws
  pub getenv : Text → Option Text

pub data Exception : Type 0 where
  out_of_range filesystem_error : Exception

-- How a computation ends: by a value, an exception, `std::terminate`, undefined behaviour, or by
-- `execlp`, which replaces the process.
pub data Outcome {ℓ} (A : Type ℓ) : Type ℓ where
  ok : A → Outcome A
  raised : Exception → Outcome A
  terminated : Outcome A
  undefined : Outcome A
  replaced : Outcome A

abbrev pub M {ℓ} : Type ℓ → Type ℓ
M A = Trace → Outcome A × Trace

abbrev pub continue {ℓ κ} :
    {A : Type ℓ} {B : Type κ} → Outcome A × Trace → (A → M B) → Outcome B × Trace
continue (ok a, t) f = f a t
continue (raised e, t) f = (raised e, t)
continue (terminated, t) f = (terminated, t)
continue (undefined, t) f = (undefined, t)
continue (replaced, t) f = (replaced, t)

infixl 5 ◌>>=◌ ◌>>◌
abbrev pub ◌>>=◌ {ℓ κ} : {A : Type ℓ} {B : Type κ} → M A → (A → M B) → M B
◌>>=◌ m f t = continue (m t) f

abbrev pub ◌>>◌ {ℓ κ} : {A : Type ℓ} {B : Type κ} → M A → M B → M B
◌>>◌ m n t = continue (m t) (λ _. n)

abbrev pub pure {ℓ} : {A : Type ℓ} → A → M A
pure a t = (ok a, t)

abbrev pub raise {ℓ} : {A : Type ℓ} → Exception → M A
raise e t = (raised e, t)

abbrev pub fault {ℓ} : {A : Type ℓ} → M A
fault t = (undefined, t)

abbrev pub emit : Event → M (Unit {0})
emit e t = (ok tt, e ∷ t)

-- The calls, each with its record in the trace.
module _ (os : Os) where
  abbrev pub fork : M ℤ
  fork t = (ok (os.fork t), forked (os.fork t) ∷ t)

  abbrev pub kill : ℤ → M ℤ
  kill p t = (ok (os.kill t p), signalled p (os.kill t p) ∷ t)

  abbrev pub waitpid : ℤ → M ℕ
  waitpid p t = (ok (os.waitpid t p), waited p (os.waitpid t p) ∷ t)

  abbrev pub execlp : Text → List Text → M (Unit {0})
  execlp file argv t =
      if os.execlp t file
      then (replaced, executed file argv ∷ t)
      else (ok tt, executed file argv ∷ t)

  abbrev pub getaddrinfo : Text → Text → M Bool
  getaddrinfo host service t = (ok (os.getaddrinfo t host), resolved host service ∷ t)

  abbrev pub socket : M ℤ
  socket t = (ok (os.socket t), opened_socket (os.socket t) ∷ t)

  abbrev pub connect : M ℤ
  connect t = (ok (os.connect t), connected (os.connect t) ∷ t)

  abbrev pub create_directory : Text → M (Unit {0})
  create_directory dir t =
      if os.create_directory t dir
      then (ok tt, created_directory dir ∷ t)
      else (raised filesystem_error, created_directory dir ∷ t)

  abbrev pub remove_all : Text → M (Unit {0})
  remove_all dir t =
      if os.remove_all t dir
      then (ok tt, removed_all dir ∷ t)
      else (raised filesystem_error, removed_all dir ∷ t)

  -- In a destructor: an exception would leave it, and ends the program.
  abbrev pub remove_all_in_destructor : Text → M (Unit {0})
  remove_all_in_destructor dir t =
      if os.remove_all t dir
      then (ok tt, removed_all dir ∷ t)
      else (terminated, removed_all dir ∷ t)

-- What was written to a file since it was last opened.
abbrev pub contents : Text → Trace → Text
contents path [] = []
contents path (opened_file p ∷ t) = if text_eq p path then [] else contents path t
contents path (wrote p s ∷ t) = if text_eq p path then contents path t ++ s else contents path t
contents path (_ ∷ t) = contents path t

-- fork() returns -1 on failure, 0 in the child, and in the parent the child's identifier.
abbrev pub ForkReturns : Os → Type 0
ForkReturns os = (t : Trace) (n : ℕ) → os.fork t ≡ negsuc n → n ≡ 0

-- A postcondition of a computation that returns a value.
abbrev pub Ensures {ℓ κ} : {A : Type ℓ} → (A → Trace → Type κ) → Outcome A × Trace → Type κ
Ensures P (ok a, t) = P a t
Ensures P (_, t) = Unit

pub >>=-Ensures {ℓ κ ℓ' κ'} :
    {A : Type ℓ} {B : Type ℓ'} (P : A → Trace → Type κ) (Q : B → Trace → Type κ')
    (r : Outcome A × Trace) (f : A → M B)
    → Ensures P r
    → ((a : A) (t : Trace) → P a t → Ensures Q (f a t))
    → Ensures Q (continue r f)
>>=-Ensures P Q (ok a, t) f h k = k a t h
>>=-Ensures P Q (raised e, t) f h k = tt
>>=-Ensures P Q (terminated, t) f h k = tt
>>=-Ensures P Q (undefined, t) f h k = tt
>>=-Ensures P Q (replaced, t) f h k = tt

pub Ensures-mono {ℓ κ κ'} :
    {A : Type ℓ} (P : A → Trace → Type κ) (Q : A → Trace → Type κ') (r : Outcome A × Trace)
    → Ensures P r
    → ((a : A) (t : Trace) → P a t → Q a t)
    → Ensures Q r
Ensures-mono P Q (ok a, t) h k = k a t h
Ensures-mono P Q (raised e, t) h k = tt
Ensures-mono P Q (terminated, t) h k = tt
Ensures-mono P Q (undefined, t) h k = tt
Ensures-mono P Q (replaced, t) h k = tt

pub Ensures-both {ℓ κ} :
    {A : Type ℓ} (P Q R : A → Trace → Type κ) (r : Outcome A × Trace)
    → Ensures P r
    → Ensures Q r
    → ((a : A) (t : Trace) → P a t → Q a t → R a t)
    → Ensures R r
Ensures-both P Q R (ok a, t) h k f = f a t h k
Ensures-both P Q R (raised e, t) h k f = tt
Ensures-both P Q R (terminated, t) h k f = tt
Ensures-both P Q R (undefined, t) h k f = tt
Ensures-both P Q R (replaced, t) h k f = tt

-- What every value meets.
pub always {ℓ κ} :
    {A : Type ℓ} (P : A → Trace → Type κ) (r : Outcome A × Trace)
    → ((a : A) (t : Trace) → P a t)
    → Ensures P r
always P (ok a, t) h = h a t
always P (raised e, t) h = tt
always P (terminated, t) h = tt
always P (undefined, t) h = tt
always P (replaced, t) h = tt

-- A computation that returns a value with a postcondition.
abbrev pub Yields {ℓ κ} : {A : Type ℓ} → (A → Trace → Type κ) → Outcome A × Trace → Type (ℓ ⊔ κ)
Yields {A = A} P r = (a : A) × (t : Trace) × (r ≡ (ok a, t)) × P a t

pub >>=-Yields {ℓ κ ℓ' κ'} :
    {A : Type ℓ} {B : Type ℓ'} (P : A → Trace → Type κ) (Q : B → Trace → Type κ')
    (r : Outcome A × Trace) (f : A → M B)
    → Yields P r
    → ((a : A) (t : Trace) → P a t → Yields Q (f a t))
    → Yields Q (continue r f)
>>=-Yields P Q r f (a, t, e, h) k = rw e (k a t h)
