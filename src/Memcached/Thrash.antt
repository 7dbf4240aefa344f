-- ===== src/Memcached/Thrash.antt =====
-- `thrash_thread_fn` and its threads, src/test_memcachedsolution.cpp: each thread increments each
-- key ten times, by compare and set. The calls of the store are the steps that interleave.
pub mod Invariant
pub mod Turns
pub mod Total
pub mod Final
pub mod Cost
pub mod Progress
pub mod Fair
pub mod Main
use clearwater_fv_test.Base.{
  ℕ, zero, suc, ◌+◌, ◌*◌, ◌≡◌, Bool, true, false, List, [], ◌∷◌, Option, none, some, ◌==◌, ltb,
  if◌then◌else◌,
}
use clearwater_fv_test.Text.{Text}
use clearwater_fv_test.Text.Integer.{ℤ, pos, negsuc, to_string, atoi}
use clearwater_fv_test.Memcached.Store.{Status, stored, not_found, data_contention, error, Store}

abbrev pub num_incr_per_key_per_thread : ℕ
num_incr_per_key_per_thread = 10

-- Where a thread stands: the rounds of the outer loop that are to come, the keys of this round that
-- are not done, and, between the two calls for the first of them, the locals `value` and `cas`.
pub record Thread : Type 0 where
  pub round : ℕ
  pub rest : List Text
  pub held : Option (ℤ × ℕ)

abbrev pub new_thread : Thread
new_thread = record { round = num_incr_per_key_per_thread; rest = []; held = none }

-- `value++` on an `int` that does not overflow.
abbrev pub succ : ℤ → ℤ
succ (pos n) = pos (suc n)
succ (negsuc zero) = pos 0
succ (negsuc (suc n)) = negsuc n

-- Whether an expectation on a status failed, as a number of failures.
abbrev pub unless_stored : Status → ℕ
unless_stored stored = 0
unless_stored _ = 1

abbrev pub unless_stored_or_contention : Status → ℕ
unless_stored_or_contention stored = 0
unless_stored_or_contention data_contention = 0
unless_stored_or_contention _ = 1

-- `while (rc == DATA_CONTENTION)`: the key again, or the next one.
abbrev pub after_set : Status → Text → List Text → List Text
after_set data_contention key keys = key ∷ keys
after_set _ key keys = keys

module _ (S : Store) (table : Text) (keys : List Text) (junk : ℕ) where
  -- What one turn of a thread changes: itself, the store, and the number of failed expectations.
  abbrev pub Turn : Type 0
  Turn = Thread × S.State × ℕ

  pub next_round : ℕ → S.State → Turn
  next_round zero s = (record { round = 0; rest = []; held = none }, s, 0)
  next_round (suc round) s = (record { round = round; rest = keys; held = none }, s, 0)

  -- `cas` is not initialised before the call: it holds `junk`.
  pub fetch : ℕ → Text → List Text → S.State → Turn
  fetch round key ks s =
      let ((rc, data_out, cas), s') = S.get_data s table key [] junk in
      (
        record { round = round; rest = key ∷ ks; held = some (succ (atoi data_out), cas) },
        s',
        unless_stored rc,
      )

  pub put_back : ℕ → Text → List Text → ℤ → ℕ → S.State → Turn
  put_back round key ks value cas s =
      let (rc, s') = S.set_data s table key (to_string value) cas (pos 300) in
      (
        record { round = round; rest = after_set rc key ks; held = none },
        s',
        unless_stored_or_contention rc,
      )

  pub turn_at : ℕ → List Text → Option (ℤ × ℕ) → S.State → Turn
  unfolding next_round fetch put_back
  turn_at round [] held s = next_round round s
  turn_at round (key ∷ ks) none s = fetch round key ks s
  turn_at round (key ∷ ks) (some (value, cas)) s = put_back round key ks value cas s

  unfoldable pub turn : Thread → S.State → Turn
  unfolding turn_at
  turn th s = turn_at th.round th.rest th.held s

-- All threads, by their index, over one store.
pub record World (S : Store) : Type 0 where
  pub store : S.State
  pub threads : ℕ → Thread
  pub failed : ℕ

abbrev pub update : (ℕ → Thread) → ℕ → Thread → ℕ → Thread
update f i th j = if i == j then th else f j

module _ (S : Store) (table : Text) (keys : List Text) (junk n : ℕ) where
  -- Thread `i` of the `n` takes a turn.
  unfoldable pub pick : ℕ → World S → World S
  unfolding turn
  pick i s =
      let (th, store', failures) = turn S table keys junk (s.threads i) s.store in
      if ltb i n
      then record { store = store'; threads = update s.threads i th; failed = s.failed + failures }
      else s

  -- A schedule says whose turn it is, step by step.
  unfoldable pub run : List ℕ → World S → World S
  unfolding pick
  run [] s = s
  run (i ∷ schedule) s = run schedule (pick i s)

abbrev pub spawned : (S : Store) → S.State → World S
spawned S store = record { store = store; threads = λ _. new_thread; failed = 0 }

-- The threads have been joined.
abbrev pub AllDone : {S : Store} → ℕ → World S → Type 0
AllDone n s = (i : ℕ) → ltb i n ≡ true → ((s.threads i).round ≡ 0) × ((s.threads i).rest ≡ [])
