-- ===== src/Memcached/Memory.antt =====
-- A store in memory, with a clock: the assumptions on the store can be met, and the tests can run.
pub mod Laws
pub mod Promises
use clearwater_fv_test.Base.{
  ℕ, suc, ◌+◌, ◌-◌, List, [], ◌∷◌, Option, none, some, ◌==◌, ltb, if◌then◌else◌, text_eq, length,
}
use clearwater_fv_test.Text.{Text}
use clearwater_fv_test.Text.Integer.{ℤ, pos}
use clearwater_fv_test.Memcached.Store.{Status, stored, not_found, data_contention, Store}
use clearwater_fv_test.Memcached.Timed.{seconds}

-- All writes to the one table, newest first, each with its text and the time until which it lives,
-- or neither for a deletion.
abbrev pub Log : Type 0
Log = List (Text × Option (Text × ℕ))

-- The time, in microseconds, and the writes so far.
pub record Memory : Type 0 where
  pub now : ℕ
  pub log : Log

-- The CAS value of a record is the number of writes when it was made.
abbrev pub alive : ℕ → ℕ → Option (Text × ℕ) → Option (Text × ℕ)
alive now c none = none
alive now c (some (d, until)) = if ltb now until then some (d, c) else none

unfoldable pub entry : ℕ → Log → Text → Option (Text × ℕ)
entry now [] k = none
entry now ((j, o) ∷ log) k = if text_eq j k then alive now (suc (length log)) o else entry now log k

abbrev pub end_of : Option (Text × ℕ) → ℕ
end_of none = 0
end_of (some (d, until)) = until

-- The time until which the last record of a key lives.
unfoldable pub lives_until : Log → Text → ℕ
lives_until [] k = 0
lives_until ((j, o) ∷ log) k = if text_eq j k then end_of o else lives_until log k

-- A record that expires at once is a deletion.
unfoldable pub written : ℕ → ℤ → Text → Option (Text × ℕ)
written now (pos (suc e)) d = some (d, now + seconds (suc e))
written now _ d = none

abbrev pub wrote : Memory → Text → Option (Text × ℕ) → Memory
wrote s k o = record s { log = (k, o) ∷ s.log }

unfoldable pub set_entry : Option (Text × ℕ) → Memory → Text → Text → ℕ → ℤ → Status × Memory
unfolding written
set_entry none s k d cas e =
    if cas == 0 then (stored, wrote s k (written s.now e d)) else (data_contention, s)
set_entry (some (d₀, c)) s k d cas e =
    if cas == c then (stored, wrote s k (written s.now e d)) else (data_contention, s)

unfoldable pub get_entry : Option (Text × ℕ) → Text → ℕ → Status × Text × ℕ
get_entry none d₀ c₀ = (not_found, d₀, 0)
get_entry (some (d, c)) d₀ c₀ = (stored, d, c)

unfoldable pub memory_store : Store
unfolding set_entry get_entry entry
memory_store = record {
  State = Memory;
  get_data = λ s table k d₀ c₀. (get_entry (entry s.now s.log k) d₀ c₀, s);
  set_data = λ s table k d cas e. set_entry (entry s.now s.log k) s k d cas e;
  delete_data = λ s table k. (stored, wrote s k none);
  wait = λ s us. record s { now = s.now + us };
}
