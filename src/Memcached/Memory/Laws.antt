-- ===== src/Memcached/Memory/Laws.antt =====
-- What writes and time do to the records of the store in memory.
use clearwater_fv_test.Base.{
  ℕ, suc, ◌+◌, ◌-◌, ◌≤◌, ◌<◌, ◌≡◌, ◌≢◌, refl, inl, inr, true, false, [], ◌∷◌, Option, none, some,
  ◌==◌, ltb, ltb→lt, lt→ltb, Bool-cases, text_eq, text_eq_iff, text_ne, arith, length,
}
use clearwater_fv_test.Text.{Text}
use clearwater_fv_test.Text.Integer.{ℤ, pos}
use clearwater_fv_test.Memcached.Store.{Status, stored, data_contention}
use clearwater_fv_test.Memcached.Timed.{seconds}
use clearwater_fv_test.Memcached.Memory.{
  Log, Memory, alive, entry, end_of, lives_until, written, wrote, set_entry,
}

alive-le :
    (now c : ℕ) (o : Option (Text × ℕ)) (d : Text) (c' : ℕ) → alive now c o ≡ some (d, c') → c ≡ c'
alive-le now c none d c' e = cc
alive-le now c (some (x, until)) d c' e = elim (Bool-cases (ltb now until)) [
  | inl living ↦ cc (rw living at e)
  | inr dead ↦ cc (rw dead at e)
]

pub entry-issued :
    (now : ℕ) (log : Log) (k d : Text) (c : ℕ)
    → entry now log k ≡ some (d, c)
    → (c ≤ length log) × (c ≢ 0)
unfolding entry
entry-issued now [] k d c e = cc
entry-issued now ((j, o) ∷ log) k d c e = elim (Bool-cases (text_eq j k)) [
  | inl this ↦
      let c_is : suc (length log) ≡ c =
        alive-le now (suc (length log)) o d c (rw (this, entry) at e) in
      (omega arith, omega arith)
  | inr other ↦
      let (le, nonzero) = entry-issued now log k d c (rw (other, entry) at e) in
      (omega arith, nonzero)
]

pub text_self : (k : Text) → text_eq k k ≡ true
text_self k = (text_eq_iff k k).1 refl

abbrev pub look : Memory → Text → Option (Text × ℕ)
look s k = entry s.now s.log k

abbrev set : Memory → Text → Text → ℕ → ℤ → Status × Memory
set s k d cas e = set_entry (look s k) s k d cas e

unfoldable pub remains : Memory → Text → ℕ
unfolding lives_until
remains s k = lives_until s.log k - s.now

soon : (now e : ℕ) → ltb now (now + seconds (suc e)) ≡ true
soon now e = lt→ltb now (now + seconds (suc e)) (omega arith)

-- A write that is accepted.
pub accepted :
    (s : Memory) (k d' : Text) (e : ℕ)
    → let s' = wrote s k (written s.now (pos (suc e)) d') in
      (look s' k ≡ some (d', suc (length s.log))) × (remains s' k ≡ seconds (suc e))
unfolding entry written remains lives_until
accepted s k d' e = (rw (text_self k, soon s.now e), rw (text_self k) (omega arith))

pub set-match :
    (s : Memory) (k d d' : Text) (c : ℕ) (e : ℤ)
    → look s k ≡ some (d, c)
    → set s k d' c e ≡ (stored, wrote s k (written s.now e d'))
unfolding set_entry
set-match s k d d' c e found = let same : (c == c) ≡ true = ground arith in simp (found, same)

pub set-conflict :
    (s : Memory) (k d d' : Text) (c c₀ : ℕ) (e : ℤ)
    → look s k ≡ some (d, c)
    → c₀ ≢ c
    → set s k d' c₀ e ≡ (data_contention, s)
unfolding set_entry
set-conflict s k d d' c c₀ e found ne =
    let differ : (c₀ == c) ≡ false = ground arith in simp (found, differ)

pub set-add :
    (s : Memory) (k d' : Text) (e : ℤ)
    → look s k ≡ none
    → set s k d' 0 e ≡ (stored, wrote s k (written s.now e d'))
unfolding set_entry
set-add s k d' e absent = simp absent

pub set-gone :
    (s : Memory) (k d' : Text) (c₀ : ℕ) (e : ℤ)
    → look s k ≡ none
    → c₀ ≢ 0
    → set s k d' c₀ e ≡ (data_contention, s)
unfolding set_entry
set-gone s k d' c₀ e absent nonzero =
    let differ : (c₀ == 0) ≡ false = ground arith in simp (absent, differ)

-- A write to one key leaves the others, and no earlier write is forgotten.
unfoldable pub Beside : Memory → Text → Memory → Type 0
unfolding remains
Beside s j s' =
    (look s' j ≡ look s j) × (remains s' j ≡ remains s j) × (length s.log ≤ length s'.log)

wrote-Beside :
    (s : Memory) (k : Text) (o : Option (Text × ℕ)) (j : Text) → k ≢ j → Beside s j (wrote s k o)
unfolding entry lives_until remains Beside
wrote-Beside s k o j ne = rw (text_ne k j ne) (refl, refl, omega arith)

pub set-Beside :
    (o : Option (Text × ℕ)) (s : Memory) (k d' : Text) (c₀ : ℕ) (e : ℤ) (j : Text)
    → k ≢ j
    → Beside s j (set_entry o s k d' c₀ e).1
unfolding set_entry Beside
set-Beside none s k d' c₀ e j ne = elim (Bool-cases (c₀ == 0)) [
  | inl add ↦ rw add (wrote-Beside s k (written s.now e d') j ne)
  | inr other ↦ rw other (refl, refl, omega arith)
]
set-Beside (some (d, c)) s k d' c₀ e j ne = elim (Bool-cases (c₀ == c)) [
  | inl same ↦ rw same (wrote-Beside s k (written s.now e d') j ne)
  | inr other ↦ rw other (refl, refl, omega arith)
]

pub set-issued :
    (o : Option (Text × ℕ)) (s : Memory) (k d' : Text) (c₀ : ℕ) (e : ℤ)
    → length s.log ≤ length (set_entry o s k d' c₀ e).1.log
unfolding set_entry
set-issued none s k d' c₀ e = elim (Bool-cases (c₀ == 0)) [
  | inl add ↦ rw add (omega arith)
  | inr other ↦ rw other (omega arith)
]
set-issued (some (d, c)) s k d' c₀ e = elim (Bool-cases (c₀ == c)) [
  | inl same ↦ rw same (omega arith)
  | inr other ↦ rw other (omega arith)
]

not_living : (now until : ℕ) → until ≤ now → ltb now until ≡ false
not_living now until le = elim (Bool-cases (ltb now until)) [
  | inl living ↦ absurd (omega (arith, ltb→lt now until living))
  | inr over ↦ over
]

alive-later :
    (now later c : ℕ) (o : Option (Text × ℕ))
    → now ≤ later
    → alive now c o ≡ none
    → alive later c o ≡ none
alive-later now later c none le dead = refl
alive-later now later c (some (d, until)) le dead = elim (Bool-cases (ltb later until)) [
  | inl living ↦
      let early : ltb now until ≡ true =
        lt→ltb now until (omega (arith, ltb→lt later until living)) in
      cc (rw early at dead)
  | inr over ↦ rw over
]

pub entry-later :
    (now later : ℕ) (log : Log) (k : Text)
    → now ≤ later
    → entry now log k ≡ none
    → entry later log k ≡ none
unfolding entry
entry-later now later [] k le gone = refl
entry-later now later ((j, o) ∷ log) k le gone = elim (Bool-cases (text_eq j k)) [
  | inl this ↦ rw this (alive-later now later (suc (length log)) o le (rw this at gone))
  | inr other ↦ rw other (entry-later now later log k le (rw other at gone))
]

alive-kept :
    (now later c c' : ℕ) (o : Option (Text × ℕ)) (d : Text)
    → later < end_of o
    → alive now c o ≡ some (d, c')
    → alive later c o ≡ some (d, c')
alive-kept now later c c' none d lt found = cc
alive-kept now later c c' (some (d₀, until)) d lt found = elim (Bool-cases (ltb now until)) [
  | inl living ↦ rw (lt→ltb later until lt) (rw living at found)
  | inr over ↦ cc (rw over at found)
]

pub entry-kept :
    (now later : ℕ) (log : Log) (k d : Text) (c : ℕ)
    → later < lives_until log k
    → entry now log k ≡ some (d, c)
    → entry later log k ≡ some (d, c)
unfolding entry lives_until
entry-kept now later [] k d c lt found = absurd (omega arith)
entry-kept now later ((j, o) ∷ log) k d c lt found = elim (Bool-cases (text_eq j k)) [
  | inl this ↦
      rw this (alive-kept now later (suc (length log)) c o d (rw this at lt) (rw this at found))
  | inr other ↦ rw other (entry-kept now later log k d c (rw other at lt) (rw other at found))
]

alive-over : (now c : ℕ) (o : Option (Text × ℕ)) → end_of o ≤ now → alive now c o ≡ none
alive-over now c none le = refl
alive-over now c (some (d, until)) le = rw (not_living now until le)

pub entry-over : (now : ℕ) (log : Log) (k : Text) → lives_until log k ≤ now → entry now log k ≡ none
unfolding entry lives_until
entry-over now [] k le = refl
entry-over now ((j, o) ∷ log) k le = elim (Bool-cases (text_eq j k)) [
  | inl this ↦ rw this (alive-over now (suc (length log)) o (rw this at le))
  | inr other ↦ rw other (entry-over now log k (rw other at le))
]
