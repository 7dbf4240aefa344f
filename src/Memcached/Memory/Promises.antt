-- ===== src/Memcached/Memory/Promises.antt =====
-- The store in memory keeps the promises that the tests rely on.
use clearwater_fv_test.Base.{suc, ◌+◌, ◌≤◌, refl, arith, length}
use clearwater_fv_test.Text.{Text}
use clearwater_fv_test.Text.Integer.{pos}
use clearwater_fv_test.Memcached.Store.{IsCas, IsStore}
use clearwater_fv_test.Memcached.Timed.{IsTimed}
use clearwater_fv_test.Memcached.Memory.{entry, written, get_entry, memory_store}
use clearwater_fv_test.Memcached.Memory.Laws.{
  entry-issued, accepted, set-match, set-conflict, set-Beside, set-issued, set-add, set-gone,
  text_self, entry-later, entry-kept, entry-over, look, Beside, remains,
}

unfoldable pub memory_store-IsCas : (table : Text) → IsCas memory_store table
unfolding memory_store get_entry Beside remains
memory_store-IsCas table = record {
  view = look;
  Issued = λ s c. c ≤ length s.log;
  view_issued = λ s k d c found. (entry-issued s.now s.log k d c found).0;
  get_found = λ s k d d₀ c c₀ found. rw found;
  get_view = λ s k d₀ c₀ j. refl;
  get_issued = λ s k d₀ c₀ c issued. issued;
  set_match = λ s k d d' c e found.
      let (now_there, lives) = accepted s k d' e in
      rw (set-match s k d d' c (pos (suc e)) found)
        (refl, (suc (length s.log), now_there, λ le. absurd (omega arith)));
  set_conflict =
      λ s k d d' c c₀ e found ne. rw (set-conflict s k d d' c c₀ e found ne) (refl, found);
  set_other = λ s k d' c₀ e j ne. (set-Beside (look s k) s k d' c₀ e j ne).0;
  set_issued = λ s k d' c₀ e c issued. omega (arith, set-issued (look s k) s k d' c₀ e);
}

unfoldable pub memory_store-IsStore : (table : Text) → IsStore memory_store table
unfolding memory_store memory_store-IsCas get_entry entry written
memory_store-IsStore table = record {
  cas_laws = memory_store-IsCas table;
  cas_nonzero = λ s k d c found. (entry-issued s.now s.log k d c found).1;
  get_missing = λ s k d₀ c₀ absent. rw absent (refl, refl);
  set_add = λ s k d' e absent.
      let (now_there, lives) = accepted s k d' e in
      rw (set-add s k d' (pos (suc e)) absent) (refl, (suc (length s.log), now_there));
  set_gone = λ s k d' c₀ e absent nonzero. rw (set-gone s k d' c₀ e absent nonzero) (refl, absent);
  set_expired =
      λ s k d d' c found. rw (set-match s k d d' c (pos 0) found, text_self k) (refl, refl);
  delete_lem = λ s k. (refl, rw (text_self k) refl);
  wait_missing = λ s k us absent. entry-later s.now (s.now + us) s.log k (omega arith) absent;
}

unfoldable pub memory_store-IsTimed : (table : Text) → IsTimed memory_store table
unfolding memory_store memory_store-IsStore memory_store-IsCas get_entry remains Beside
memory_store-IsTimed table = record {
  store_laws = memory_store-IsStore table;
  left = remains;
  get_left = λ s k d₀ c₀ j. refl;
  add_left = λ s k d' e absent.
      let (now_there, lives) = accepted s k d' e in rw (set-add s k d' (pos (suc e)) absent) lives;
  match_left = λ s k d d' c e found.
      let (now_there, lives) = accepted s k d' e in
      rw (set-match s k d d' c (pos (suc e)) found) lives;
  conflict_left = λ s k d d' c c₀ e found ne. rw (set-conflict s k d d' c c₀ e found ne) refl;
  other_left = λ s k d' c₀ e j ne. (set-Beside (look s k) s k d' c₀ e j ne).1;
  wait_kept = λ s k d c us found lt. entry-kept s.now (s.now + us) s.log k d c (omega arith) found;
  wait_expired = λ s k us lt. entry-over (s.now + us) s.log k (omega arith);
}
