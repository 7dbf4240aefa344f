-- ===== src/Shared.antt =====
-- What the fixtures of src/test_memcachedsolution.cpp and src/test_s4solution.cpp have in common:
-- the shared pointers to their sites and to their dnsmasq.
pub mod Made
pub mod Released
pub mod Waits
use clearwater_fv_test.Base.{Bool, true, Option, none, some}
use clearwater_fv_test.System.{Os, M, pure, fault}
use clearwater_fv_test.Process.{ProcessInstance, wait_for_instance, destroy}
use clearwater_fv_test.Site.Lifecycle.{destroy_site}
use clearwater_fv_test.Site.{Site}

-- `operator*` of a shared_ptr.
abbrev pub deref {ℓ} : {A : Type ℓ} → Option A → M A
deref none = fault
deref (some a) = pure a

module _ (os : Os) where
  -- What a shared_ptr to a site, or to a dnsmasq, does with the old object.
  unfoldable pub release_site : Option Site → M (Unit {0})
  release_site none = pure tt
  release_site (some s) = destroy_site os s

  unfoldable pub release_dnsmasq : Option ProcessInstance → M (Unit {0})
  release_dnsmasq none = pure tt
  release_dnsmasq (some i) = destroy os i

  -- `!_dnsmasq_instance || _dnsmasq_instance->wait_for_instance()`.
  unfoldable pub wait_for_dnsmasq : Option ProcessInstance → M Bool
  wait_for_dnsmasq none = pure true
  wait_for_dnsmasq (some i) = wait_for_instance os i
