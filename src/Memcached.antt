-- ===== src/Memcached.antt =====
-- The tests of the memcached solution, src/test_memcachedsolution.cpp.
pub mod Store
pub mod Thrash
pub mod Timed
pub mod Case
pub mod Failures
pub mod Memory
pub mod Scenario
pub mod Fixture
pub mod Simple
pub mod Servers
