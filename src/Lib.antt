-- ===== src/Lib.antt =====
-- Verification of the Clearwater FV test harness: the C++ program of src/ that starts Memcached,
-- Rogers, Chronos and dnsmasq processes on loopback addresses, groups them into sites, breaks and
-- repairs them, and runs tests of a clustered store against them.
--
-- The program's parts, and the files that model them:
--
-- * `ProcessInstance` and its subclasses, src/processinstance.h and src/processinstance.cpp:
--   Process.antt (the record, the four kinds, start_instance, kill_instance, restart_instance,
--   wait_for_instance, execute_process, get_log_level, the destructors) and Process/Config.antt
--   (the constructors that write configuration files). Theorems: Process/Live, Process/Signals,
--   Process/Wait, Process/Child, Process/Dnsmasq, Process/Resolver (the file of dnsmasq read
--   back), Process/Spec and Process/Refines (an abstract machine of its states), and
--   Process/Again (a second start). Process/Started, Process/Success, Process/Healthy, Process/Quiet,
--   Process/Balance (the children of a program that keeps several instances) and
--   Process/Destroyed have the lemmas that they and the sites share.
-- * `Site` and `Site::Topology`, src/site.h and src/site.cpp: Site.antt (the topology, the record,
--   the loops that make Memcached and Rogers instances) and Site/Lifecycle.antt (the rest of the
--   constructor, the destructor, the methods on all instances, the getters). Theorems: Site/Build,
--   Site/Returns, Site/Addresses, Site/Ips, Site/Settings, Site/Waiting, Site/Loop, Site/Throws,
--   Site/Forked, Site/Reached
--   (any calls of a site), Site/Destroyed (its whole life) and Site/Files, with Whole (all files
--   that the constructor writes) and Read (the cluster settings read back). Site/Live, Site/Quiet,
--   Site/Started, Site/Files/Paths and Site/Files/Chronos have lemmas.
-- * The tests of the memcached solution, src/test_memcachedsolution.cpp: Memcached/Fixture.antt (the
--   fixture's state and helper methods), Memcached/Simple.antt (the simple tests),
--   Memcached/Scenario.antt (the failure scenarios), Memcached/Case.antt (a test with its store and
--   its databases), Memcached/Failures.antt (the failure and larger-cluster tests),
--   Memcached/Thrash.antt (thrash_thread_fn and its threads) and Memcached/Thrash/Main.antt (the
--   main thread). Theorems: Memcached/Fixture/Keys; Memcached/Simple/Passes and Connects, on the
--   steps of Simple/Steps; Memcached/Scenario; Memcached/Failures with Run (SetUpTestCase, SetUp and
--   a test), Passes, Rounds and the lemmas in Steps, Parts and Aside; Memcached/Thrash with
--   Invariant, Turns, Total, Final, Cost, Progress and Fair, and Thrash/Main with Fresh, Keys and
--   Passes.
--   Memcached/Servers.antt has the static members of the fixture, that is the databases and the
--   dnsmasq that the tests of a test case share, with the theorems in Memcached/Servers/Life,
--   Memcached/Servers/Serves and Memcached/Servers/Restored, and their lemmas in Last, Failure,
--   Repair and Up beside them; Total and Whole say what they do where no system call fails.
-- * The fixture of the S4 tests, src/test_s4solution.cpp: S4.antt (two sites and a dnsmasq),
--   S4/Connects.antt (what the S4 sites of a test connect to) and S4/Objects.antt (the objects that
--   they allocate and delete). Theorems: S4/Life, S4/Serves, S4/Connects with Remotes and Resolved,
--   and S4/Objects/Freed; S4/Made has lemmas. Shared.antt, with Shared/Made,
--   Shared/Released and Shared/Waits, has what both fixtures do with their shared pointers;
--   Map.antt is std::map.
-- * The test of a DNS server, src/test_dns.cpp: Dns.antt. Theorem: Dns/Passes.
-- * `main`, src/test_main.cpp: Driver.antt (the seed of the random numbers). Theorem:
--   Driver/Repeats.
-- * What they stand on: Base (shared names and lemmas), Text (strings as lists of bytes, decimal
--   numbers, strtol and atoi of the C library), System (the environment). Tests has concrete
--   environments, sites and stores.
--
-- How the code is read:
--
-- * A method that changes an object takes it and returns it. `M A` passes the trace of all system
--   calls along and ends in an `Outcome`: a value, an exception, std::terminate, undefined
--   behaviour, or the replacement of the process by execlp(). A member that the code does not
--   initialise (`_pid`) is an Option, and its use before it is set is undefined behaviour.
-- * `Os` holds the answers of the environment (fork, kill, waitpid, execlp, getaddrinfo, socket,
--   connect, directories, getenv), each a function of the trace so far, so that a theorem for every
--   `Os` is one for every behaviour of it. `ForkReturns` is what fork() promises: no negative
--   number but -1. `Obeys` says that processes end of the signal that they are sent, and that
--   directories can be removed; `StaysParent` and `Resolves` that the program is not its own
--   child, and that names resolve. A theorem that needs one of them takes it as a hypothesis.
--   Files are what the trace says was written to them; streams are taken not to fail.
-- * The store is a library outside this repository: Memcached/Store.antt states it as a record of
--   operations, `Store`, with the laws that the tests rely on: `IsCas`, compare and set with fresh
--   CAS values, and `IsStore`, which adds absent, deleted and expired records. `IsTimed`
--   (Memcached/Timed.antt) adds how long records live; calls of the store take no time, which
--   passes in sleep() only. Memcached/Memory.antt is a store in memory with a clock, which keeps
--   these promises (Memory/Promises, with the lemmas of Memory/Laws).
-- * What a failure, its repair and a new store object do to the store is a parameter, `Faults`.
--   The simple tests that make a store object for another address take the store objects of all
--   addresses as a parameter, and what is promised of those for the addresses that they use.
--   `IsTolerant` states what the comments of the failure tests rely on: a record with a minute to
--   live survives, though maybe under another CAS value, and no record appears or lives for longer.
--   `IsHealthy` says of an `Os` that none of the calls which the scenarios make fails.
-- * Threads of the thrash test take turns at the calls of the store: a turn is one get_data or
--   set_data with what leads up to the next, or the step to the next round. A schedule is any list
--   of thread numbers.
-- * Loops over a count are structural recursion on the rounds that are left; a negative count has
--   none. The wait loop has its five attempts, and needs no other fuel. The only fuel is in
--   Text/Decimal.antt, where a number is enough for its digits, as the round trip there shows.
--   `unsigned int` wraps around at 2^32, and `long` to `int` keeps 32 bits. Signed overflow of a
--   counter in the thrash test is excluded by a bound on the final values.
--
-- Not modelled: src/test_snmp.cpp, which checks tables of a library; in src/test_main.cpp, the
-- start of the test framework and of its logger; in src/test_s4solution.cpp, what the objects that
-- S4Site connects do, and the S4 calls of the tests, which are calls of a library; the DNS clients
-- and HTTP stacks that tests make; signal() and signal handlers, but for the TearDownTestCase that
-- they call; the unwinding of a constructor that throws; other output to the console.
mod Base
mod Tests
pub mod Text
pub mod System
pub mod Process
pub mod Site
pub mod Memcached
pub mod Dns
pub mod Driver
pub mod Map
pub mod Shared
pub mod S4
