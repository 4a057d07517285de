-- ===== src/Lib.antt =====
-- A framework for logging, configuration and threads in C++ (nnysl/), modelled and proved correct.
--
-- The program's parts. A program logs through macros into a `Logger`, which writes through its
-- appenders, or hands on to the main logger of the `LoggerManager` if it has none. An appender
-- prints an event by a `LogFormatter`, which its constructor compiles from a pattern.
--
-- Which file models which part.
--   Prelude    `std::string` as a list of bytes, with the functions of the C locale that are called;
--              lists and Boolean tests over the native numbers.
--   Level      `LogLevel` of nnysl/log.h and nnysl/log.cpp. A level is a number, since the program
--              also casts 100 to a level.
--   Formatter  `LogEvent`, the format items and `LogFormatter`. `Formatter/Scan.antt` has the two
--              loops of `LogFormatter::init` with the indices of the source. The outer loop takes
--              fuel, as much as the pattern is long: each round moves the index on.
--   Logging    appenders, `Logger`, the macros and `LoggerManager`. What the program shares by
--              pointer stands in a store, `World`, under an address. A call through a null pointer
--              gives `none`. `Logger::log` takes fuel for the chain of roots, and 2 is enough: a
--              logger of the manager has the main logger for its root, and that has none.
--              `Logging/Sink.antt` is `std::ofstream` over the files of the system; the text of a
--              file includes what the stream has buffered.
--   Config     `ConfigVar<T>` over any type with its comparison and conversions; the registry of all
--              variables, `Config`, over an interface of the types, `Types`; `ListAllMember` and
--              `LoadFromYaml` over an interface of `YAML::Node`, `Yaml`. The recursion over a
--              document takes fuel, one more than the root's height, and each map's members are less
--              high. The order of the registry's `unordered_map` is that of an association list.
--   Thread     the scoped locks of nnysl/thread.h over any mutex; `CASLock` under any number of
--              threads, as a step relation; `Semaphore::wait` and `notify` of nnysl/thread.cpp at
--              the results of the system's calls; the constructor of `Thread` and `Thread::run` as
--              two threads whose steps interleave in any order; the names of a thread; `join` and the
--              destructor.
--   Locks      the operations of appenders, loggers and manager access by access, with the locks of
--              nnysl/log.h that they take, run by any number of threads in any order.
--              `Locks/Code.antt` has the threads and the locks, over an interface of what a lock
--              grants; `Locks/Safe.antt` what code has to keep to: the order of the locks, what it
--              relies on and what it promises; `Locks/Store.antt` the invariant of the store and
--              what each lock protects. `Locks/Program.antt` has the calls of a thread, and
--              `Locks/Alone` compares them, without their locks, with the operations of `Logging`
--              and `Define`; `Locks/Single.antt` carries that over to every schedule of one thread,
--              with its locks. An access of a member is one step, and a list is read in one, under
--              its lock.
--              `Locks/Variables.antt` has the operations of `ConfigVar` in the same way.
--   Yaml       what nnysl/config.h and nnysl/log.cpp use of yaml-cpp, as an interface with the laws
--              that its documents state.
--   Cast       the specialisations of `LexicalCast` for containers in nnysl/config.h. A conversion
--              gives what it prints to `std::cout`, and a result or an exception. A `std::set` and a
--              `std::map` are lists in order, an unordered one a list in the table's order.
--   Define     `LogDefine` and its conversions, `toYamlString` of appenders, loggers and manager, and
--              the listener of `LogIniter` in nnysl/log.cpp. The listener acts on the store of
--              `Logging`; `Define/Views.antt` says what a name stands for, and what a change of the
--              definitions is to make of it; `Define/Configured.antt` has the variable `logs`,
--              from the text of a configuration to the loggers.
--   Util       the backtraces of nnysl/util.cpp, the assertions of nnysl/macro.h and the singletons of
--              nnysl/singleton.h.
--   Tests      runs on concrete inputs.
--
-- Parameters: `localtime_r` and `strftime` together (`local_time`), the names that the system can
-- open, what `vasprintf` makes; for variables, the conversions of their types, `typeid`,
-- `operator==` and the log entries of the handlers, for which `Define/Configured.antt` has the
-- main logger's own; for documents, what is used of `YAML::Node`; for locks, what a mutex does,
-- and when it is granted; the results of the semaphore's calls, of `pthread_create` and of
-- `pthread_join`; the frames that `backtrace` finds; `boost::lexical_cast`.
--
-- Not modelled: the build, the tests, the binaries; which lock the registry takes, so that
-- its operations come one after another; `clearAppenders`, and with it the listener, beside
-- other threads, since it takes no lock; what a listener does to the variable that calls it,
-- but for `addListener`; the characters of YAML; the order in which static variables are made;
-- `assert` itself; what the callback of a thread does to its names, since `cb()` is one step that
-- ends; the rounds of a `CASLock` in `Locks`, where a thread that waits for a lock makes no step:
-- they are in `Thread/Spin.antt`.
pub mod Prelude
pub mod Level
pub mod Formatter
pub mod Logging
pub mod Config
pub mod Thread
pub mod Locks
pub mod Yaml
pub mod Cast
pub mod Define
pub mod Util
pub mod Tests
