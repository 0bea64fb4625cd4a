-- ===== src/Lib.antt =====
-- ccore, a utility library for C programs: containers, configuration files, paths and strings,
-- threads, and the handling of fatal signals.
--
-- The parts and their files. Paths are from the root of the repository.
--   LinkedList    src/list.c, include/ccore/list.h: `cclist_t`, the intrusive circular list. The
--                 links are on an explicit memory of nodes (LinkedList.Memory), an object is its
--                 address, and every operation is a function of the same name without its prefix.
--                 LinkedList.History runs sequences of calls.
--   Table         src/table.c, include/ccore/table.h: `cctable_t`, which keeps its buckets and the
--                 values of a key in lists of the first part. They stand here as the sequences of
--                 their objects.
--   Config        src/cfg.c: `cc_cfg_load` reads lines (Config.Reader), takes a key and a value from
--                 each (Config.Parser, Config.Values) and stores them in an array of entries
--                 (Config.Entries), which the getters and `cc_cfg_delete` read. Keys are copied by
--                 `string_duplicate`.
--   Strings       include/ccore/string.h: `string_copy` and `string_duplicate`.
--   Paths         src/filesystem.c: `ccfs_path_concat` and `ccfs_path_rtrim_i`.
--   Files         src/filesystem.c: opening and reading files.
--   ThreadPool    src/tpool.c, src/tpool.h: the sections of code under the pool's mutex are functions
--                 on the state, and a step relation interleaves those of all threads. The queue is a
--                 list of the first part, and stands here as a sequence. ThreadPool.Signals adds who
--                 sleeps on which condition variable and whom a signal wakes.
--   RunLoop       src/run_loop.c: the programs of a run loop, one round over them, and the thread over
--                 the ends of its waits (RunLoop.Rounds). The name of a run loop is copied by
--                 `string_copy`.
--   Collector     src/value.c, include/ccore/value.h: the chain of objects of the collector on a
--                 heap, and the tagged union (Collector.Values).
--   Exceptions    src/except.c: the handlers of fatal signals, on POSIX systems.
--   Debug         src/debug.c: the message of `cc_print_stack` on POSIX systems, and the search for an
--                 address among the symbols of a module on Windows (Debug.Symbols).
--   Log           src/log.c: the pieces of messages, and a step relation for the threads that print
--                 them under the mutex.
--   Memory        src/memory.c: the allocator of the library and its default.
--   Math          include/ccore/math.h, src/math.c: the functions on numbers, vectors (Math.Vectors)
--                 and intersections (Math.Intersect).
--   Pid           include/ccore/pid.h: the PID controller, which clamps by Math and means to load its
--                 gains by the getters of Config.
--   Base          What the parts share: buffers, strings, floats, machine words, tests on numbers,
--                 and `CCASSERT` of include/ccore/log.h in a build with and without it.
--
-- How C is rendered. A call ends in an `Outcome`: a value, a failed assertion, a fault, which is any
-- undefined behaviour (an access through NULL or outside of a buffer, a read of what was never
-- written), or the end of the fuel of a loop. A `size_t` or `uint64_t` is a number, with the
-- remainder by `2^64` where the code can overflow; a `uint8_t` has the remainder by `2^8`, and an `int`
-- of Paths and Math is its 32-bit pattern. A string is the list of its bytes before the NUL, from 1 to
-- 255; `isspace` and `isdigit` on a `char` that is negative are a fault. What is called through a
-- pointer (tasks, programs of a run loop, signal handlers) is taken to return. Messages to the log are left out, but in Log. What `cc_alloc` returns
-- is an argument, or a block of its own, and it does not fail. Conversions of floating-point numbers
-- (`Base.Floats`), the arithmetic of floats (`Base.Doubles`, with the rules of IEEE 754 that a theorem
-- needs as hypotheses) and the 64 bits of a double (`Collector.Values`) are arguments.
--
-- Fuel and bounds. The loop over the lines of a file that can be read to its end has one round more
-- than the file has bytes as fuel, and each line but the last takes a byte at least; behind a read that
-- fails the loop takes any fuel (`parse_loop` with `fails`). The loops along a chain of objects have
-- the count of objects as fuel. The loops along a circular list take their fuel as an argument, and
-- the theorems say how much is enough. Sizes of files and buffers are below `2^62` bytes where a sum
-- of two of them has to fit a `size_t`.
--
-- Not modelled: src/time.c (clocks), src/format.c (formatted times and floats), the walk over the
-- stack in src/debug.c on Windows, the Windows branch of src/except.c, and `ccfs_path_exists`. These
-- are calls of the operating system or of the C library with little of their own around them. The
-- integer versions of lerp in include/ccore/math.h convert through a float and back, which the
-- abstract arithmetic does not describe.
pub mod Base
pub mod Collector
pub mod Config
pub mod Debug
pub mod Exceptions
pub mod Files
pub mod LinkedList
pub mod Log
pub mod Math
pub mod Memory
pub mod Paths
pub mod Pid
pub mod RunLoop
pub mod Strings
pub mod Table
pub mod ThreadPool
