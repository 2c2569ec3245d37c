-- ===== src/Lib.antt =====
-- SlowScanner: a scanner of another process's memory, for Windows.
--
-- The program. A scanner lists the regions of the process in an address range, reads each into a
-- dump file that is mapped into memory, and searches it for elements of one, two, four or eight
-- bytes (`first_scan`). Later scans list and read the regions again and narrow down what an earlier
-- scan has found (`next_scan`). A region is a `dumpable`: its bytes are a span of the dump file, an
-- `m_file`, which grows in pages and hands out the bytes at its end through its newest mapping; the
-- region holds on to that mapping.
--
-- Which file models what:
--   Words: unsigned 64-bit arithmetic, and `memcpy` between bytes and a `uint64_t`;
--   World: the state that all parts share (the file, its bytes, a clock), the calls of Windows and
--     mio as parameters (`Os`), and the monad of steps, whose `none` is undefined behaviour;
--   File: class `m_file` of dumpable/dumpable.hpp and dumpable/src/dumpable.cpp. `m_file::write` is
--     `write`, with `reserve` for its first `if` and `put_active` for the rest. The modules named
--     Steady (in File, Region, Scanner, Scanner/Threads, Scanner/Next and Session) follow what no
--     operation changes of the file, through the rules of `File.Steady.Keeps`;
--   Dump: class `dumpable` of dumpable/dumpable.hpp;
--   Region: class `memory_region` of scanner/memory_region.hpp and scanner/memory_region.cpp;
--   Scan: `scan_type`, `scan_entry` and class `scan` of scanner/scan.hpp;
--   Compare: `element_type`, `element_size` and `make_comparator` of slow_scanner.h;
--   Scanner: `get_regions` and `first_scan` of src/slow_scanner.cpp, with its tasks run as a whole;
--   Scanner/Threads: `first_scan` with the steps of its tasks interleaved: a task makes room in the
--     dump file, reads the process, and searches, and other tasks' steps come between any two of
--     these. `first_scan_threads` takes the order of the steps, `collect` is the loop of `fut.get()`;
--   Scanner/Next: `next_scan` of src/slow_scanner.cpp;
--     its loop is `next_loop`, the round of a region `match_region`, and its two branches `narrow`;
--   Maps: class `active_map` of dumpable/dumpable.hpp, as steps of the objects that live;
--   Pool: class `thread_pool` of thread_pool.hpp, as the relation `Step` between its states;
--   Session: class `slow_scanner` of slow_scanner.h and singleton.hpp: the constructor, the one
--     instance, and a program's calls of `attach_to`, `first_scan` and `next_scan`, through
--     `perform`; `Session.Reached.Reached` is the relation of the states that calls lead to;
--   Tests: the theorems at concrete inputs. Prelude: shared names, list functions and lemmas.
--
-- State. A pointer into a mapping is a file position, and all mappings show the same bytes
-- (`World.cells`). `m_file::write` faults when what it writes leaves the view of its mapping; what
-- `ReadProcessMemory` writes, and every read of a scan, when it leaves the span of its region, which
-- lies in such a view, or goes through the null pointer of a region without one (`can_read`). The
-- loops of `next_scan` compute their results from the bytes, and `narrow_reads` says whether all their
-- reads were inside; if not, the round is a fault.
-- Every call of the environment takes the time of the call, so no two calls need answer alike: the
-- scanned process may change its memory at any moment. `FloatFormat` stands for the arithmetic of `float`
-- and `double`.
--
-- Fuel. `get_regions` has a round for each byte of the range and one more, and each round moves on
-- by a byte at least. The loop of `next_scan` over an overlap has a round for each byte and one
-- more. A loop of `get_regions` that runs out of fuel is `none`, as a fault is; where `VirtualQueryEx`
-- always moves on, this never happens (`Scanner.Regions.get_regions-Listed`).
--
-- Hypotheses. `MapsExactly`: mio maps the range it was asked for. `CanGrow` and `CanMap`: the disk
-- has room, and mappings can be made. `QueryCovers` and `QueriesPages`: what `VirtualQueryEx`
-- documents of its answers. `ReadsWithin`: `ReadProcessMemory` writes no more than was asked for.
-- `CreatesEmpty`: the dump file can be created, and is empty. `Serves` is all of these together.
-- `IsFair`: each task has the three turns that it needs at most. `IsMapped`: the current mapping of
-- the file reaches to its end. `IsLean` and `HasSpace`: no size reaches 2 ^ 64. `IsRange`: a range
-- that starts at a page, up to 2 ^ 47, as the user's part of an address space is.
--
-- Not modelled: mio.hpp, a third-party library; the counts of the shared pointers to a mapping, since
-- a region keeps what it uses and so the views of `World` stay mapped; what lies inside a step of a
-- task (`first_scan_threads` takes the order of the steps as a parameter, `Scanner.Threads.Runs.Run`
-- says which orders the pool comes to, and each step is atomic); the destructor of the static instance.
mod Prelude
pub mod Words
pub mod World
pub mod File
pub mod Dump
pub mod Region
pub mod Scan
pub mod Compare
pub mod Scanner
pub mod Session
pub mod Maps
pub mod Pool
mod Tests
