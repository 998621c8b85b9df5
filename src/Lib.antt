-- ===== src/Lib.antt =====
-- numactl: libnuma (masks of nodes and cpus, the lists that name them, distances) and the commands
-- numactl and numastat that use it.
--
-- Parts, and the files that model them:
-- - Bitmask: `struct bitmask` (numa.h) and the `numa_bitmask_*` routines of libnuma.c. A mask is its
--   size and the list of its 64-bit words; a routine that writes returns the mask. Bitmask/Words has
--   the size macros of numaint.h and util.h, Bitmask/Copy `copy_bitmask_to_bitmask`,
--   Bitmask/Nodemask the masks of fixed size (numa.h) with the copies from and to them.
-- - Libnuma: the static variables of libnuma.c once `set_sizes` has run, as a record, with the
--   queries and allocations that depend on them. Libnuma/Laws says what a usable state is.
--   Libnuma/Setup and Libnuma/Constraints have `set_sizes` and what it calls, on the lines and names
--   that it reads and the answers of the system calls.
-- - Text: what the code relies on of the C library's `isspace`, `isalpha`, `toupper`, `strtoul`,
--   `strtol`, `atoi` and `%d`, on strings as lists of bytes (the C locale, 64-bit `unsigned long`).
-- - Parse: `numa_parse_nodestring` and `numa_parse_cpustring` of libnuma.c with `get_nr`. They use
--   the masks, the state and the text functions; `resolve_affinity` is a parameter. Parse/Grammar
--   describes the lists independently.
-- - Hardware: `print_node_cpus` of numactl.c, on the mask that `numa_node_to_cpus` filled.
-- - Util: `memsize`, `policy_name` and `parse_policy` of util.c, with the numbers of numaif.h.
-- - Distance: distance.c. The files under /sys/devices/system/node are a function from node numbers
--   to what reading the file gives.
-- - Policy: the policy of the task and (Policy/Memory) of memory areas, in libnuma.c: `setpol`,
--   `getpol`, `dombind` and the routines around them (Policy/Preferred: preferred nodes). The system
--   calls are an interface, `Kernel`, over a type of worlds; an action takes the task's variables and
--   its world, and ends with a result or in `exit`.
-- - Cpus: `numa_parse_bitmap`, `numa_node_to_cpus` with its cache, `numa_node_of_cpu` and
--   (Cpus/Running) the `numa_run_on_node` routines of libnuma.c. The cpumap files are a function
--   from node numbers, `sched_setaffinity` one from masks.
-- - Shm: shm.c: the range checks, the dump of the pages' nodes, `interleave_next` and `verify_shm`;
--   what the kernel says of a page is a parameter.
--   Shm/Attach has `attach_sysvshm` and `attach_shared`, over interfaces to the calls on segments and
--   on files, Shm/Dump `dump_shm`.
-- - Numactl: `main` of numactl.c. Its variables are two records, Flags and Data; an option is data,
--   with its argument; Numactl/Guards has the helpers that refuse an option, Numactl/Options and
--   Numactl/Commands what is done with each, and the end of `main`, with the routines of Parse, Policy
--   and Shm. Numactl/Spec is an abstract account of which option may stand behind which.
-- - Sysfs: sysfs.c, a file of node numbers that is read into a mask.
-- - Affinity: affinity.c, `resolve_affinity` with its handlers. The files and links of /sys, `stat`,
--   `regexec`, `sscanf` and what finds the interface to an address are an interface, Devices.
--   Affinity/Lists puts it in the place of the parameter of Parse.
-- - Numastat: the hash table of numastat.c. Numastat/Table has the table of cells (`struct vtab`) with
--   the assignments, flags and the sorting of rows, Numastat/Selection the selection sort, which the
--   code has twice, Numastat/Display the printing in sections. Numastat/Pids has the list of
--   processes, Numastat/Nodes the map of nodes. Numastat/Maps reads a `numa_maps` file, and
--   Numastat/Process fills and shows the tables of processes with it; Numastat/SystemFile reads the
--   files of the nodes, and fills and shows the tables of the system in its child Shows: both hand
--   what they read to operations that are parameters, so that the same reading fills a table and
--   writes a list. Numastat/Commands has the options and `main`. Arithmetic on `double` is an
--   interface, and what the files hold are functions.
-- Base has the shared helpers: Boolean tests, lists by native index, bits of words, C's signed
-- integers and loops. Tests has the theorems at concrete inputs.
--
-- Bounds and fuel: sizes of masks are below 2^31, since the code counts bits in `int`s. The loops of
-- the parsers run on one unit of fuel more than the string has characters: each round reads one at
-- least. The loop over the files of distances has no bound in the code, which goes on while there
-- are files; its fuel is an argument, and more than the highest node's number, plus one, is enough
-- where the files end there. The loop of `numa_parse_bitmap` runs on one unit more than the
-- newline's index: each round goes back in the line. The walks of `interleave_next` and of the hash
-- table take fuel too: more than twice the number of possible nodes, and twice the size of the
-- table, are enough. The sections of `display_table` take one unit more than the table has columns:
-- each has a column at least. `set_nodemask_size` doubles 16 at most 11 times, `set_numa_max_cpu`
-- 4096 at most 8 times; `read_mask` has one unit more than the line has characters, since each round
-- reads one, `dump_shm` one more than the region has bytes, and `sysfs_node_read` one more than the
-- file has characters. A search in numastat's hash table of names has as many units as the table has
-- entries: one that needs more goes round a full table without an end. All other loops count to a
-- size.
--
-- Not modelled: memory that runs out (the library ends the process or returns NULL; only the growth
-- of numastat's list of processes has it), the text of warnings, system calls and the netlink
-- messages of `find_route`, the versions of routines for `nodemask_t` (but for its copies), what
-- numactl prints but for the cpus of a node, benchmarks and the build.
pub mod Affinity
pub mod Base
pub mod Bitmask
pub mod Cpus
pub mod Distance
pub mod Hardware
pub mod Libnuma
pub mod Numactl
pub mod Numastat
pub mod Parse
pub mod Policy
pub mod Shm
pub mod Sysfs
pub mod Tests
pub mod Text
pub mod Util
