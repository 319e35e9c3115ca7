-- ===== src/Lib.antt =====
-- The C library of posix-next (lib/posix): POSIX interfaces on the objects of a real-time kernel.
--
-- The parts that are modelled keep state of their own: the environment of the process, objects of
-- pools behind integer handles (barriers, readers-writer locks, spin locks), semaphores, and lists of
-- named objects that are opened, closed and unlinked (semaphores, message queues, shared memory).
-- They meet in the kernel: a barrier waits on a condition variable, the locks are built from kernel
-- semaphores, a message queue wraps a kernel queue, a timer starts a thread with the attributes of
-- threads. Signals and priorities are converted between the numbers of the C library and those of the
-- kernel. The applications' calls are the only other interaction. Suboptions, strings and times are
-- functions on values.
--
-- Files, and the code that they model:
--   Base        shared types: tests on numbers, lists measured by native numbers, errors, C strings
--   Kernel      what the code relies on of the kernel: timeouts and counting semaphores (SemOps)
--   Env         lib/posix/options/shared/env_common.c: findenv, z_getenv, z_getenv_r, z_setenv and
--               z_unsetenv under their own names; the state is `environ` and `allocated`
--   Barrier     lib/posix/options/barriers/barrier.c: pthread_barrier_wait is wait_arrive up to its
--               first wait and wait_resume after each wake-up; barrier_init, barrier_destroy, and in
--               Barrier/Attr the attributes
--   Rwlock      lib/posix/options/rw_locks/rwlock.c: read_lock_acquire, write_lock_acquire (whose
--               second wait is write_lock_drain), pthread_rwlock_X as rwlock_X; Rwlock/Spec has the
--               abstract lock, Rwlock/Attr the attributes
--   Semaphore   lib/posix/options/semaphores/semaphore.c: the unnamed semaphores, and in
--               Semaphore/Named the list behind sem_open, sem_unlink and sem_close
--   Mqueue      lib/posix/options/message_passing/mqueue.c: mq_open, mq_close and mq_unlink, in
--               Mqueue/Transfer sending and receiving, in Mqueue/Events attributes and notification
--   Spinlock    lib/posix/options/spin_locks/spinlock.c, with the search for a handle of
--               lib/posix/options/shared/posix_pool.c: pthread_spin_X as spin_X
--   Subopt      lib/posix/c_lib_ext/getsubopt.c
--   Strings     lib/posix/c_lib_ext/strnlen.c and lib/posix/c_lib_ext/stpcpy.c; Strings/Comparing has
--               lib/posix/c_lib_ext/strncasecmp.c and strcasecmp.c, Strings/Tokens
--               lib/posix/c_lang_support_r/strtok_r.c
--   Shm         lib/posix/options/shared_memory_objects/shm.c: the list of objects behind shm_open and
--               shm_unlink, and in Shm/Access the operations on a descriptor; the close of a descriptor is
--               what the descriptor table does, which calls shm_close for the last one
--   Signal      lib/posix/options/signals/signal.c: the signal sets; Signal/Mapping and
--               Signal/Remapping lib/posix/options/shared/z_sig_set.c, Signal/Actions sigaction,
--               Signal/Shim z_sig_shim, Signal/Delivery sending and waiting, with
--               lib/posix/options/realtime_signals/rtsig.c, Signal/Masks the mask of a thread, with
--               pthread_sigmask of lib/posix/options/threads_base/pthread.c
--   Time        lib/posix/c_lang_support_r/gmtime_r.c, whose local variables are functions of that
--               name with _of, and localtime_r.c
--   Timer       lib/posix/options/timers/timer.c under its own names; zephyr_thread_wrapper is cut at
--               its wait into thread_starts and thread_wakes
--   Passwd      lib/posix/options/system_database_r/system_database_priv.c: z_getpw_r on the pieces that
--               fgets reads; Passwd/Lines has the lines of a file; Passwd/Groups has z_getgr_r
--   Sched       lib/posix/options/shared/pthread_priority.c and posix_internal.h, and
--               lib/posix/options/thread_priority_scheduling/pthread_sched.c; Sched/Attr has the
--               attributes of lib/posix/options/threads_base/pthread.c up to pthread_create
--   Strfmon     lib/posix/c_lib_ext/strfmon.c: strfmon_parse_format, in Strfmon/Amount strfmon_one, in
--               Strfmon/Printing the loop of strfmon; Strfmon/Layout has the text of an amount and
--               Strfmon/Directives the conversions as they are written
--   Netdb       lib/posix/options/networking/netdb_ent.c: the open files, in Netdb/Columns the lines,
--               in Netdb/Queries and Netdb/Functions the functions of netdb.h; Netdb/Services has the
--               lines of a file of services
--   Inet        lib/posix/options/networking/inet_addr.c: scan_address and pack_bytes are its two loops
--
-- A function that stores an error number and returns -1 gives `err`, or a `fails` where a call can
-- also wait for ever. What the kernel, the allocator and the C library return is an argument of the
-- definitions that use it (SemOps, MsgqOps, Heap, and plain arguments); the instances that the tests
-- use are a counting semaphore (Kernel/Counting) and a list. A call under a lock is one step; the
-- barrier, the unlock of a readers-writer lock, the turns of a spin lock and the thread of a timer are
-- cut where the code lets other threads run. Sizes and 32-bit counts wrap around as written out in the
-- definitions; the count of a named semaphore stops at the assertion of sem_open, and the year of a
-- time is cut to an int. The loops recurse on their lists or counts, and a wait that does not end is
-- a value. Fuel is used in three places, and is shown to be enough: the calls of a program that takes
-- tokens, the digits of a 64-bit number (20), and the loop of strfmon (one more than the bytes of the
-- format).
--
-- Not modelled: copies of other projects' code (fnmatch.c, zephyr_getopt.c); wrappers of the kernel's
-- threads, files and sockets, whose code is not in this repository; headers, tables of configuration
-- values, tests and samples. Clocks and mutexes have logic of their own and are not covered yet. The
-- arithmetic of doubles in strfmon_one is an argument, and the static results of netdb_ent.c are values.
pub mod Base
pub mod Kernel
pub mod Env
pub mod Barrier
pub mod Rwlock
pub mod Semaphore
pub mod Mqueue
pub mod Spinlock
pub mod Subopt
pub mod Strings
pub mod Shm
pub mod Signal
pub mod Time
pub mod Sched
pub mod Timer
pub mod Passwd
pub mod Strfmon
pub mod Netdb
pub mod Inet
