-- ===== src/Lib.antt =====
-- Models and proofs for the C programs of this repository, which belong to a course on systems
-- programming: small utilities, and programs about threads, memory and processes. The programs do
-- not call one another; most modules below stand for one program each, over a shared prelude. A
-- module's own file has the state and the operations, its children the lemmas and theorems, and
-- Tests the examples.
--
-- Prelude: names of the libraries, Boolean tests, lists under native indices, integers, families
-- indexed by thread. Numbers are unbounded; where a C type wraps round (`u_int32_t` in wzip, the
-- sums of threads-bugs) that is written out, and otherwise a file says which values are covered.
--
-- Threads (concurrency/). A thread's position in its C function is a constructor, and a relation
-- Step lets one thread make one move; what holds in every reachable state is shown by induction on
-- the steps. Mutexes, condition variables and semaphores behave as POSIX says, with any waiter
-- woken by a signal.
--   Buffer            threads-cv/main-two-cvs-while.c (do_fill, do_get, the same in all four
--                     programs), pc-header.h, main-header.h (ensure)
--   ProducerConsumer  threads-cv/main-two-cvs-while.c, main-one-cv-while.c, main-two-cvs-if.c
--                     (producer, consumer) and main-common.c (main). Credits, Streams and Tally
--                     hold of every state of main-two-cvs-while.c: wakeups, the ends of the
--                     streams, and the values. Ranking has the measure for its termination.
--   ExtraUnlock       threads-cv/main-two-cvs-while-extra-unlock.c (producer, consumer)
--   Options           threads-cv/main-common.c (the options of main)
--   Pauses            threads-cv/main-header.h (parse_pause_string, the trace and
--                     the pauses)
--   ReaderWriter      threads-sema/reader-writer.c and reader-writer-nostarve.c
--   Exercises         threads-sema/fork-join.c, rendezvous.c and threads-api/main-signal.c
--   Barrier           threads-sema/barrier.c, a call taken whole; and, in Threads, the children one
--                     access of the shared state at a time
--   VectorAdd         threads-bugs/vector-deadlock.c, vector-global-order.c,
--                     vector-avoid-hold-and-wait.c (vector_add) and main-common.c (worker, main
--                     and its options); Owners, Progress and Guarded are for any such threads
--   NoLock            threads-bugs/vector-nolock.c (fetch_and_add, vector_add)
--   TryWait           threads-bugs/vector-try-wait.c (vector_add)
--   TwoMutexes        threads-api/main-deadlock.c and main-deadlock-global.c (worker, main), over
--                     the actions of VectorAdd
--   Balance           threads-api/main-race.c (worker, main)
--   Synchronizer      threads-api/main-signal-cv.c (signal_init, signal_done, signal_wait, worker,
--                     main)
--   ApproxCounter     threads-locks/apprxcntr.c (init, update, get)
--   ConcQueue         threads-locks/concqueue.h (Queue_Init, Queue_Enqueue, Queue_Dequeue)
--   ConcList          threads-locks/concllist.h and conchsh.h (List_*, Hash_*)
--
-- Utilities (ostep-projects/initial-utilities/). `fopen` is a parameter that gives the bytes of a
-- file or nothing.
--   Wzip              wzip/wzip.c: each function under its name in snake case (printToken is
--                     print_token, readlines is readlines), and main
--   TestByteout       wzip/tests/utest/test_byteout.c
--   Stdio             what wcat and wgrep use of the C library
--   Wcat              wcat/wcat.c (main)
--   Wgrep             wgrep/wgrep.c (main)
--
-- Processes.
--   PingPong          directexec/cntxtsw/cntxtsw.c (main, the two pipes)
--   Fork              process_api/: callingfork, callingforkandwait, callexec, callfork2,
--                     rederiction/redirection.c and fkfile (main)
--   Chat              ostep-projects/simpleTCP/TCPclient.c, TCPserver.c (chatfun, main), common.h
--                     (MAX)
--
-- Others.
--   Vector            datastructures/vector/src/vector.c
--   BinSearch         process_api/callexec2/callexec2.c (readints, cmpfunc, binsearch, main)
--   Cdecl             cdecl/src/main.c (the stack, istype, classifystring, main)
--   Memory            memory/null, memory/pagingex0, memory/addrtransl, process/vmemman (main)
--   Setjmp            process/setjmp_vars/setjmp_vars.c
--   Environ           process/environment/environ.c
--   ShowBytes         prstrexec/byteordering/showbytes.c
--   Shell             ostep-projects/process-shell/src/main.c (the arguments of a line;
--                     indexpath and main)
--   Segments          memory/realtranslation/src/vmseg.c (main, for any address)
--
-- Loops are structural where they can be. Fuel: in Wzip a file of n bytes is read in n + 1 rounds,
-- as a round takes a line of one byte at least; the loop over the files has its fuel as an
-- argument, and the theorems say how much is enough. In Wcat a file has n + 1 rounds for the same
-- reason. In BinSearch n rounds are enough for n values, in TestByteout 8 rounds for a byte, and in
-- Chat as many rounds as the chat has; Exercises goes through all runs of at most 13 steps, and no
-- run is longer. In each case a theorem has the result itself, not only what it is if there is one.
--
-- Not modelled: the effect of sleeping; messages on stderr; the output at the end of the programs
-- of threads-cv; the wrappers around pthread calls (common_threads.h); stat.c and measure.c, which
-- only call the operating system, and system.h, a copy of a header of GNU coreutils;
-- test_proclines.c, which calls functions that are nowhere; wunzip.c and mutex-nostarve.c, which
-- have no code.
pub mod Prelude
pub mod Wzip
pub mod Buffer
pub mod ProducerConsumer
pub mod Vector
pub mod ReaderWriter
pub mod VectorAdd
pub mod BinSearch
pub mod ApproxCounter
pub mod ConcQueue
pub mod ConcList
pub mod Stdio
pub mod Wcat
pub mod Wgrep
pub mod Cdecl
pub mod Segments
pub mod Barrier
pub mod Pauses
pub mod Shell
pub mod ShowBytes
pub mod TwoMutexes
pub mod Synchronizer
pub mod PingPong
pub mod Fork
pub mod Chat
pub mod NoLock
pub mod TryWait
pub mod ExtraUnlock
pub mod Balance
pub mod Options
pub mod TestByteout
pub mod Exercises
pub mod Setjmp
pub mod Environ
pub mod Memory
