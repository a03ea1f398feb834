-- ===== src/Lib.antt =====
-- The CPU scheduling simulator: its data, its threads and its schedulers.
--
-- The program reads lines of bursts from a file, makes a process of each line, and runs two
-- threads side by side: the scheduler thread takes a process from the ready queue and gives it
-- the CPU for a burst, and the wake-up thread takes a process from the wait queue and lets it do
-- its I/O. A process goes back and forth between the two queues until all its bursts are over.
-- The queues, the counters and the two semaphores are global variables.
--
-- The files:
--   * Base and its children: native numbers, integers, lists, and `Run`, the result of code that
--     may read out of bounds (`fault`) or use up the fuel of the model (`out_of_fuel`).
--   * Time: src/time_t.c. `diff_timespec` and `timespec_add` have their names.
--   * Process: src/process.h, src/process.c, and `burst_line` of src/file.h.
--   * Queue: src/queue.c and src/priority_queue.c, as lists of nodes from front to rear:
--     `enqueue`, `p_enqueue`, `dequeue`, and `is_empty` for `isEmpty`.
--   * Heap: linked nodes in memory, with the macro `Traverse`. Queue.Nodes: the functions of
--     src/queue.c and src/priority_queue.c on such nodes (`enqueue_node`, `p_enqueue_node`,
--     `dequeue_node`), Queue.Unlink: `remove_node_by_pid` on them (`remove_node`), and Queue.Valid:
--     `isValidQueue` and `p_isValidQueue`. The address that
--     `calloc` returns is an argument, and nothing is known of it but that it is free.
--   * LinkedList: src/linkedList.c, which nothing uses, on such nodes.
--   * Buffer: thread_ex.c, an example with a producer and a consumer, as a step relation.
--   * Workers: proc_ex.c, an example with two workers and a condition variable, as a step relation.
--   * Queue.Remove: `remove_node_by_pid`, and `find_process` of schedule_algorithms/thread_op.c,
--     which nothing calls.
--   * Threads: the global variables of main.c as the record `State`, and the operations of
--     schedule_algorithms/thread_op.c. The processes live in a store; a pointer to a process is
--     its number of creation. `clock_gettime` gives the next reading of a sequence.
--   * Sched: what the scheduler files under schedule_algorithms share word by word.
--     `should_terminate` and `process_io` are `_should_terminate` and `_process_io`; `schedular`
--     and `wake_up` are one round of the loops of `schedular_*` and `wakeUp_*`. `ThreadOps` is
--     `thread_op_t`, with the laws that the proofs need of a queue operation.
--   * Batch: `_process_cpu` of fifo/fifo_sched.c and sjf/sjf_sched.c, which are the same.
--   * Fifo, Sjf, Rr, Srtf: the schedulers, each with its queue operations from `*_th.c`; Rr and
--     Srtf have a `_process_cpu` of their own. That of Srtf calls itself for another process when
--     one with less time left is ready (`swap`). Sjf.Order is about the order of the queues of
--     sjf. Sched.Bursts says what `_process_cpu` and `_process_io` do in each branch.
--   * Arrival: `add_arrival_process_*`.
--   * File: `read_burstfile`, `_process_burst_line` and `_process_burst_line_s` of src/file.c, from
--     the tokens of each line, with `atoi` a parameter. Result: `write_result` of src/result.c.
--   * Simulation: the two threads as a sequence of turns. Main: the arrivals, and then the turns.
--   * Interleaved: the two threads of fcfs, sjf and rr step by step. `cpu_step` and `io_step`
--     are the steps of the loops of `schedular_*` and `wakeUp_*`, from one `Point` to the next;
--     Settled and Invariant count a process that a thread holds as being in the queue that it
--     comes from or goes to, and StepPolicy is what a scheduler owes to them. Main.Steps: the
--     arrivals, and then the steps.
--   * Program: `main` of main.c with its arguments, `init_scheduler` of
--     schedule_algorithms/sched_common.c, and `read_burstfile` (in File).
--   * Tests, Main.Tests, Queue.Tests, Srtf.Tests, Program.Tests, LinkedList.Tests,
--     Buffer.Tests, Workers.Tests, Interleaved.Tests and Sjf.Order.Tests: concrete inputs.
--
-- What the model takes for granted: an `int` is an integer without bounds; memory does not run
-- out; the assertions are off, as the Makefile has them with NDEBUG. In Simulation a turn, which
-- is one round of the loop of a thread, is atomic, and the turns of the two threads come in any
-- order. In Interleaved, for fcfs, sjf and rr, a round is cut: the test of the counters,
-- `all_processes_done`, `sem_trywait`, the removal from a queue, the work on the process that a
-- thread holds, the insertion into a queue, `sem_post`, and the code at `final` are steps, each
-- of them atomic, and the steps of the two threads come in any order. Finer cuts are left out:
-- an atomic addition to the global counter that falls between the two readings of one burst
-- would only change the times in the log. The rounds of srtf are not cut, nor is the branch of
-- rr that puts a process back, which is never taken. A thread that has left its loop has turns
-- that do nothing.
--
-- The fuel: the loop of the arrivals makes a round for each line and for each tick until its
-- arrival time, which `rounds_needed` counts. The loop of a time slice has fuel for the quantum
-- and one more. The nested calls of round robin need a depth of one, since the branch that makes
-- them is never taken. Those of srtf need a depth of one more than the remaining time of the
-- process is above the least one in the ready queue (`depth`): each process that takes the CPU has
-- less time left than the one before had when its last tick began. The loops of the two threads
-- have no fuel: they are given their turns. The loops over the nodes of a queue or a list in
-- memory have fuel, and as much as there are nodes is enough. A fair pass of steps has three of each
-- thread, so that a thread comes past all its tests in one pass; twelve passes for each unit of work
-- and sixteen for the way out of the loops are enough (`potential`).
--
-- Not modelled: the splitting of the input file into lines and tokens, which library functions do;
-- messages, and the opening and closing of files; the functions of schedule_algorithms/thread_op.c
-- that nothing calls, but for `find_process`.
pub mod Arrival
pub mod Base
pub mod Batch
pub mod Buffer
pub mod Fifo
pub mod File
pub mod Heap
pub mod Interleaved
pub mod LinkedList
pub mod Main
pub mod Process
pub mod Program
pub mod Queue
pub mod Result
pub mod Rr
pub mod Sched
pub mod Simulation
pub mod Sjf
pub mod Srtf
pub mod Tests
pub mod Threads
pub mod Time
pub mod Workers
