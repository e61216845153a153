-- ===== src/Lib.antt =====
-- A verification library of three C programs: a small shell (A1), a producer-consumer program
-- with threads (A2) and a client-server program (A3).
--
-- A1/pcb.c is Shell/Pcb.antt and the files below it. The process table is a doubly linked list
-- in memory: Shell/Heap.antt has the memory (addresses to `struct process` nodes) and the
-- commands on it, with a fault for every access through NULL or a freed node. `remove_process`,
-- `find_proc`, `add_process` and `table_cleanup` are commands of the same names; the loops run
-- on one round more than the table has processes, which is enough since each round moves on by
-- one node.
-- A2/fifo.c and A3/fifo.c are Fifo.antt: the circular array, generic in the entry, with
-- Fifo/Works.antt and Fifo/Transactions.antt for the two versions of `dequeue`. Fifo/Spec.antt
-- is the queue that it stands for.
-- A1/command.c is Shell/Command.antt: the commands that signal a process (`suspend_cb`,
-- `resume_cb`, `kill_cb`, `wait_cb`, `sleep_cb`), over the same memory. They use the process
-- table only through `find_proc`; what they do outside the shell is a list of events, and what
-- the system calls answer is a parameter (`Answers`). Common/Atoi.antt is `atoi`, as the C
-- library documents it.
-- A1/shell379.c is in several files: Shell/Line.antt has `read_input`, `count_args` and the
-- calls of `strtok`, over the bytes that `getchar` returns; Shell/Args.antt has the arguments
-- that name files and the index of a command (`redirections` is the beginning of `run_shell_cmd`
-- and of `run_cmd`); Shell/Shutdown.antt has `shell_sigint`, and `exit_cb` of A1/command.c, over
-- the process table. Shell/Run.antt is `run_shell_cmd`, with the array of the callbacks, and
-- `run_cmd` on both sides of its `fork`; `jobs_cb` is Shell/Command/Jobs.antt, with
-- `trim_whtspce` in Shell/Command/JobLine.antt; Shell/Main.antt is one round of the loop of
-- `main`; Shell/Life.antt is `main` with its loop, where `proc_exit`, the handler of SIGCHLD,
-- may run between two rounds. Shell/Errors.antt has the error texts and CHECK_CMD_ERR of
-- A1/shell_error.h. `fill` has as many rounds as the buffer takes bytes, which is where the code
-- leaves its loop; `deep_sleep` runs on the list of the answers of `sleep`, and is `none` where
-- they are used up.
-- A2/prodcon.c is Prodcon.antt: the arguments of `main` and the name of the log file
-- (Prodcon/Startup.antt, with Common/Strcat.antt for `strcat`), `check_input`
-- (Prodcon/Input.antt), `print_message` without its time (Prodcon/Message.antt), `print_summary`
-- without the elapsed time and the rate (Prodcon/Summary.antt), the producer in `main` and
-- `consume` as step relations with one step for each synchronised action (Prodcon/Threads.antt),
-- and the program with one producer and `nthreads` consumers, interleaved in any order
-- (Prodcon/System.antt). The queue between the threads is the one of Fifo.antt. That a mutex
-- excludes and a condition variable wakes, which pthreads document, is built into the steps
-- `lock`, `wait`, `wake` and `Signal`; failures of pthread calls end the program and are left
-- out.
-- A2/tands.c and its copy A3/tands.c are Tands.antt: `Trans` and `Sleep`, with overflow and
-- division by zero as `none`.
--
-- A3/server.c is Server.antt, with its variables in one record. Server/Receive.antt is
-- `receive_message`, from the bytes that `read` returns to the call of `enqueue`;
-- Server/Handler.antt is `connection_handler`; Server/Print.antt is what the two and
-- `print_summary` write to the output file, with the times as natural numbers and without the
-- rate. Server/Pool.antt is the whole program as a step relation: the main thread and any number
-- of threads of the pool, interleaved in any order, one step for each critical section of
-- `fifo_mutex`, with the condition variable as pthreads document it (a parameter says whether a
-- wait may end without a signal). The queue is that of Fifo/Transactions.antt, which
-- Server/Pool/Invariant.antt uses through `Holds`; Server/Table.antt is the invariant of the
-- table of clients. Server/Loop.antt is the loop of `main` over the ready sockets, on as many
-- rounds as a set of descriptors has places, which `max_fd` stays below; Server/Start.antt is
-- what `main` does in front of it, with `setup_server`.
-- A3/client.c is Client.antt: `check_input` (Client/Input.antt) and the loop of `main` over the
-- lines that `fgets` returns (Client/Session.antt), where what the system answers for a line is
-- an argument (`Answers`); Client/Main.antt is `main` as a whole, with what the system answers
-- in front of the loop in `Setup`. Common/Strtol.antt is `strtol` with base 0, as the C library
-- documents it, and Common/Htons.antt is `htons`. Exchange.antt puts client and server together:
-- the bytes that one sends are those that the other reads. Common/Decimal.antt is `%d` of
-- `printf`, with ten rounds for the digits of an `int`; a number is taken to fit an `int` where
-- it is printed.
--
-- Where C leaves the behaviour undefined, a function here is `none` or a fault, and a step relation
-- has no step.
--
-- Not modelled: `fork`, `dup2` and `exec` in A1/shell379.c, which are system calls (what they
-- answer is an argument), that the SIGCHLD handler may interrupt a round of the shell,
-- `printlist` of A1/pcb.c, which nothing calls, and the sockets, `select`, the timer and the
-- clock of A3, which are system calls. A transaction that a thread has not dequeued (after a
-- wait that ended without a signal) is a state of its own, `garbage`, without further steps.
pub mod Common
pub mod Fifo
pub mod Shell
pub mod Tands
pub mod Prodcon
pub mod Server
pub mod Client
pub mod Exchange
