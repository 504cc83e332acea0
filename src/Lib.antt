-- ===== src/Lib.antt =====
-- Verification of the C programs of VitalyVen/smtp-course-work: the key-value server of
-- refs/examples/posix-programming_labs (below: labs/) and the login server of refs/examples/server-2008 (login/).
--
-- The key-value server takes lines from its clients (`=key value`, `?key`, `-key`), runs them on a database and answers.
-- A connection receives into a buffer, from which whole lines are cut; a line is a command; its answer is sent at once,
-- or comes later, from a thread of the database, by a control pipe, and waits in a write buffer until the
-- socket takes it. The login server reads commands from a file and runs a generated state machine on them.
--
-- The files, with the sources that they model (functions keep their names):
--   Buffer      labs/struct_buffer/inc/buffer.h: the receive buffer
--   Stailq      the queue macros of labs/struct_bsd/inc/queue.h, as an interface
--   WrBuffer    labs/struct_wrbuffer/inc/wrbuffer.h: the strings that wait to be sent
--   Kernel, Fd  labs/fd_utils/src/fd_utils.c, over the answers of the kernel
--   WrBufIo     labs/server_lib/src/wrbuf_io.c
--   Telnet      labs/telnet_utils/src/telnet_io.c
--   Db          labs/db_simple (Simple, over the trees of labs/struct_bsd/inc/tree.h as the interface Tree), labs/db_lock
--               (Lock, Hash), labs/db_parallel with labs/req_interface (Parallel; its creation in Parallel.Create)
--   QueueSem    labs/struct_queue_sem/inc/queue_sem.h: the bounded queue of requests
--   QueueCnd    labs/req_queue_cnd: the unbounded queue of requests
--   Cnct        labs/server_lib/src/cnct.c: a connection and the count of the answers that it awaits
--   Cmds        labs/server_lib/src/cmds.c: the commands, over the interface of labs/db_interface
--   CnctIo      labs/server_lib/src/cnct_io.c: reading and answering
--   Poll        labs/server_poll/src/poll_server.c: the slots of the poll server (Poll) and
--               a round of its loop (Round); the life of a slot as a step relation (Owed)
--   Threads     labs/server_thread/src/client_thread.c and thread_server.c: the list of threads, and the server as a step
--               relation of its threads (Steps)
--   Serve       labs/server_dumb/src/dumb_server.c, and the sequential functions of thread_server.c
--   Log         labs/log_lib/src/process.c: lines of a log (Log) and the pipes that they come from (Inputs); redir.c: the
--               redirection of a descriptor (Redir); logger.c: two of them (Logger)
--   Service     labs/srvc_lib/src/pidfile.c and service.c (PidFile), main.c and labs/srvc_runner/src/main.c (Start, Main)
--   Login       login/: the machine (Fsm), its commands (Parse), its state (State) and its loop (Run)
--   Base        shared names, lemmas and the results of C calls; Tests the theorems at concrete inputs
--
-- Conventions. A byte is a number, a C string its bytes without the NUL. A function that can stop the process (a failed
-- assertion, a fault) returns an `Outcome`, and one that calls the kernel takes the list of the kernel's
-- answers and returns a `Call`, which `waits` where the answers end first. An allocation is a flag or a block that
-- the caller of the model chooses, so that both results are covered. `none` stands for -1 and for NULL.
-- Loops recur on the answers, on the data, or on fuel: one round for each byte of a file or string, for each entry of
-- a queue. Each is enough, since a round takes at least one of them. The loop of `pop` in QueueCnd has two rounds, for
-- the second finds a request or the end.
--
-- The lock of the list of threads and the lock of the server's state are in the step relation of Threads.Steps as what
-- they exclude; a step goes from one call that may wait to the next. The holder of the lock of the list that asks for it
-- again waits, or ends the process where the call returns EDEADLK. The link of an entry that `join_threads` has freed
-- reads as anything. A pid is printed with ten digits at most, which
-- are enough for an int.
--
-- Not modelled: the locks of the other parts (each operation is one step there), output and debug messages, signals but
-- for their effect on the loops, option parsing, the loading of libraries, the telnet client, and libraries copied or generated into the repository.
pub mod Base
pub mod Buffer
pub mod Stailq
pub mod WrBuffer
pub mod Kernel
pub mod Fd
pub mod WrBufIo
pub mod Telnet
pub mod Threads
pub mod Db
pub mod Cnct
pub mod Cmds
pub mod CnctIo
pub mod Serve
pub mod Service
pub mod QueueSem
pub mod QueueCnd
pub mod Poll
pub mod Log
pub mod Login
pub mod Tests
