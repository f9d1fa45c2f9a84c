-- ===== src/Lib.antt =====
-- ohmylib, a library of C containers and helpers for Linux programs.
--
-- The parts of the library do not call each other: a program links what it needs, and the structs
-- are opaque to it. Each part has a module here, over the shared helpers of Prelude (lists, words,
-- decimal numerals, integers, memory). The programs under examples and posix have modules of their
-- own: those of Examples call the models of the library, and the clients and servers of posix meet
-- in Exchange.
--
-- Queue, for lib/queue.c and includes/queue.h, a ring buffer of messages of one size that threads
-- share. `Queue` of Queue/State.antt is struct queue_s, and `Shared` joins it with the memory
-- that its pointers refer to, by byte addresses. Queue/Create.antt has queue_setup,
-- queue_create_static, queue_create and queue_destroy, Queue/Status.antt the three status
-- functions, Queue/Deadline.antt queue_ts_add, and Queue/Transfer.antt queue_send, queue_recv
-- and queue_empty_wait. A call takes the time that clock_gettime reads and the list of the
-- returns of pthread_cond_timedwait, each with the state that the other threads left; a call
-- without enough returns has not ended, which is a result of its own. The pthread calls are
-- recorded in order. `Step` of Queue/History.antt is one successful transfer by some thread.
-- Dictionary, for lib/dictionary.c and includes/dictionary.h, a table of pairs of strings. Its
-- `Dictionary` is struct dictionary_s, with the array of entries as a list; the functions of
-- Dictionary/Operations.antt carry the names of the code, and Dictionary/Table.antt and
-- Dictionary/Hash.antt have the searches and the hash. The outcome of each allocation is an
-- argument. Strings are lists of bytes other than 0.
-- Vector, for lib/cvector.c, arrays of pointers that end by a NULL, as lists of cells.
-- Lfsr, for lib/lfsr.c, the shift register that fills a buffer.
-- Substring, for lib/cstring.c and the macro iter_substr of includes/cstring.h. `iter_substr` is
-- given the number of rounds; two more than the length of the text are enough.
-- Timestamp, for lib/timestamp.c, over the record `Timers` of the calls of the POSIX timer, which
-- are parameters; `CountsDown` of Timestamp/Stopwatch.antt is what is assumed of them.
-- Printlog, for lib/printlog.c, with each dump as the list of what it reads and prints. `dump_loop`
-- and `hexdump_loop` are given as many rounds as the block has bytes, one for each 16 or fewer.
-- Printlog/Levels.antt has the logging macros of includes/printlog.h.
-- Sysreg, for lib/sysreg.c and includes/sysreg.h, over the contents of the files of the kernel.
-- TimerCommand, for posix/timer/timer.c, a program that arms, pauses and resumes a timer by keys;
-- a key comes with the outcome of the call on the timer that it leads to. Terminal has its two
-- settings of the terminal, over the flags and the least number of bytes of `struct termios`;
-- examples/timestamp/timestamp.c makes the same.
-- TcpServer, UdpServer, TcpClient and UdpClient, for the programs of the same names under posix,
-- over lists of the outcomes of the system calls, one for each round of their loops; a loop ends
-- where its list does. Network has what they share: the calls on sockets as a list of what was
-- opened and closed, and what was sent. Peers and Closing are about all four, and Exchange about
-- the UDP client and server over a network that loses nothing.
-- I2c, for posix/i2cdev/i2cdev.c, by the messages that are handed to ioctl, which is a parameter.
-- Gpiod, for posix/gpiod/gpiod.c, over the outcomes of the calls of libgpiod for each argument;
-- handing it NULL as a line is not defined, and ends the model.
-- Pipe, for posix/pipe/source.c and posix/pipe/sink.c, over an input up to its end; the sink needs
-- one round more than its input has bytes.
-- Memstream, for posix/memstream/memstream.c, over the returns of fwrite.
-- ErrorPtr, for includes/error_ptr.h, over words of 64 bits, and Ctypes, for the macros of
-- includes/ctypes.h that compute, over words of 32 bits.
-- Examples, for the programs under examples: each has a module of its name, and Commas is for
-- comma_separated_list and Multithreaded for queue_multithreaded. The loops that fill are over the
-- outcomes of calloc and of the waits, and the stopwatch of timestamp is over keys and `Ages`, the
-- timers of Examples/Timestamp/Stopwatch.antt; the loop that empties a vector needs one round more
-- than there are items. The queue example has one thread, and the queue of queue_create. In
-- Multithreaded, `Turn` is one step of main or of a reader, up to where a call on the queue
-- returns or starts to wait, and `Runs` any sequence of them; the number of elements is a
-- parameter. `RunLocks` says that the call of each turn holds the mutex, which makes it whole.
-- The model ends at the call of queue_empty_wait, which releases a mutex that main does not hold.
-- Initcalls, for posix/module, over the registered functions in the order of linking; its Program
-- is main.c with the two modules.
--
-- Numbers are natural numbers, and where the code keeps them in 32 or 64 bits the reduction is
-- written out; `int` and `long` are the integers of Prelude/Int.antt. Pointers into the queue's
-- buffer are not reduced: a buffer does not reach the end of the address space. `char` is signed
-- and `size_t` has 64 bits, as on x86-64.
--
-- Not modelled: the cancellation state of the waiting thread, the initialisation of the mutex and
-- of the conditions, what other threads do between the unlock and the last test of
-- queue_empty_wait, the static buffer of the queue example, the macros of includes/ctypes.h that
-- set attributes, what the multithreaded example does from its call of queue_empty_wait on, the
-- copy of the kernel's list.h, and the headers of includes/sort.
pub mod Prelude
pub mod Queue
pub mod Dictionary
pub mod Vector
pub mod Lfsr
pub mod Substring
pub mod Timestamp
pub mod Printlog
pub mod Sysreg
pub mod Terminal
pub mod TimerCommand
pub mod Network
pub mod TcpServer
pub mod TcpClient
pub mod UdpServer
pub mod UdpClient
pub mod Peers
pub mod Exchange
pub mod Closing
pub mod Examples
pub mod I2c
pub mod Memstream
pub mod Ctypes
pub mod Pipe
pub mod Gpiod
pub mod ErrorPtr
pub mod Initcalls
