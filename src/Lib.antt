-- ===== src/Lib.antt =====
-- Verification of the lab programs. They are separate programs; the folders here follow them.
--
-- Chat, the chat servers of section-07/lab/lab_4. server_poll.c and server_select.c are one program
-- twice: an array `clients` of three slots, a main loop that waits for descriptors, accepts one
-- connection and reads from the clients that have data. They differ in the set they wait on,
-- `pfds` for poll, `allset` and `maxfd` for select.
--   Chat/Types, Client, Message   client_t, addr_to_str, send_msg, broadcast_msg, exit_handler, and
--                                 what is done with the data received: /name, messages, the cooldown
--   Chat/Poll, Chat/Select        start, accept, read and the loop over the clients of each server
--   Chat/Slots, Invariant         the array of clients and what keeps it valid
--   Chat/Delivery, Conversation   who is sent what
--   Chat/Lines, Bounds, Handling  texts as bytes up to a zero, their lengths, the two buffers
--   Chat/Cooldown                 the limit on messages
--   Chat/Orderly, Poll/...        what the loop keeps, the branches of accepting, and whole runs
--   Chat/Mirror/...               the two servers side by side, by iteration and by run
--   Chat/Tests, Examples, Runs    inputs and runs
-- A send is a call in a trace. What poll and select report, accept's result, the bytes read, the
-- time, inet_ntop and ntohs, and the contents of memory before it is written are arguments; the
-- time of a client that has not spoken is such memory, of either sign, and only an overflow of
-- `now - last_msg_time` is left out, which takes a value near the least of 64 bits. A write
-- past a buffer is a Fault: what is sent is the text received behind a name and an
-- address, in `send_buf[4096]`, so the theorems on the loop ask for reads of at most 4062 bytes
-- (`max_text`).
--
-- Led, section-08/lab/led_device. Led/Device is my_init, my_exit and the GPIO setup of led_device.c,
-- with the error labels as functions that fall through; the kernel's answers are arguments and its
-- calls a trace, which Device/Resources reads as taking and giving back. Led/Files is the read and
-- write operations; copy_from_user's bytes and simple_read_from_buffer are arguments, the pins a
-- function with the laws of reading back what was set. Led/Control is led_control.c, whose input is
-- what the button's device answers; Control/Trail is the light that it moves, Control/Lights what
-- the driver makes of what it writes.
--
-- Turns, section-05/lab/lab_2.c: the loops of producer and consumer as steps on semaphores and
-- value; the increment is a read and a write, so that another process may come between them.
-- Turns/Order says whose turn it is, Turns/Runs has runs. An unbounded integer stands for `int`,
-- since each turn counts by five only. They start when the semaphores are there. Turns/Shutdown is
-- the whole program around them: shm_open and mmap with their failures, the calls of sem_init in
-- their order, and the handler of SIGINT, which may come at any time; a call that POSIX leaves
-- undefined is no step, so that a run ends there, and the name SHM_NAME is taken to be free at
-- first. Shutdown/Settled is its invariant, Shutdown/Handler about the handler, Shutdown/Loops and
-- Shutdown/Progress about the loops inside it.
--
-- Counter, section-04/lab/lab_2.c: two threads that count under a mutex, in the same way, with the
-- number of rounds a parameter (1000000 in the source, far below what `long` holds). Counter/Total
-- has the invariant, Counter/Ends the results, Counter/Runs runs.
--
-- LostUpdate, CondVar and LockOrder, lab_1.c, lab_4.c and lab_5.c of section-04/lab, in the same
-- way: the counter without a mutex; a producer and a consumer with a condition variable, whose waits
-- may end unasked; two threads with two mutexes and a third that watches the counter. Sleeps are
-- left out: any thread that can go on may be the next. LostUpdate/Lost, LostUpdate/Least,
-- CondVar/Order and LockOrder/Progress have the invariants, LostUpdate/Results what can be printed,
-- Runs below each has runs.
--
-- Family, section-03/lab/lab_1.c: a process, its child and its grandchild as a step relation, a step
-- being a round of sleep_with_print or what stands between the loops. Standard output is a terminal,
-- so that each line is out at once; with a file, exec would drop lines. Family/Prints says what a
-- process has printed where it stands, Orderly and Lines are about the states of a run, Ends about
-- its end. Kill, lab_2.c, is the race of a child's message and the signal that kills it.
--
-- Reentrancy, section-04/lab/lab_3.c: both programs that the file can be compiled to, with a buffer
-- for each thread and with one static buffer. The sleep in get_message is where the other thread may
-- come between the writing of a buffer and the printing. Reentrancy/Messages has what no run leaves,
-- Reentrancy/Ends the texts that are printed.
--
-- Pipe, section-05/lab/pipe: pipe.c and pipe_2.c as one step relation, a step being a system call of
-- the parent or of the child, with the ends that each has open; section-06/lab/lab_3.c is pipe_2.c
-- again. Pipe/Orderly and Ends have the invariant and the number of steps left, Pipe/Result how each
-- program ends.
--
-- Popen, section-05/lab/pipe/popen.c: the loop on the stream that popen gives, on fuel; one more
-- than the bytes of the stream is enough.
--
-- Echo, section-07/lab: the echo over TCP in lab_1/server.c and client.c and over UDP in
-- lab_3/udp_server.c and udp_client.c. Echo/Setup is what the clients make of their arguments, with
-- inet_pton, htons and atoi as arguments; Echo/Tcp/Client, Echo/Tcp/Accept and Echo/Udp/Programs are
-- the programs from their main on, with what socket, bind, listen, connect and accept return. A loop
-- is a function from what its reads answer to what it writes and prints. The buffers' size, 4096 in
-- the source, is a parameter. Echo/Tcp/Session and Echo/Udp/Datagrams put a client and a server
-- together, on a network that delivers each write as one read; Echo/Tcp/Client/Sessions is the
-- client as a whole. Client/Typed and Echo/Udp/Typed begin with the bytes that are typed, which
-- CText/Lines splits as fgets does. Echo/Tcp/Reap is the server's handler sig_chld, with signals
-- that are lost. The client's handler for SIGINT is left out.
--
-- FifoChat, section-05/lab/lab_1.c: the two FIFOs of a chat as the bytes that wait in each, by name.
-- FifoChat/Exchange follows a line from one user's program to the other's.
--
-- Fifo, section-05/lab/fifo: client.c's messages and server.c's reads on the bytes in one FIFO. How
-- many messages are there at each read is an argument. Fifo/Firsts says what the server prints.
--
-- SharedPointer, section-05/lab/shared_mem: shm_ptr_writer.c and shm_ptr_reader.c, each with the
-- segment at the address that shmat gives it, an argument. SharedPointer/Bases says where the stored
-- pointer leads.
--
-- MsgQueue, section-05/lab/msg_queue.c: a long in the text of a message, as eight bytes with the
-- lowest first, and the queue as a list.
--
-- DynArray, section-06/lab/lab_2.c: the array that grows, with realloc an argument of which its
-- documented behaviour is assumed, and `worker` as one thread alone runs it. The two threads that
-- main starts push without a lock, a data race that C does not define; main as a whole is left out.
-- DynArray/Pushes holds the array against the list of what is pushed.
--
-- SumToN, section-06/lab/lab_1.c: the loop runs once for each number, and an int that overflows is
-- an error. SumToN/Triangle has the closed form.
--
-- LinkedList, section-02/lab/singly_linked_list.c, over a heap from addresses to nodes. The loops
-- run on fuel; fuel for each node of the list, and one more to find the end, is enough. The
-- addresses that malloc returns are arguments: not NULL and not in use. Chain says which nodes a
-- list consists of, Insert and Delete are about the operations, Examples runs `main`.
--
-- Common and CText are the shared helpers: tests on the native numbers, lists indexed by them,
-- integers, C strings, and buffers that are written again (CText/Memory).
--
-- Not modelled: printing, the installing of signal handlers and the options of sockets, since they
-- are calls of the system only; the other labs of sections 02 to 08.
mod Common
pub mod CText
pub mod Chat
pub mod Led
pub mod Turns
pub mod LinkedList
pub mod Counter
pub mod DynArray
pub mod CondVar
pub mod LostUpdate
pub mod LockOrder
pub mod MsgQueue
pub mod Family
pub mod Kill
pub mod Reentrancy
pub mod Pipe
pub mod Popen
pub mod SharedPointer
pub mod SumToN
pub mod Echo
pub mod FifoChat
pub mod Fifo
