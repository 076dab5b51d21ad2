-- ===== src/Lib.antt =====
-- Verification library of the programs of the computer networks lab that have a logic of their own:
-- the C programs of week0/ and the application class and scripts of ns3/ and scratch/.
--
-- Parts, and the files that model them:
--
-- Libc: what the programs use of the C library. Text has strings in buffers (the reads of %s and
--   strlen, strncmp, memset, snprintf, the store of a received block), Input fgets on the bytes of
--   standard input, Decimal the print of an int, Port atoi and htons. A read of a string that runs
--   past its buffer is undefined in C: it is `none` here, so that its absence is a theorem.
-- MyApp: the class of ns3/fifth.cc, also in scratch/fifth.cc, ns3/dumbbell.cc and
--   ns3/tcpvariants.cc. App has one function for each method, over a record of its fields, the
--   scheduler's state and the calls made on the socket. ns-3 is not in the repository: the
--   scheduler is the record Simulator, with the documented laws of Schedule, Cancel and IsRunning
--   as fields, and socket calls are a log. System interleaves the life of one application with the
--   rest of the simulation. A delay is the fraction bits / bit rate, so no floating point is
--   involved. Timing adds a clock, a second interface, and the times of the packets.
-- Chat: the threads hear and talk and the loop of chat in week0/beej/chat/chat.c, and of the client
--   side in week0/beej/group_chat/chat.c, and in Datagram of week0/beej/chat/udp/chat.c. Each
--   access to END_COM, HEAR and TALK is a step, and what arrives on the socket and on standard
--   input is chosen by the environment. The model of the main thread ends at its pthread_kill. Conversation is two such chats
--   and the frames under way between them, and Ending is about the end of a chat.
-- GroupServer: week0/beej/group_chat/server.c. The table of clients with the body of the accept
--   loop, shout, and the body of the loop of hear_all, each as a function. Main is main as a
--   program over a kernel. Threads has the whole process as a step relation: main and one hear_all
--   for each client, with the table, the mutex and the sends that they share, where one round of
--   the loop of shout is a step. Its specification, in Threads/History, is a history of joins and
--   shouts that happen at once; Threads/Inbox says what one
--   member hears of it, and Threads/Sequential compares the rounds with the function shout.
--   Threads/Release is about a thread that holds the mutex, and Threads/Faults about the accesses
--   outside an array. Room is the whole group chat: this
--   process and, behind each of its sockets, the threads of a client; it receives its greeting,
--   then the messages, each whole, and what the server receives may be anything. In Room/Uplink it is the
--   next frame that the client has sent.
-- Os and Lab: the mains of week0/q1 to week0/q3 as programs over a kernel, which is any function
--   from the calls made so far to an answer. A program ends with a value, with an exit status, or
--   with a fault. Opening has what the TCP exercises share, Greeting, Exchange and Runs are about
--   week0/q1/tcp, Datagram about week0/q1/udp, Date, Civil and Calendar about week0/q2, and Pair
--   week0/q3/tcp, with the loops of both processes. FailStop is the discipline of failing calls,
--   with a rule for each part of a program.
-- Beej: the mains of week0/beej. Opening is what servers and clients share, Mains the programs of
--   simple as a whole and the others up to their call of chat, Exchange what they do.
-- Ns3: the mains of the other simulation scripts, in ns3/ and scratch/. Script has the calls on
--   ns-3 as data, with the arguments they are given; a main is a function from the values of its
--   options to a list of calls. Wires and Check say when calls fit together, by what ns-3 documents of them.
--   Paced, Dumbbell and Variants are the mains with MyApp (ns3/fifth.cc, scratch/fifth.cc,
--   ns3/dumbbell.cc, ns3/tcpvariants.cc), Bulk ns3/tcp-bulk-send.cc and ns3/bulk-send.cc, Star
--   scratch/star.cc, ns3/onoff.cc and ns3/dumbell.cc, and Echo ns3/first.cc with its variants and
--   ns3/first-ipv6.cc. Wiring and Spokes are the theorems.
-- Examples: the results at concrete inputs, and tests.
--
-- Bounds and fuel: the digits of an int take fuel n + 1, and each round divides by ten. The
-- scheduler loop `drain` takes as many rounds as packets, which its theorem shows to be enough.
-- uint32_t arithmetic is written out modulo 2^32, and a port modulo 2^16.
--
-- Not modelled: the Java, Python and shell exercises, the packets and routing inside ns-3, the
-- script fd-emu-ping (an example of ns-3 kept as it is), partial writes to sockets, a
-- pthread_create that fails, and the effect of a signal on a process.
pub mod Prelude
pub mod Libc
pub mod Os
pub mod MyApp
pub mod Chat
pub mod GroupServer
pub mod Lab
pub mod Beej
pub mod Ns3
pub mod Examples
