-- ===== src/Lib.antt =====
-- Verification library of the linux_programming repository: solutions to the exercises of a book on the
-- Linux programming interface, one small C program or library to a folder. The parts are independent
-- programs; what they share are the helpers for numbers (get_num.c) and messages (error_functions.c),
-- of which each folder has its own copy: the model has each once.
--
-- How the files correspond to the code (paths from the root of the repository):
--   Base            lists, native numbers, Boolean tests, integers (Base/Int), bytes (Base/Bytes)
--   Libc            the C library as the programs use it: strcmp and the like (Libc/Str), strtol
--                   (Libc/Strtol), printf's %d (Libc/Decimal, Libc/Shown)
--   GetNum          CH07-Memory_Allocation/free_and_sbrk/get_num.c: getNum, getLong, getInt
--   ErrorFunctions  CH44-Pipes_and_FIFOs/seqnum_with_backup/error_functions.c: errMsg, errExit, fatal, ...
--   SparseCopy      CH04-FILE_IO/cp_sparse/cp_sparse.c: the copy loop that makes holes of NUL bytes
--   Nodes, Tree     CH30-Threads_Thread_Synchronization/Exercise_30-2/thread_safe_tree.c: Nodes is the
--                   heap of tree nodes with their mutexes, Nodes/Rep ties it to the tree that it stands
--                   for; Tree has initialize, add, lookup, getParent, getNode, getMin, getMax, delete
--   ThreadIncr      CH30-Threads_Thread_Synchronization/Exercise_30-1/thread_incr.c: the accesses of two threads
--                   to a shared variable, as a relation between states; ThreadIncr/Start has main up to the
--                   threads
--   OneTimeInit     CH31-Threads_Thread_Safety_and_Per_Thread_Storage/one_time_init/one_time_init.c: threads that call
--                   one_time_init, as a relation between states
--   KvServer        CH59-Sockets_Internet_Domains/Exercise_59-4/server.c: requests and the hash table, which
--                   is a parameter (the record HashTable, with the documented laws of uthash);
--                   KvServer/Texts has the texts of the requests, KvServer/Arrival how they arrive in
--                   the buffer, KvServer/Requests what becomes of them, KvServer/Ownership who may change a pair,
--                   KvServer/Mains and KvServer/Replies main with its replies and exits
--   Seqnum          the sequence number servers and clients in CH44-Pipes_and_FIFOs/seqnum_with_backup,
--                   CH44-Pipes_and_FIFOs/server_fifo_remove and CH52-POSIX_Message_Queues/seqnum_mq;
--                   the client calls getInt of GetNum; Seqnum/Mains has the main functions of the servers and
--                   the server with a backup started again and again (Seqnum/Restart)
--   EchoServer      CH60-Sockets_Server_Design/limited_children/is_echo_sv.c: the loop that limits the number
--                   of children, with the handler of SIGCHLD as an event of its own; EchoServer/Daemon is
--                   becomeDaemon of become_daemon.c on a table of descriptors, EchoServer/Echo handleRequest,
--                   EchoServer/Start main up to the loop, with becomeDaemon and inetListen of InetSockets
--   DirectoryObserver  CH19-Monitoring_File_Events/directory_observer/directory_observer.c: the decoding and the
--                   printing of inotify events, and the watches; DirectoryObserver/Buffer is about the loop
--                   over a buffer, Events about what it prints, Watches about the paths that are watched
--   FlockDeadlock   CH55-File_Locking/flock_deadlock/flock_deadlock.c: a process and its child that lock two files
--   UsersProcesses  CH12-System_and_Process_Information/user_processes/users_processes.c: the processes of a user;
--                   it uses strtok and the entries of /proc of Pstree/Status
--   FdReader        CH12-System_and_Process_Information/fd_reader/fd_reader.c: the processes that have a file open
--   Itimerspec      CH23-Timers_and_Sleeping/Exercise_23-4/itimerspec_from_str.c
--   ReadvWritev     CH05-FILE_IO_Further_Details/readv_writev/readv_writev.c: my_readv, my_writev
--   ChildWaitParent CH24-Process_Creation/child_wait_parent/child_wait_parent.c: two processes that wait for signals of
--                   each other, as a relation between states
--   ChildStatus     CH26-Monitoring_Child_Processes/waitid/child_status.c: what the parent reports;
--                   ChildStatus/Mains has main with fork and the child, which calls getInt of GetNum
--   Popen           CH44-Pipes_and_FIFOs/popen_pclose/popen_pclose.c: my_popen in the parent and in the child,
--                   my_pclose
--   AtomicAppend    CH05-FILE_IO_Further_Details/atomic_append/atomic_append.c: its arguments, and the loops of two
--                   processes on one file, as a function of one system call
--   Abort           CH21-Signals_Signal_Hanlders/abort/abort.c: my_abort
--   BidirPipes      CH44-Pipes_and_FIFOs/bidirectional_pipes/bidirectional_pipes.c: BidirPipes has both loops on their
--                   buffers, BidirPipes/Line and BidirPipes/Upper the turns in which lines are typed
--   FcntlDup        CH05-FILE_IO_Further_Details/fcntl_as_dupn/fcntln_as_dupn.c: mydup, mydup2
--   Talk            CH52-POSIX_Message_Queues/talk/talk.c: the set-up, and one direction of a talk as a function of one
--                   turn of the sender or of the receiver; the size that getline gives to a buffer is a parameter
--   MmapCopy        CH49-Memory_Mappings/cp/cp.c: a copy through mappings, on files as bytes under their names
--   UsXfr           CH57-Sockets_UNIX_Domain/abstract_ns: UsXfr has the set-up of us_xfr_sv.c and us_xfr_cl.c,
--                   UsXfr/Steps their copy loops as a function of one system call of one process, on a state with
--                   all clients and the server; UsXfr/Inv is what holds between two calls, UsXfr/Weight a bound
--                   on the calls to come (so no fuel is needed)
--   ReliableDgram   CH57-Sockets_UNIX_Domain/reliable_dgram: dgram_sv.c and dgram_cl.c, joined in ReliableDgram/Exchange;
--                   ReliableDgram/Mains has the set-up of their sockets
--   InetSockets     CH60-Sockets_Server_Design/limited_children/inet_sockets.c: inetConnect, inetListen,
--                   inetBind, inetAddressStr
--   Environ         CH06-Processes/environ/environ.c: my_setenv, my_unsetenv
--   Execlp          CH27-Program_Execution/execlp_from_execve/execlp_from_execve.c: my_execlp
--   Pstree          CH12-System_and_Process_Information/pstree/pstree.c: the list and the tree of processes,
--                   and in Pstree/Status the reading of status files
--   DirBase         CH31-Threads_Thread_Safety_and_Per_Thread_Storage/dirname_basename_tsd: basename_ts,
--                   dirname_ts
--
-- A C string is the list of its bytes without the NUL; an int is an integer, and where the code lets one
-- wrap around the model does so in two's complement (to_int). What a system call returns is an input of
-- the model: a field of the record that stands for the environment, or a list with one element to a turn
-- of a loop. Ways to end that C has and a function has not (an exit, a fault, a wait for ever, an access
-- past the end of an array) are constructors of a result type.
--
-- Fuel: the recursions of Tree, the searches and loops of Pstree and the printing of decimals run on fuel.
-- The theorems on trees ask for fuel beyond the depth of the tree, those on the list of processes for more
-- than the processes there are; `decimal` gives n + 1 to a number n, which has fewer digits.
--
-- Not modelled: programs that are sequences of system calls and of messages without logic of their own,
-- interleavings of threads and processes except in ThreadIncr,
-- OneTimeInit, ChildWaitParent, EchoServer, FlockDeadlock, UsXfr, AtomicAppend and Talk
-- (each function of Tree is the run of one thread), signal delivery, and the libraries that the sources only call.
pub mod Base
pub mod Libc
pub mod SparseCopy
pub mod GetNum
pub mod Nodes
pub mod Tree
pub mod KvServer
pub mod Seqnum
pub mod InetSockets
pub mod Environ
pub mod Pstree
pub mod Execlp
pub mod DirBase
pub mod ErrorFunctions
pub mod ThreadIncr
pub mod EchoServer
pub mod ChildStatus
pub mod FlockDeadlock
pub mod DirectoryObserver
pub mod UsersProcesses
pub mod Popen
pub mod FdReader
pub mod Itimerspec
pub mod OneTimeInit
pub mod ReliableDgram
pub mod ReadvWritev
pub mod ChildWaitParent
pub mod UsXfr
pub mod AtomicAppend
pub mod Abort
pub mod BidirPipes
pub mod FcntlDup
pub mod Talk
pub mod MmapCopy
