-- ===== src/Lib.antt =====
-- Two programs of one repository, verified: a file server with a RESP protocol (G16_Project_3), and
-- the system calls added to an xv6 kernel (G16_Project1_xv6CustomizeSystemCalls/xv6-riscv/kernel).
--
-- The file server. A connection's thread (client_thread in G16_Project_3/src/server.c) reads a
-- request, dispatches it to an operation, and the operation replies. Each part has a module under
-- FileServer, which keeps the C names:
--   Resp       resp.c: the requests. What recv gives is a list of events (bytes, an interruption, a
--              failure; the end of the list is the end of the stream), so that a request may arrive
--              in pieces of any size.
--   Path       path_utils.c, and the destinations that server.c derives: byte strings, with the
--              sizes of the buffers they are printed to.
--   Locks      locks.c: the map from paths to locks, one lock or two at a time.
--   Rle        file_ops.c: rle_compress_bytes and rle_decompress_bytes.
--   LogTail    file_ops.c: read_log_tail.
--   Logger     logger.c: the line that a call logs, and what LOGS shows of it.
--   Disk       file_ops.c: read_all_file and write_all_file, and the World in which the operations
--              run: the files, the log among them, by where their paths lead (Path.Places), errno,
--              the locks that the thread holds, the trace of log lines and replies, and the
--              script. The script holds an outcome for each call of the operating system, in
--              order; the loops on read and write recurse on it, and at its end every call fails,
--              so that a finite script stands for every finite behaviour.
--   Locked     the beginning and the end that the operations of file_ops.c have in common.
--   Ops, Transfers, Reports
--              file_ops.c: op_getfile, op_setfile, op_delfile, op_renamefile; op_copyfile,
--              op_compress, op_decompress; op_statfile, op_logs.
--   Reply      resp.c: the replies, and what of them goes out when `send` takes a part, is
--              interrupted or fails.
--   Dispatch   server.c: dispatch_command and client_thread.
-- The kernel, under Kernel:
--   Mutex      sysproc.c: the mutex calls. A call is split where sleep gives up its lock, and System
--              is the transition system of processes that call them in any order, with kills.
--   Bio        bio.c: which block is in which buffer, and which buffer is given to a new block.
--   Names      fs.c: skipelem and namex, the walk along a path; Names.Directory has the entries that
--              dirlookup and dirlink read and write.
--   Kalloc     kalloc.c: the free list of pages, which runs through the pages.
--   Pipe       pipe.c: the ring of a pipe, and the rounds of pipewrite and piperead; Pipe.History
--              has all that is written and read, Pipe.Sleepers the processes that sleep, and the wakeups.
--   Strings    string.c: memory as a function from addresses to bytes.
--   Shm        sysproc.c, shm.c, and the parts of proc.c and kalloc.c that shared memory rests on.
--   Proc       proc.c: processes, from fork to wait, kill, freeze and thaw, a step for each call; System
--              is the transition system in which they take turns on any number of cores, and
--              Syscalls has the calls of sysproc.c on them.
--   Log        log.c: transactions of the file system. The power fails at any write of a commit or of
--              a recovery, and begin_op keeps room for the calls that run.
--   Msg        sysproc.c, msg.c, msg.h: the message queues. copyin and copyout are parameters.
--
-- Bounds and fuel. A buffer is a list of bytes, and every size that the code tests is written
-- out. The encoder of Rle runs on the length of its input as fuel: each run takes a byte at
-- least, and the round trip shows that nothing is left over. A decimal number of 64 bits has at
-- most twenty digits, and that is the fuel of the printer in Resp. The walk of namex has a name
-- less in its path at each step, so one more than its length is enough; strlen looks at the bytes
-- of one buffer; freerange goes on by a page at a time, with PHYSTOP as fuel. The count of a
-- queue wraps at 2^32, a length of type int becomes a uint64 by adding 2^64. The pids that are
-- handed out are natural numbers, while the C code has an int, which 2^31 forks would overflow.
--
-- Where memory may run out, malloc is a parameter, a test on sizes, or an outcome of the script.
-- Parameters too: the text of an error (strerror), the metadata of a file, which locks can be had,
-- and for Path.Parents what mkdir does, with what is asked of it as hypotheses.
--
-- Not modelled: directories as objects, symbolic links, permissions, and programs other than the
-- server that write to its files; sockets, signals and the main loop of server.c. Of the kernel:
-- user memory, open files and context switches of processes, and the parts that it has from xv6
-- and that are not named above (inodes and open files, devices, traps, page tables, the locks
-- themselves).
pub mod Base
pub mod FileServer
pub mod Kernel
