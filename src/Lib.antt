-- ===== src/Lib.antt =====
-- A verification library for the programming examples of Mac OS X Internals.
--
-- The repository is a collection of programs; each stands alone in its directory under src/. This
-- library models those of them that have logic of their own, each from its source, and proves what makes
-- it correct. The kernel, launchd, Carbon and the C library are parameters: records of what they answer,
-- or functions, with what the programs rely on as hypotheses.
--
-- The files, and the sources that they are about:
--   Prelude       the shared names: Boolean tests, lists and words over the native numbers; Ledger: what a program
--                 acquires and releases, as a list of events; Products: the factorials that fit an int
--   HashTable     src/5-9/hash_table_size.c and cntlzw.s: the size of the PowerPC page table
--                 (Rounding: the memory is rounded up; Size: the result)
--   HwCs          src/3-28/hw_cs.s: the compare-and-store loop, with the stores of other threads as a list of
--                 rivals, one for each round that loses its reservation (Atomic)
--   Frr           src/3-31/frr.c: frr_install and frr_remove on a memory of words (Target: where a branch
--                 goes; Install, Remove: the two operations; Errors: the error exits; Demo: main, with the calls
--                 that the words in memory lead to). It calls the
--                 compare-and-store of HwCs, which is a field of its System; the tests fill it with HwCs.looptry
--   Bits          src/6-28/commpage32.c and prbits32 of src/6-51/vmachmon32.c: bits as text (Print,
--                 Capabilities)
--   Vmm           src/6-51/vmachmon32.c: main as the calls that change the kernel's state (Pages), the
--                 instruction templates and guest programs (Code), and a run of the first guest (Demo)
--   Srmap         src/8-24/srmap.c: the header tests and the table of mappings (Table, Header)
--   Dummyd        src/5-26/dummyd.c: readline, daemon_loop and main (Buffer, Echo, Serve)
--   Kdebug        src/6-29/kdebug.c: the requests to the trace facility, the exit handler and main
--                 (Decode: an entry of the buffer; Cleanup, Tracing: the state at exit)
--   Lstasks       src/7-21/lstasks.c: the loop over the tasks (Output, Info, Thread: what is printed;
--                 Count: the counters; Names: the tables of names)
--   Fslogger      src/11-25/fslogger.c: the decoder of the event stream (Layout: a stream of
--                 records; Ends: any bytes; Names: the tables of names; Device: main before the loop)
--   Vnodewatch    src/11-37/vnodewatch.c: the notification handler and main (Queue: what is printed; Resources:
--                 what is acquired and released; Kinds: the test for a directory)
--   FbRotate      src/10-23/fb-rotate.c: an angle as the options of a transform (Turns)
--   VnodeDriver   src/11-36/VnodeWatcher.cpp: the user client of the watcher in the kernel (Listeners: its calls in any
--                 order; Stream: what Vnodewatch prints of the accesses that the callback puts in the queue)
--   CryptoDisk    src/10-36/SimpleCryptoDisk.cpp: the filter of a disk (Cipher: the data; Requests: reads, writes and
--                 completions in any order, with what they hold)
--   Exception     src/9-38/exception.c: the thread that faults and the one that catches it (Repair)
--   Notify        src/9-59/notify_consumer.c: three consumers of notifications (Steps: the steps of the threads;
--                 Interleavings: what a cancellation leaves, in any order of them; Cancel: the loop on the Mach port),
--                 and src/9-58/notify_producer.c with src/9-57/notify_common.h (Producer: which notification it
--                 posts)
--   Bootstrap     src/9-16/bootstrap_server.c: the registration of a service and its rights (Rights)
--   SimpleIpc     src/9-20/simple_ipc_server.c, src/9-21/simple_ipc_client.c and src/9-19/simple_ipc_common.h: a server of
--                 factorials and its client (Exchange: both together)
--   FdPassing     src/9-43/fd_sender.c and src/9-44/fd_receiver.c: a descriptor sent over a socket (Passing)
--   ShmIpc        src/8-19/shm_ipc_server.c, src/8-18/shm_ipc_client.c and src/8-17/shm_ipc_common.h: a shared page and the
--                 clients that use it one after the other (Sharing)
--   KqFwatch      src/9-61/kq_fwatch.c: the events of a file until it is deleted (Watching)
--   MachSemaphore src/9-72/mach_semaphore.c: three threads, main and their semaphores (Ordering)
--   MiscServer    src/9-28/server.c: the operations that a MIG server exports (Operations)
--   Chud          src/6-32/CHUDSyscallExtension.c: a callback for a system call, registered and cancelled while system calls
--                 run (Serving)
--   Mediamon      src/11-7/mediamon.c: the properties of media devices (Dictionaries: what is released)
--   Cnid2path     src/12-15/cnid2path.c: the path of a file number, joined backwards in a buffer (Joining)
--   Timebase      src/3-9/timebase.c: the time base read in two halves (Halves)
--   SchedShift    src/7-50/sched_pri_shift.c: a conversion of time and the least shift (Conversion)
--   Stacktrace    src/3-25/stacktrace.c: the frames of a stack (Frames)
--   CarbonThreads src/7-37/CarbonThreadManager.c: threads that yield to each other (Disposal)
--   Xattr         src/12-20/xattr.c: the attributes that are set and removed (Setting)
--   ProcessorInfo src/7-6/processor_info.c: what is printed of the processors (Uptime)
--   HostAlarm     src/6-3/host_alarm.c: an alarm and the time until it rings (Elapsed)
--   Lsmacaddr     src/10-33/lsmacaddr.c: the addresses of Ethernet controllers (Digits: the text; Objects: what is released)
--   VolInfo       src/12-34/getattrlist_volinfo.c: the capabilities of a volume (Capabilities)
--   VmInherit     src/8-14/vm_inherit.c: pages that a child process shares or gets a copy of (Forking)
--   Testright     src/2-35/testright.c: a right that is asked for (Authorization)
--   ThreadCreate  src/7-20/thread_create.c: a thread that is given its registers (Running)
--   Lsmdquery     src/11-28/lsmdquery.c: the query of a smart folder and the objects that each path holds (Objects)
-- VnodeDriver, CryptoDisk, Notify, MachSemaphore and Chud are step relations: a call, or the stretch of a thread between two calls
-- that may block, is one step. What the system documents of semaphores, tokens and queues is part of their steps, and
-- strcpy and strncpy are written out; elsewhere what the system answers is a parameter.
-- A file Tests holds runs of the definitions and the theorems at concrete inputs.
--
-- Source names keep their words in lower case: ukdbg_setenable, frr_install; a main is the main of its
-- program, without what it prints to the user. Words of 32 and 64 bits wrap around where the source
-- computes with them; addresses that are only compared or handed on are numbers.
--
-- Fuel: the loop of daemon_loop takes one unit for each line that it reads, and more units than results
-- of read are enough. The decoder of fslogger takes one for each event, and one more than the bytes of
-- the read is enough, since each event has eight bytes at least. The exit handler of kdebug takes the
-- depth of its nested calls, and one is enough. The loop of cnid2path takes one for
-- each byte of its buffer at most, so MAXPATHLEN is enough; the shift of sched_pri_shift takes one for each bit, so 64 is
-- enough; the walk of stacktrace takes one for each frame; a call in frr.c runs at most three instructions
-- and is nested at most twice. The other loops are recursion on a list or a count.
--
-- Not modelled: the text layout of what is printed, the calls that set a program up and have no branch of its
-- own behind them, and the programs that ask the system once and print its answer. Of the C++ programs the two drivers
-- are modelled; the Objective-C, Java and Forth programs and the scripts are not.
pub mod Prelude
pub mod HashTable
pub mod HostAlarm
pub mod HwCs
pub mod Frr
pub mod Bits
pub mod Stacktrace
pub mod Testright
pub mod ThreadCreate
pub mod Timebase
pub mod VmInherit
pub mod Vmm
pub mod Srmap
pub mod Dummyd
pub mod Kdebug
pub mod Lstasks
pub mod Fslogger
pub mod VolInfo
pub mod Vnodewatch
pub mod Xattr
pub mod Exception
pub mod Notify
pub mod Bootstrap
pub mod SimpleIpc
pub mod FdPassing
pub mod ProcessorInfo
pub mod SchedShift
pub mod ShmIpc
pub mod KqFwatch
pub mod MachSemaphore
pub mod FbRotate
pub mod CarbonThreads
pub mod Chud
pub mod Cnid2path
pub mod CryptoDisk
pub mod VnodeDriver
pub mod Mediamon
pub mod MiscServer
pub mod Lsmacaddr
pub mod Lsmdquery
