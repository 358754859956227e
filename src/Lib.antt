-- ===== src/Lib.antt =====
-- Verification library of the record server: the recording service and the data structures, memory
-- pools, timers and events that its servers and connections are built from.
--
-- The program. The server keeps tasks for its worker threads in a ring (src/datas/task_queue.h),
-- its objects in intrusive lists (src/datas/t_dlist.h), and takes their memory from pools of equal
-- blocks: an array with a mark per block (src/mem_pool/p_membox.h) and chains of pools with a free
-- and a used list (src/mem_pool/pure_slab.cpp, src/mem_pool/pure_slab_t.h,
-- src/mem_pool/pure_slab_pool.cpp). Its timers stand in a red-black tree
-- (src/datas/pure_rbtree.cpp). Its texts are copied and read by the helpers of
-- src/string/p_string.cpp, and its settings come from files that src/conf/pconf.cpp parses to a
-- tree. The loop of src/base keeps its pending I/O events in a list. On top stands the recording
-- service of src/app: HTTP requests start, stop and create recordings (record_control.cpp), a queue
-- and a thread start one process per recorded stream, a monitor takes over the processes of a server
-- that is gone, and the death of a process starts it again (process_manager.cpp). The running
-- processes are documents of a database (mongo_adaptor.cpp).
--
-- The files.
-- Base and its children pass on the library's names and add lists measured by native numbers,
-- faulting computations, and the alignment macros of src/mem_pool (Base/Align).
-- Links is the memory of doubly linked nodes: a function from addresses to nodes, with the writes
-- through a pointer. Links/Seg says what a segment of linked nodes is, Links/Writes when a write
-- succeeds, Links/Back what relinking does to segments. The lists and the slab allocator share it.
-- TdList models `TDList` of src/datas/t_dlist.h, one definition per method under its name
-- (`add_node_to_tail`, `remove_node`, `clear_list`, ...); `remove_node` is split in the two halves of
-- its text. TdList/Inv has the invariant; Add, Remove and Walk the proofs.
-- TaskQueue models `CTask_queue` of src/datas/task_queue.h. `enqueue_single`, `enqueue_multi` and
-- `dequeue` are the methods as one thread runs them; TaskQueue/Spec is the bounded queue they
-- promise. TaskQueue/Single and TaskQueue/Multi are step relations, one constructor per access to
-- shared memory, of all threads that run the modes SINGLE and MULTI at once; the compare-and-swap
-- and the atomic addition of src/atomic/atom_opr.h are single steps.
-- Membox models `membox` of src/mem_pool/p_membox.h, as one thread runs it.
-- Slab models `pure_slab` of src/mem_pool/pure_slab.cpp, and Slab/Template what differs in
-- `pure_slab_t` of src/mem_pool/pure_slab_t.h. Slab/Init is the cutting of a zone, Take and Release
-- the moves between the two lists of a pool, Alloc, Grow and Free the allocator with its chain.
-- LevelPool models `pure_slab_pool` of src/mem_pool/pure_slab_pool.cpp, chains of pools for blocks of
-- doubling sizes, with the moves between the lists of a pool and the cutting of a zone from Slab;
-- LevelPool/Sizes is the choice of a level, LevelPool/Alloc and LevelPool/Free have the operations.
-- Strings models the bounded copies and the number reader of src/string/p_string.cpp on lists of
-- bytes; `strncpy` is written out as the C standard describes it.
-- Conf models `pconf` of src/conf/pconf.cpp: Conf/Chars and Conf/Scan the scanning of characters,
-- names and values, Conf/Parser the descent (`parse_main`, `parse_smodlh`, `parse_arraylh`; a loop's
-- round is split in steps, and each step takes the calls that it makes as arguments), Conf/Lookup
-- the reads of the tree and Conf/Buffer the reading of the file. Conf/Text is the independent
-- description: configurations, their text and their tree. RoundTrip, Termination and Found have the
-- theorems.
-- RbTree models `pure_rbtree` of src/datas/pure_rbtree.cpp, on which the timers stand. RbTree has
-- the nodes and the rotations; RbTree/Insert, RbTree/Delete and RbTree/Search the methods, with the
-- halves that mirror each other as one definition with a side. RbTree/Shape says which tree a memory
-- holds, RbTree/Context what stands above a place of it; Lift, Rotate, Places and Turn are about the
-- rotations, Found about the reads.
-- Timer models src/timer on RbTree (`pure_add_timer`, `pure_delete_timer`, `pure_find_timer`,
-- `pure_timer_process`), with `check_timeout` of src/base/base_connect.cpp; Timer/Due says when a
-- timer is due. The time of day and what an event does when it expires are arguments.
-- Circle models the list of events of src/base/base_circle.cpp (`add_event`, `remove_event`) on the
-- nodes of Links, and Circle/Traversal `traversal` with `connect_close` and `remove_event` of a
-- connection (src/base/base_connect.cpp). Circle/Add, Remove, Closes and Walk have the proofs. The
-- classes of events (`CIO_event`, `io_process`) and an implementation of the pure virtual
-- `connect_remove` are not in the repository: `IoEvent` has the members that the code uses, and the
-- two functions are parameters. So are `remove_timer_event` and `close_epoll_sock`, as functions on
-- what lies outside of the list.
-- Recorder models src/app. Recorder has its data and `Platform`, the record of what it takes from
-- mongoc, jsoncpp and the operating system; Adaptor is src/app/mongo_adaptor.cpp, Documents and its
-- children what the driver promises (`find`, `insert`, `update` and `remove` on a list of documents,
-- with a memory that does so), Store, Files and Process are src/app/process_manager.cpp: its reads
-- and writes of documents, its directories and playlists, its processes and threads. Process/Service
-- is the step relation of requests, rounds of the threads, deaths of children and outside changes;
-- its children have the proofs. Http is src/app/record_control.cpp, Http/Settings with Conf.
-- Seqlock models src/lock/seqlock.h as a step relation of writers and readers; Seqlock/Safety has one
-- writer at a time, Seqlock/Torn two.
--
-- Conventions. A method is a function from the old state to the new one; `none` is a fault (a read
-- or write through NULL or through an address without a node, a division by zero) or that the fuel
-- of a loop ran out. Numbers are natural numbers; a `u32` is reduced by 2^32 where the code computes
-- with it, and an `s32` is kept as its 32 bits where its sign matters. Addresses are 64-bit words.
-- What `malloc` answers is an argument: the address of zeroed memory, or nothing. In Recorder `none`
-- is also an exception, an exit, or the write behind an array, as for a path of 512 bytes or more; the
-- answer of `fork` chooses the process in which the model goes on, and a call runs as a whole.
--
-- Fuel. The walks of TdList take as fuel any number above the number of nodes, and the loops of
-- TaskQueue any positive number: with one thread the exchange succeeds at once. The cutting of a
-- zone takes two more than a number of blocks that covers the zone. The theorems that give a result
-- have these numbers as hypotheses. The parser takes more fuel than its text has bytes, or as much as
-- the configuration has nodes and ends of blocks, and a walk down the red-black tree more than the
-- tree has nodes. The traversal of the events takes more fuel than the list has events, and the inner
-- loop of `process_queue` as many rounds as requests wait. The 20 digits of `digits` are enough for a
-- 64-bit number. The step relations need no fuel.
--
-- Bounds. `Alloc` of a LevelPool takes a length that is not negative, with a quotient by the block
-- size that fits an `int`. The search of a Membox adds its two indices without a bound, as the code
-- does for pools of less than 2^31 blocks. `%d` of a time prints its low 32 bits.
--
-- Not modelled: the weak order of memory accesses of the machine (each step of a thread is atomic and
-- seen by all), messages that are printed, the release of whole pools (`destroy`), the buddy
-- allocator, the accesses of two threads to the recorder's queue at once, the failure of the
-- database in the middle of a call, and the parts that are mostly calls of sockets, files and threads:
-- the rest of src/base, src/http, src/ftp, src/log, src/process, src/shmem, src/thread. Of
-- libevent, jsoncpp, mongoc and curl the repository has headers at most.
pub mod Base
pub mod LevelPool
pub mod Links
pub mod TdList
pub mod Timer
pub mod TaskQueue
pub mod Membox
pub mod Slab
pub mod Strings
pub mod Recorder
pub mod Circle
pub mod RbTree
pub mod Seqlock
pub mod Conf
