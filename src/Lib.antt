-- ===== src/Lib.antt =====
-- Verification of the task queue server: tasks, the containers that hold them, the dependency
-- graph, the queue manager over them, the thread pool that works its tasks off, the storage,
-- the commands and the server that runs them.
--
-- Files and sources (paths from the repository's root):
--   Task and its children        include/core/Task.hpp, src/core/Task.cpp: class Task; Task/Json has
--                                toJson and fromJson
--   Queues/IntrusiveList         include/utils/DataStructures.hpp: IntrusiveList, LockFreeQueue
--   Queues/Stack                 the same file: LockFreeStack
--   Queues/SkipList and its children   the same file: LockFreePriorityQueue
--   Queues/Family                a map from group names to containers, as QueueManager keeps three
--                                of them, with its loops over the groups
--   Graph/TaskGraph, Graph/Inverse, Graph/Subgraph   the same file: TaskGraph
--   Graph/Cycle, Graph/Levels, Graph/CriticalPath   src/utils/DataStructures.cpp: hasCycle,
--                                calculateTaskLevels, findCriticalPath (and getCriticalPath of
--                                QueueManager.cpp)
--   Graph/Dot                    generateDOTGraph there and TaskGraph::toDOT, line by line
--   QueueManager and its children   include/core/QueueManager.hpp, src/core/QueueManager.cpp:
--                                enqueue, dequeue, setMode (SetMode), generateDependencyGraph
--                                (Drawn), the rest in Access
--   ThreadPool and its children  include/core/ThreadPool.hpp, src/core/ThreadPool.cpp
--   Storage and its children     include/persistence/Storage.hpp, src/persistence/Storage.cpp: keys,
--                                task records (Tasks), the log (Log), batches (Batch); Database is
--                                what the code relies on of RocksDB
--   CliCommands and its children     include/network/CLICommands.hpp, src/network/CLICommands.cpp:
--                                commands on tasks (TaskCommands), settings (Settings), files (Files)
--                                and stored tasks (Listing, Batches), the pool of storages (Pool)
--   TcpServer and its children   include/network/TCPServer.hpp, src/network/TCPServer.cpp: sessions,
--                                messages and workers (Requests), executeCommand (Dispatch),
--                                the bytes of a session (Framing)
--   Prelude                      Boolean tests, lists, counters, std::unordered_map and _set
--   Tests                        the theorems at concrete inputs
-- The manager keeps tasks in the containers of its current mode (FIFO and round robin share the
-- queues), a map from ids to tasks, a task graph and counters. A pool owns a manager, and its
-- workers take tasks from it. The commands use a manager and a pool of storages; the server queues
-- the requests of its sessions as work, and its workers execute the commands. A worker takes a work
-- under the lock of the queue and does it outside of it, so TcpServer/Workers interleaves the turns
-- of all threads.
--
-- Modelling. Names are the source's, in snake case without the trailing underscore. A shared_ptr is
-- an address; the task objects are the field `tasks` of the manager, so a change of a task is seen
-- through every pointer to it. An operation runs under its lock, so it is one function of the
-- state; the clock is an argument. Counters are natural numbers modulo 2^64; an `int` is kept as
-- its distance from INT_MIN, so its order is the order of the numbers, and the degrees of
-- findCriticalPath are integers. An unordered container is an association list whose order stands
-- for the order of iteration, and a new key comes last. The intrusive list, the stack and the skip
-- list are modelled on a memory of `next` pointers, and a weak exchange may fail any number of
-- times, which is an argument; in Queues/Family a container is the sequence that these structures
-- stand for. The first loop of LockFreePriorityQueue::enqueue has no header in the source and is
-- taken to go from the highest level down to 0.
-- Recursion: a walk of the graph (getSubgraph, hasCycle, calculateTaskLevels) is on fuel, one more
-- than the number of ids that the walk can meet. That is enough because a walk never enters an id
-- twice at a time; the theorems say that the walk ends with that fuel, for calculateTaskLevels on
-- graphs without a cycle. The two loops of findCriticalPath have the same fuel: an id enters the
-- queue once, and the parents of a graph without a cycle do not repeat. batchProcess is on the
-- number of its items, which is enough because no batch is empty, and printing a number (also the
-- length in a header) is on the number itself. The search of the skip list is on the steps of its
-- walk on one level; more than the number of nodes are enough. All other loops are structural.
-- Parameters: the JSON library (JsonLib), RocksDB (RocksDb), the reads of boost::asio (Asio),
-- regular expressions, which files can be written, and the text of CLICommands::generateDOTGraph,
-- which is taken to return (World); Task::markCancelled, QueueManager::pause, resume and
-- tryDequeue, which no source defines; the recorded liveness of weak pointers (`lock`, `alive`),
-- and what a task's function does. The storages of the command pool are taken to be open, which
-- initializeStoragePool does not see to.
--
-- Not modelled: backups and sizes of the database; the acceptor and TLS; concurrent access to the
-- containers without the manager's lock.
mod Prelude
pub mod Task
pub mod Queues
pub mod Graph
pub mod QueueManager
pub mod ThreadPool
pub mod Storage
pub mod CliCommands
pub mod TcpServer
mod Tests
