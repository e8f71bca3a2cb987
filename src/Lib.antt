-- ===== src/Lib.antt =====
-- A network block device whose blocks are kept by IoT devices. The kernel's block device sends
-- requests over a socket; the server cuts a read or a write into fragments of 1024 bytes, sends
-- fragment after fragment to eight devices in turn, collects their replies and answers the block
-- device. The program is `concrete` over the framework of `framework`, both under final_project.
--
-- The parts of the program and the files that model them:
--   Host, Host/Placement, Host/Coverage, Host/Reply, Host/Replies, Host/Completion,
--     Host/Counts, Host/Defects, Host/Race, Host/Pooled:
--     final_project/concrete/src/RequestHost/RequestHost.cpp. One request. `create_host`,
--     `distribute` and `send_msg_wrapper` are Create, Distribute and SendMsgWrapper;
--     `read_reply` and `peek` are ReadReaply and Peek. The static counter of Create is passed
--     along. A job is the SendMsgInfo_t that Distribute binds; its messages are what its calls
--     of sendmsg gather. `job_function` is the Function that Distribute gives to the thread
--     pool, and Host/Pooled runs these in the pool. Host/Race is a step relation of the workers
--     that take the jobs of a request, their loops, and the replies that are taken; the number
--     of workers is a parameter.
--   Cloud, Cloud/Writes, Cloud/Reads, Cloud/Answers, Cloud/Pooled: Host, Dispatcher and
--     ThreadPool over eight devices. `deliver` lets messages reach the devices one by one, and
--     `disk` is the sequence of bytes that the devices make up.
--   Dispatcher, Dispatcher/Table, Dispatcher/Returns, Dispatcher/Answers, Dispatcher/Served,
--     Dispatcher/Writes, Dispatcher/Serving, Dispatcher/Admitted, Dispatcher/History:
--     final_project/concrete/src/RequestDispatcher. The table of the requests that wait for
--     replies, with NbdRequestsHandle (`nbd_requests_handle`) and IotHandle (`iot_handle`);
--     `handle_arrivals` is a sequence of calls of IotHandle. Serving is a step relation of both
--     handlers, for any number of requests.
--   Server, Server/Connect, Server/Handlers, Server/History, Server/Pooled:
--     final_project/concrete/src/atlas_iots/atlas_iots.cpp. `init_socket` is InitSocket;
--     `open_server` and `server_reactor` are the parts of main that connect the devices and
--     register the handlers of Dispatcher in the reactor. Server/Pooled has the thread pool run
--     the jobs of all requests that were read.
--   Command, Factory: final_project/concrete/src/command and
--     final_project/framework/include/factory.hpp. The two commands, chosen by the type of the
--     request, and the table of their creators.
--   Nbd, Nbd/Bytes, Nbd/Messages, Nbd/Returns, Nbd/Exchange, Nbd/Device, Nbd/Descriptors, Net,
--     Net/Stream, Net/Live, Net/Duplex: final_project/framework/src/nbd/nbd_comm.c and the loops
--     around recv, read and write. `nbd_request_read` and `nbd_request_done` are NbdRequestRead
--     and NbdRequestDone, `nbd_dev_open` is NbdDevOpen.
--   Reactor, Reactor/Rounds, Reactor/Single, Reactor/Kept, Select, Function:
--     final_project/framework/src/rector and final_project/framework/src/function. The event
--     loop, its monitor, and the callable objects that it keeps. `run_round` is one turn of Run,
--     and `run_rounds` a number of turns.
--   BtsQueue, Semaphore, Singleton: the directories BTreadSafeQ, semaphore and singleton of
--     final_project/framework/src. Each is a step relation over any number of threads, which
--     counts the threads at each place of the code; a thread's step is what it does between two
--     places where others may go on.
--   ThreadPool, ThreadPool/Workers, ThreadPool/Moves, ThreadPool/Tally, ThreadPool/Sound,
--     ThreadPool/Drains, ThreadPool/Logs, ThreadPool/ShutDown, ThreadPool/Future:
--     final_project/framework/src/ThreadPool. `task_despacher` is the loop of a worker that is
--     alone with its queue. Workers is the step relation of any number of workers and clients,
--     whose queue makes the steps of BtsQueue; the call of a task is one step of it. Logs
--     follows the messages that tasks hand to the system. Future is the step relation of one
--     task and the clients that wait for it.
--   Observer: final_project/concrete/src/observer/observer.hpp, on a store of the links between
--     both classes.
--   Storage, Storage/Serving: final_project/concrete/src/main/main.cpp, the server that keeps the
--     bytes itself. `handle` is Handle, and `storage_reactor` is the event loop that main runs.
--   Relay, Relay/Answers, Relay/Rounds, Relay/Pool, Relay/Waiting, Relay/Pooled,
--     Relay/FailedSends: final_project/concrete/src/atlas_main and
--     final_project/concrete/src/atlas_ThreadPool, the servers of one device. Their NbdHandle
--     and IotHandle are `relay_nbd_handle` and `relay_iot_handle`; `relay_connect` and
--     `relay_reactor` are the parts of main. Pool is the second program with its thread pool:
--     its handlers and jobs share the requests in memory, and a job reads its request when it
--     runs.
--   Prelude, Run, Assoc, IntSet, Memory: numbers, lists, results, `std::map`, `std::set<int>`
--     and memcpy.
--   Kernels, Examples: a kernel that meets the hypotheses on the parameters, and runs.
--
-- How the parts meet: the reactor calls the handlers of the dispatcher; NbdRequestsHandle reads a
-- request by Nbd, makes its host and gives the jobs to the thread pool; a job makes commands by
-- the factory and sends them; IotHandle peeks at the number of a reply and has the host of this
-- number read it, which answers the block device by Nbd after its last fragment.
--
-- Parameters. `Kernel` holds the system calls on sockets, with the documented effect of a short
-- count on the stream; it may fail at any call. `IsLive` says that its calls do not fail, and
-- `PeeksNumber` that the bytes of a reply's number have arrived when recv peeks at them, and
-- `IsDuplex` that reads and writes leave each other's direction of a socket. `DeviceKernel` and
-- `SocketCalls` hold the calls that open and close descriptors. `NbdAbi` holds the constants and
-- layouts of <linux/nbd.h> and the conversions of byte order; `SelectCall` is select(2);
-- `SendFails` and `SendCall` say which call of sendmsg fails, and `malloced` what a new buffer
-- holds. The steps of Relay/Pool take from malloc an address that is free, and from the device
-- only replies to what was handed to sendmsg. `IotDevice` is the program of a device, of which
-- `IsWired` says that it stores what a write sends it and answers a read with what it holds.
--
-- Conventions. `Run` is a result, a loop that ran out of fuel (`running`), or undefined behaviour
-- or a failed assertion (`fault`); assertions are enabled. Unsigned numbers wrap at their width,
-- by `u32`, and an int is its bit pattern. AtlasHeader_t is 24 bytes, of numbers in little-endian
-- order. A pointer is an address, or a position in a buffer.
--
-- Fuel. A loop over a socket gets one unit for each byte and one more, since each call moves at
-- least one byte or fails; the loop of a job one for each fragment and one more; the scan of the
-- monitor one for each descriptor up to the highest; a worker is given any number above that of
-- its tasks.
--
-- Not modelled: the first lines of main of the storage server, which call NbdDevOpen and return 1
-- where it fails; Cancel of ThreadPool, which has no body; m_alarmUid of
-- the relays, which is never set; the constants of consts; output to the terminal; tests.
pub mod Prelude
pub mod Run
pub mod Net
pub mod Nbd
pub mod Memory
pub mod Assoc
pub mod Factory
pub mod Command
pub mod IntSet
pub mod Host
pub mod Dispatcher
pub mod Function
pub mod Select
pub mod Reactor
pub mod Semaphore
pub mod BtsQueue
pub mod ThreadPool
pub mod Singleton
pub mod Observer
pub mod Relay
pub mod Storage
pub mod Kernels
pub mod Examples
pub mod Cloud
pub mod Server
