-- ===== src/Lib.antt =====
-- Verification of py-lwip: Python bindings of the lwIP network stack, with hosts that each run a
-- stack of their own and an ethernet bus that joins them.
--
-- The parts of the program, and the modules that model them:
--   lwip_py/utility/scheduler.py         Scheduler: Task and Queue (TaskQueue), Future, Executor
--                                        (SingleThreadExecutor), Lock (ScopedUnlocker)
--   heapq of the standard library        Heapq
--   lwip_py/utility/address_helpers.py   Utility.Address
--   lwip_py/utility/ctypes_helper.py     Utility.Ctypes
--   lwip_py/utility/ctypes_lib_loader.py Utility.Loader
--   lwip_py/stack/ip_address.py          Stack.Address
--   lwip_py/stack/memory_allocator.py    Stack.Allocator
--   lwip_py/stack/udp_socket.py          Stack.UdpSocket
--   lwip_py/stack/ping_client.py and
--   lwip_lib/src/ping_result.c           Stack.PingClient
--   lwip_py/stack/netif.py               Stack.NetIf
--   lwip_py/stack/stack.py               Stack.LwipStack (the interfaces), Stack.Makers (init and
--                                        the make_ methods, with Stack.Functions)
--   lwip_py/stack/exceptions.py          Stack.Errors
--   lwip_py/emulation/ethernet_bus.py    Emulation.EthernetBus
--   lwip_py/emulation/host.py            Emulation.Host
--   lwip_py/emulation/ethernet_network.py  Emulation.Network
--   lwip_py/output/ethernet_recorder.py  Output
--   lwip_py/examples/examples.py         Examples.UdpPingPong (_UdpPingPongApp),
--                                        Examples.IcmpPing (_PingApp)
-- Definitions keep the names of the functions that they model. Private functions lose the
-- underscore: _process_task is `begin` (up to the action) and `finish` or `escape` (after it),
-- _wait_for_task_to_process is `wait_round`, _process_expired_tasks is `take_expired`, _broadcast is
-- `run_broadcast`, _link_output_wrapper is `link_output_wrapper`.
--
-- How the parts interact. A host and the bus each own a SingleThreadExecutor. An interface gives
-- an outgoing frame to the bus, which schedules a broadcast in its own executor; the thread of the
-- bus asks the filters, tells the observers, and calls on_incoming_data of each host that has an
-- interface on the bus other than the sender; that schedules input_data in the executor of the
-- host, whose thread hands the frame to the lwIP library.
--
-- State and concurrency. An Executor is the queue, the status, the counter of tasks, the futures
-- and the place where the thread is. The condition variable makes each call of a client, and each
-- stretch of the thread between two waits or actions, one step; an execution is a list of events
-- (Scheduler.Executor.Events), and theorems on executions hold for all of them. Time is the
-- number of ticks of the monotonic clock, and moves by events. A shutdown of a network interleaves
-- events of the bus, of the hosts and of the caller of stop (Emulation.Network.Stopping); the
-- traffic between the bus and one host interleaves the events of both (Emulation.Network.Traffic).
-- The thread on its own, without further calls, is a function of the number of its turns
-- (Scheduler.Executor.Turns). The mutex itself, with ScopedUnlocker, is in Scheduler.Lock, where
-- `run` is one function and an action may take the mutex.
--
-- Exceptions are values: `Outcome` for the heap, `Reply` for schedule_delayed, `Ran` with the world
-- that the call left for everything else, and `none` where only one exception can be.
--
-- Numbers are native; `abs_time` and counters are unbounded as in Python, c_uint32, c_uint16 and
-- c_uint8 are cut to their bits where ctypes cuts them. Strings are lists of ASCII codes.
--
-- Recursion on fuel, and why it is enough: siftdown and siftup get the length of the heap, as each
-- round moves to a parent or a child; pop_loop gets the length of the queue, as each round removes
-- an entry; `bitwise` gets the sum of its arguments, which is zero before the fuel is; `decimal`
-- gets the number itself, which has no more digits; take_turns gets five turns for each task of the
-- queue and two more, as a task is waited for, taken, begun, ended and followed by another round.
--
-- Parameters. How Python orders two calls (`compare_calls`), the callables of clients, the names that
-- tempfile chooses, and the lwIP library: `Lwip` are its calls on buffers and UDP, `NetIfCalls` those
-- on interfaces; `Fills` and `Owns` are what its documentation says of the length and the content
-- of chains of packet buffers, and of who holds them.
--
-- How fine the steps are. The end of an action, from set_result to the finally clause, is one step,
-- though a client can call between; Scheduler.Executor.Ending shows that such a call could as well
-- come first. A broadcast to all interfaces is one step of the bus, though the threads of the hosts
-- run between its calls. Each call only puts a task into the queue of one host, so what a host does
-- between the calls of others could as well come before or behind them; what a host with several
-- interfaces on the bus does between its own calls is left out.
--
-- Not modelled: failures to copy or load the shared library; the declarations of C structures and
-- the casts between Python and C; the C port in lwip_lib; the scenarios, the command line and the
-- printing of the examples.
pub mod Prelude
pub mod Heapq
pub mod Scheduler
pub mod Utility
pub mod Stack
pub mod Emulation
pub mod Examples
pub mod Output
