-- ===== src/Lib.antt =====
-- FairMQ: the state machine of a device, the control of it by plugins, the channels with their
-- endpoints, its properties, the loading of plugins, the queue of states of a controller, the messages,
-- regions and sessions of the shared memory transport with their monitor, and the semaphore.
--
-- Parts and how they interact. A device runs a state machine. Requests for a transition
-- (fairmq/StateMachine.cxx, ChangeState) come from any thread, also through the plugin services
-- (fairmq/PluginServices.cxx), which let one plugin at a time change the device. The worker thread
-- (ProcessWork) takes the pending state and calls the handlers. While it initializes, the device
-- validates and attaches its channels (fairmq/Channel.cxx, fairmq/Device.cxx). A controller waits for
-- states in a queue (fairmq/StateQueue.h). The properties of a device (fairmq/ProgOptions.cxx) hold,
-- among others, the settings from which its channels are made. Messages of the shared memory transport
-- (fairmq/shmem/Message.h) share buffers by reference counts, which lie in the buffers
-- (fairmq/shmem/Common.h) or in a segment of an unmanaged region; a region's blocks go back to its
-- owner in bunches (fairmq/shmem/UnmanagedRegion.h). The manager of a process finds regions by their
-- ids and allocates buffers (fairmq/shmem/Manager.h); the last manager of a session removes what the session has left, and the
-- monitor (fairmq/shmem/Monitor.cxx) does so when the devices are gone.
--
-- Files.
--   States, States/Names: the states, the transitions and their names (fairmq/States.h, States.cxx).
--   Fsm: the machine's fields, the table `row` and the actions. boost::msm, which is not part of the
--     repository, is the record Engine: what process_event does for a state and an event that the
--     table has, has not, or that the terminate state blocks.
--   Fsm/Request: ChangeState, one step under the mutex. Fsm/Worker: ProcessWork as a step relation
--     `Step` with requests between any two steps of the worker, and `Reachable`.
--   Fsm/Handlers: the two handler slots. Fsm/Subscriptions: subscriptions under keys, with
--     boost::signals2 as a parameter.
--   Plugins: take, steal, release and ChangeDeviceState (fairmq/PluginServices.cxx).
--   Plugins/Loading: the search paths, the loading, the order and the making of plugins
--     (fairmq/PluginManager.h, fairmq/PluginManager.cxx); the file system, boost::dll and the plugins'
--     own functions are the record Host.
--   Plugins/Shutdown: the controller that shuts a device down (fairmq/plugins/control/Control.cxx)
--     beside the device, as a step relation. The device may end its run by itself; it changes its state
--     and pushes the new one to the controller's queue in two steps.
--   Channel: the record of settings, constructors, setters, Init. Channel/Endpoint, Name, Validate:
--     Validate. Channel/Bind: BindEndpoint. Channel/FromProperties: the constructor from properties.
--     Channel/Compatibility: the checks before Send and Receive.
--     boost::algorithm::split, the calls of sockets and the random ports are arguments.
--   Device/Init: the channels that InitWrapper makes of the properties, with their names and counts as
--     arguments, and where they go (Init/Placed).
--   Device/Attach: AttachChannel and AttachChannels. Device/Connect: the attempts of BindWrapper and
--     ConnectWrapper, whose passes may each meet another network.
--   StateQueue: Push and WaitForState as steps of a controller. StateQueue/Custom: WaitForStateOrCustom,
--     whose condition other threads set.
--   Shmem/Store: the reference counts by their keys, and the blocks given back. Shmem/Message: a
--     message's fields and its operations, each from a message and a store to what is left and the
--     exception, if any; the results of boost::interprocess's allocators are arguments.
--   Shmem/Header: the layout of a buffer. Shmem/Acks: ReleaseBlock, SendAcks and ReceiveAcks as steps
--     on the list of blocks and the message queue, which is a list of at most 1024 messages in order.
--   Shmem/Regions: CreateRegion, GetRegion and RemoveRegion on what the processes of a session share and
--     on the maps of one manager, with the constructor and destructor of a region. Shmem/Regions/Cache:
--     GetRegionFromCache, Cache/Live calls of all threads that do not overlap, and Cache/Stale a
--     RemoveRegion during the call of another thread. Shmem/Regions/Events: the
--     thread that reports regions. Shmem/Allocate: the loop of Allocate.
--   Shmem/Socket: Send and Receive of the shared memory transport (fairmq/shmem/Socket.h) over the
--     sequence of the results of libzmq's calls; `attempts` is the loop that the four functions share.
--   Zmq/Message, Zmq/Socket: the messages and the sockets of the ZeroMQ transport (fairmq/zeromq/Message.h,
--     fairmq/zeromq/Socket.h) over what malloc and the calls of libzmq give; Socket has the passes over
--     the parts of a message, which share ShouldRetry with the shared memory transport. Zmq/Containers:
--     Send and Receive of a container, whatever its size. Zmq/Peers: the count of connected peers
--     (fairmq/zeromq/Common.h).
--   Shmem/Lifetime: managers that open the management segment, count themselves in and out, and the
--     removal by the last one (fairmq/shmem/Manager.h), as a step relation on the managers of a session.
--   Shmem/Monitor: what Cleanup removes and what is present (fairmq/shmem/Monitor.cxx); the operating
--     system is the record Os, with its documented behaviour in Documented; Removed names the
--     objects that are gone after Cleanup. Shmem/Monitor/Watch: the loops of Watch and CheckHeartbeats, a pass of Watch in two steps.
--   Config: setting, updating and deleting properties, with the events sent (fairmq/ProgOptions.h,
--     fairmq/ProgOptions.cxx). Config/AddChannel: AddChannel and GetChannelInfo. The table of the types
--     of properties (fairmq/Properties.h), to which programs add types, is an argument.
--   Config/Parser: from the tree of a configuration to the properties (fairmq/JSONParser.cxx); the tree
--     of boost::property_tree is the record Ptree. Device/Init/Parsed: from there to the channels.
--   Tools/Semaphore: Wait and Signal as events.
--   Prelude: names of the libraries, tests on numbers, lists and integers. Tests: concrete inputs.
--
-- Bounds and fuel. Numbers are natural; reference counts are taken modulo 2^16 and the semaphore's
-- count modulo 2^64, as in the code. The theorems on messages ask for fewer live messages than a
-- 16-bit count can count. The loop of BindEndpoint has the 1000 attempts of the code. WaitForState is
-- a sequence of rounds, and its termination is stated for the number of rounds that it takes. The
-- counters of regions and events wrap around as in the code. ConnectWrapper has fuel for the number of its
-- passes, which its timeout gives. Send of several ZeroMQ parts has fuel for its passes, which a timeout bounds
-- (Zmq/Socket/Ending), Receive for its calls. The fuel of Allocate and of the attempts of a
-- socket is the number of attempts; with a negative timeout, or maximum of attempts, there is no bound.
--
-- Not modelled: logging and the text of exceptions, libzmq, the poller and the context of the
-- ZeroMQ transport, the operating system (segments, processes, interfaces), the parsers of the command line, the devices' run loops,
-- which call user code, and what the monitor prints and resets.
pub mod Channel
mod Prelude
pub mod States
pub mod Fsm
pub mod Plugins
pub mod StateQueue
pub mod Tools
pub mod Device
pub mod Shmem
pub mod Zmq
mod Tests
pub mod Config
