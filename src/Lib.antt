-- ===== src/Lib.antt =====
-- OctopusSimulator: a model of the simulator's interconnect, controller queues and caches.
--
-- The program simulates multi-core memory hierarchies cycle by cycle. Processors, cache controllers
-- and the memory exchange messages; buses and links carry them between interfaces, arbiters choose
-- who sends, each controller keeps the messages it received in a queue until they are ready, and a
-- cache data handler stores the lines with a replacement policy.
--
-- The files and the code they model:
--   Common       shared names, lists over the native numbers, Boolean tests, and the relations "one
--                element is taken out of a list" and "out of one of several lists".
--   Message      header/Interconnect/CommunicationInterface.h: the message and its classification.
--   Arbiter      src/Arbiters/: Arbiter::electOldestOwned, and the first-come, round-robin and TDM
--                arbiters. An election returns the message and the senders' buffers without it.
--   Queue        header/FRFCFS_Buffer.h: the queue of a controller. The callback that tells whether
--                a message is ready, and the hold, are parameters.
--   Bus          src/Interconnect/BusInterface.cpp and BusController.cpp; Bus/Split is
--                SplitBusController.cpp, Bus/Unified UnifiedBusController.cpp, Bus/Direct
--                DirectController.cpp, Bus/Triple TripleBusInterface.cpp and the service step of
--                TripleBusController.cpp, Bus/PointToPoint Point2PointController.cpp. A step is a
--                function from the bus before a cycle to the bus after it; the interfaces stand in
--                it as a list, and a bus that exits is none.
--   Replacement  src/ReplacementPolicies/: least recently used and random.
--   Cache        Cache/Line is src/GenericCacheLine.cpp, Cache/Array src/CacheDataHandler.cpp and
--                its header, Cache/Registers and Cache/Accesses src/CacheDataHandler_COTS.cpp and
--                its header: a handler is the array of lines with the miss status holding registers
--                and the pending write-back registers.
--   Protocol     Protocol/Table is src/FSMReader.cpp: the rows of a table from their cells.
--                Protocol/Actions is header/CacheControllers/ControllerAction.h. Protocol/Msi is
--                src/Protocols/MSIProtocol.cpp, Protocol/Mesi is MESIProtocol.cpp there, and
--                Protocol/Llc is LLCMSIProtocol.cpp and LLCMESIProtocol.cpp: the events of messages
--                and the controller actions of transitions. Protocol/Predictable is the P*.cpp and
--                LLCP*.cpp there: the predictable protocols.
--   Memory       src/MainMemoryController.cpp: a memory as a queue of waiting requests, over Queue
--                and Bus.
--   Controller   src/CacheControllers/BaseController.cpp and CacheController.cpp: the state of a
--                cache controller. Controller/Access has the schedule of the data array and the
--                admission tests, Controller/Effects the action functions, Controller/Fire the
--                accesses that waited, and Controller/Cycle a cycle; Controller/EndToEnd is
--                CacheController_End2End.cpp and CacheControllerExclusive.cpp. The two interfaces,
--                the protocol and rand() are a record of operations, a parameter;
--                Controller/Respond takes a bus interface and Controller/Llc a shared cache's
--                protocol for them.
--   Directory    src/Protocols/MSIDirectory.cpp, MESIDirectory.cpp and MOESIDirectory.cpp
--                (Directory/Private), LLCMSIDirectory.cpp, LLCMESIDirectory.cpp and
--                LLCMOESIDirectory.cpp (Directory/Home), and
--                src/CacheControllers/CacheControllerDirectory.cpp (Directory/Agent): the sharers
--                that the home node of a line knows, and the acknowledgements that a private cache
--                waits for.
--   Clock        src/ClockManager.cpp: the events and the step of the clock. The world of the
--                objects is a type, and the periods and the cycles of the objects are parameters.
--   Mesh         src/Interconnect/MeshInterface.cpp, and in Mesh/Link MeshController.cpp and its
--                header: nodes with buffers for each link and links that carry one message at a
--                time. Mesh/Noc is NoCInterface.cpp, NoCController.cpp and the switches of NoC.cpp,
--                and Mesh/Cycle the cycles of Mesh.cpp and NoC.cpp with the links that a topology
--                gives.
--   Cpu          src/CPU.cpp: a core that issues the accesses of a trace or the jobs of a periodic
--                task. The draws of rnd() and the interface are parameters.
--
-- How they meet: a bus elects with an arbiter among the interfaces' send buffers and pushes into
-- their receive buffers; a controller receives from its interface into its queue, and fills its
-- cache when data arrive. The queue asks the protocol whether a message is ready, and the protocol
-- reads the line it is about.
--
-- Numbers: ids, addresses and cycles are unbounded, the bound that the arbiters test, the largest
-- 64-bit number, is written out, and so is what the shifts of calculate_address lose above 64
-- bits. Block size and number of sets are powers of two. A signed -1 that means "none" is an
-- option. A loop is a recursion over the list or the number of rounds that bounds it in the code.
-- Where the code has no such bound, the rounds are fuel, and running out is a result of its own:
-- the step of the clock takes a round for each event, the step of the pipeline one for each access
-- that waits, the loop of a switch one for each message received, the loop of processLogic two for
-- each message that the queue holds as ready and one for each other. pipelineFlushLine takes any
-- fuel: in the occupancy model an access that is fired for a line that has left its register waits
-- again.
--
-- A controller runs without a core model behind m_cpu_port. Its statistics are left out, and so is
-- what an attached core would be told. The message that copy fills has 64 bytes. A call of an
-- action without a function is an exit, and a protocol's message with no event is not ready; a
-- message for which a shared cache's readEvent leaves the event unset has none. Asking whether a
-- message is ready leaves the message as it is: the mark of exclusive data, which
-- MESIProtocol::readEvent clears on the message itself, is modelled in Protocol/Mesi alone.
--
-- Not modelled: what reads the configuration or writes traces and logs, the assembly of systems,
-- the external processor, and the MCsim project and the XML reader, which are copies of other
-- projects; and, so far, ClockManager::run with its triggers in the objects' cycles, the accesses
-- that wait in an end-to-end controller, the private MOESI protocol, and the initial contents of
-- caches.
pub mod Common
pub mod Message
pub mod Arbiter
pub mod Queue
pub mod Bus
pub mod Replacement
pub mod Cache
pub mod Protocol
pub mod Memory
pub mod Controller
pub mod Directory
pub mod Clock
pub mod Mesh
pub mod Cpu
