-- ===== src/Lib.antt =====
-- DRAMsim3: a cycle accurate model of a DRAM memory system.
--
-- One controller works for each memory channel. It takes transactions, keeps those of one address
-- together, turns them into commands for the banks (`TransToCommand`), and puts these into command
-- queues, one for each bank or rank. In each cycle it asks for the next command: a pending refresh
-- goes first, else the queues are searched in turn. The channel state says which command a bank
-- needs before the one that is asked for (an activation, a precharge), and whether its time has come;
-- a command that is issued changes the states of the banks and delays the commands after it by the
-- tables of the timing. What is done is returned at its cycle.
--
-- The files, and what of the program they model (paths from the repository's root):
--   Common       src/common.h: Address, Command, Transaction and the predicates on commands
--   Bank         src/bankstate.h, src/bankstate.cc: GetReadyCommand, UpdateState, UpdateTiming of a bank
--   Config       src/configuration.h: the parameters; Config/Mapping is AddressMapping of
--                src/configuration.cc and GetChannel of src/dram_system.cc, Config/Setup is
--                CalculateSize and SetAddressMapping with LogBase2 of src/common.cc, Config/Read is
--                the constructor with what it reads
--   Timing       src/timing.h, src/timing.cc: the five tables of delays
--   Channel      src/channel_state.h, src/channel_state.cc: the banks of a channel. Channel/Ready is
--                GetReadyCommand, Channel/Update is UpdateState and UpdateTimingAndStates, Channel/Delays
--                is UpdateTiming with its five loops, Channel/Windows the activation windows (tFAW,
--                t32AW), Channel/RefreshQueue the refreshes that wait
--   Refresh      src/refresh.h, src/refresh.cc: ClockTick, InsertRefresh, IterateNext
--   Queue        src/command_queue.h, src/command_queue.cc: Queue/Arbiter is GetFirstReadyInQueue with
--                its tests, Queue/Issue is GetCommandToIssue and FinishRefresh
--   Stats        src/simple_stats.h, src/simple_stats.cc: the counters that the controller writes;
--                Stats/Histogram is AddValue, UpdateHistoBins and GetReadLatency on one histogram,
--                Stats/Totals UpdateCounters with the rest of UpdateEpochStats and UpdateFinalStats that
--                is on integers, Reset and the getters
--   Controller   src/controller.h, src/controller.cc: Controller/Issue is IssueCommand,
--                Controller/Schedule is ScheduleTransaction, Controller/Tick is ClockTick
--   System       src/dram_system.h, src/dram_system.cc: System/Jedec is JedecDRAMSystem, System/Ideal is
--                IdealDRAMSystem; what their callbacks are called with is a list
--   Hmc          src/hmc.h, src/hmc.cc: Hmc/Packets is the requests and responses, Hmc/Crossbar the
--                loops of DrainRequests and DrainResponses over the queues with BuildAgeQueue, Hmc/Cube
--                the state, the constructor and the insertions, Hmc/Cube/Cycle the cycles
--   Cpu          src/cpu.h, src/cpu.cc: the front ends that make or read transactions, for any memory with
--                the operations of src/memory_system.cc; Cpu/Systems fills these in
--   Prelude      shared names, integers, loops and lists
--   Tests        a small configuration, and runs at concrete inputs
-- The other modules below these hold lemmas and theorems about them, and are named for what they prove.
--
-- How the code is modelled. The state of a component is a record; an operation is a function from the
-- state to the next one. `none` is a process that ends (`AbruptExit`, `exit(1)`) or an index out of
-- range. The counted loops are `for_range` and `for_range?`; the loops over a vector with an iterator
-- are recursion on what is left of it, beside what has been passed; `GetCommandToIssue` recurses on the
-- rounds that are left, one for each queue, as in the source, so that no fuel can run out. The
-- loop that empties a return queue has one round more than the queue has entries. In the memory cube
-- the loop over the links has a round for each link, and the loop that lets the logic clock catch up
-- one for each picosecond that is missing; a result of these loops is proved to be there. A
-- `uint64_t` wraps at 2^64; the parameters and counters of type `int` are natural numbers, without
-- a bound. Vectors whose size the configuration gives are functions of the index, beside a check of
-- the range. A multimap from addresses is a list in the order of insertion. References that
-- components share (the channel state in the command queue and the refresh, the statistics) are passed
-- in and handed back.
--
-- The reader of the configuration file (INIReader) is a parameter: a function from a section, an option
-- and a default to a value. So are the random numbers of the front ends, a function from their place
-- in the sequence; a trace is the list of its transactions.
--
-- Not modelled: the epochs that the DRAM systems print, the command line (src/main.cc), and everything
-- on floating point numbers: the power and thermal models and the statistics that are printed.
pub mod Prelude
pub mod Common
pub mod Bank
pub mod Config
pub mod Timing
pub mod Channel
pub mod Stats
pub mod Refresh
pub mod Queue
pub mod Controller
pub mod System
pub mod Hmc
pub mod Cpu
pub mod Tests
