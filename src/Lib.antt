-- ===== src/Lib.antt =====
-- PLR runs a program in several redundant processes and compares their library calls. The processes
-- share an area of memory (plrCommon/plrSharedData.c) and meet at a barrier (plrCommon/plr.c) in
-- every library function that is overridden (plrPreload). There they compare the arguments that
-- they have recorded (plrCommon/plrCompare.c), a process that disagrees or that does not come is
-- killed and replaced by a copy of another one, and one process, the master, does the call for all;
-- the slaves take its result from the shared area.
--
-- Files and what they model:
--
-- Compare      plrCommon/plrCompare.c: `syscallArgs_t` and `plrC_compareArgs`
-- SharedData   plrCommon/plrSharedData.c: the records, `plrSD_initProcData`, `plrSD_freeProcData`, ...;
--              SharedData/ExtraShm: `plrSD_resizeExtraShm`, `plrSD_refreshExtraShm`, and
--              `plr_copyToShm` and `plr_copyFromShm` of plrCommon/plr.c;
--              SharedData/Names and SharedData/Mapping: the shared file, with `plr_figureheadInit`
--              and `plr_figureheadExit` of plrCommon/plr.c
-- Core         plrCommon/plr.c: State (the processes and the shared state), Replace
--              (`plr_replaceProcessIdx`, `plr_forkNewProcess`), Vote (`plr_checkSyscallArgs_act`),
--              Barrier and Wait (`plr_waitBarrier`, `plr_watchdogExpired`), Entry (the functions that
--              the overriding functions call), Init (`plr_processInit`); Majority,
--              Recovery, Deadline, Places, Invariant and Reach hold the proofs
-- Preload      plrPreload: Crc (crc32_util.c), Wrapper (what the functions share, and the flag
--              `insidePLR` of plrCommon/plr.c), ReadWrite, Group (a call in all
--              processes), Files, Process and Streams (Blocks, Chars, Lines, Seek,
--              Format and Named; Agree, Keeps, Sought, Items, Deliver, Together, Once,
--              Texts and Laws hold the proofs)
-- Figurehead   plrMain.c: Options (the loop over the options), Command (`startFirstProcess`), Main
--              (`main`); Argv, Settings, Outcomes and Runs hold the proofs
-- FaultInjection
--              pinFaultInject/pinFaultInject.cpp: the choice of the process and the count of
--              events, Registers (the flipped bit), Instrument (images and modes); Turns, Flips and Images
--              hold the proofs
-- Util         plrCommon/timeUtil.c, plrCommon/stringUtil.c and plrCommon/plrLog.c
-- Examples     runs on concrete inputs
--
-- A process holds the lock of the shared area from `pthread_mutex_lock` to the next wait, unlock or
-- end. Such a section is one function from state to state (Core/Wait), and the processes take
-- sections in any order (Core/Reach): a process enters the barrier, one that waits or has been
-- forked takes the lock again, by a signal, a timeout or for no reason, or one ends outside of the
-- barrier. A process that ends with the lock held sets `lock_lost`, after which no section begins.
-- Action functions of callers are parameters that leave the fields of the barrier alone. A process
-- that was released but has not left the barrier may be killed by the watchdog of another one, and
-- its counter then stays one too high; the theorems on runs assume `AllPrompt`, that in the run no
-- watchdog acts, and no child that it has forked joins, in that time.
--
-- The wait loop of the barrier has no bound in the source. In one section it has at most two rounds
-- up to the next wait, return or end, because a replacement sets `restoring`, which stops a second
-- one; the model gives it two rounds and an outcome `out_of_fuel` beyond, and that this is never
-- reached is proved. The loop of `wait` in the figurehead runs on fuel, of which more than the
-- number of children is enough.
--
-- Counters and pids are natural numbers and return values integers, without the bounds of `int`.
-- Sizes of shared memory are converted to `int` where the source does so, and sums and products of
-- times wrap around as `long`. Masks and hashes are numbers with the operations on bits written
-- out. System calls and libc are parameters: `fork` gives pids, libc is a record of functions, and
-- the outcome of mapping memory is a record of flags; `kill` ends the processes that POSIX says it
-- names. A field of a structure in the extra area takes one cell; a copy outside of the mapping
-- ends the process. The `malloc` of the figurehead is assumed to succeed where `main` is
-- considered.
--
-- Each process has its own world, with the offsets of its files: that forked processes share the
-- offset of a file that was open before is not modelled, and the theorems on streams and
-- descriptors are about files that are not shared in this way.
--
-- Not modelled: the text of messages and of the log, `tspecToFloat`, the lookup of libc functions,
-- Pin and its second tool.
pub mod Prelude
pub mod Compare
pub mod SharedData
pub mod Core
pub mod Util
pub mod Preload
pub mod Figurehead
pub mod FaultInjection
pub mod Examples
