-- ===== src/Lib.antt =====
-- The TRISTAN Trace-FS demonstrator: the firmware of its RISC-V core, and the host tools that load
-- it and take its trace apart.
--
-- The firmware (firmware/emsa5) starts the drivers of hal/, then runs the tasks of scheduler.c. A
-- timer interrupt enters `handle_trap` of handler.c, which acknowledges it through the drivers and
-- calls `scheduler_next`; this fills the slots of a queue that `scheduler_run` empties. Before each
-- task `scheduler_run` writes the task's id to the trace unit through hal/ctrace.h. The unit's UDP
-- datagrams are logged by tools/udplog, and tools/udp2nexus splits the log into binary files.
-- tools/mem_loader puts binaries into the core's memory through /dev/mem, and dumps it.
--
-- Which file models which part:
--   Base        shared names: lists, Boolean tests, words, and integers in two's complement.
--   Bits        `&`, `|` and shifts of numbers as sums of fields.
--   Ctrace      hal/ct_csr.h (Register), hal/ctrace.h (Emit) and asw/ctrace_test (Test). A call is
--               the list of its CSR writes. Protocol is a receiver written from the comment on the
--               protocol in ctrace.h, and Call says what each call means. Plain is the view
--               of the commands that carry no data; Test.Phases is what each call of the test
--               program sends.
--   Hal         hal/timer.c, irq.c, gpio.c, led.c, core.c, heartbeat.c and their register structs.
--               The peripherals are a parameter `Bus`; what the drivers rely on is a record of laws
--               (`IsTimer`, `IsGpioData`, `IsIntc`, `IsGpioPort`), which Tests fills with concrete
--               boards.
--   Scheduler   scheduler.c. Run is the main loop as a machine: one step ends at each volatile
--               access, so a schedule is a list of main steps and ticks in any order. In the
--               machine a task has the effect of its function on the scheduler, `enter`, and the trace
--               holds the writes of the loop only; System has those of the tasks too. Alternative
--               is the body of the loop behind `#else`.
--   Tasks       task_5ms.c, task_10ms.c, task_100ms.c and task_1000ms.c: the functions themselves,
--               over the drivers and the demonstrator, against `enter`.
--   Trap        handler.c, over the drivers, the scheduler and the application's routine. Board is
--               what the handler relies on of the peripherals. Interruptible is a bus on which any
--               traps happen before each access, so that a driver runs on it with traps in between. Entry
--               is trap.s, on the registers and the memory, and Nested a trap in its epilogue.
--   System      the main loop with the functions of the tasks as steps, and the trap handler, on
--               what the peripherals have become, between any two of the steps. Told says what a
--               receiver of the trace is to read, and Start puts the start of the firmware in front.
--   Interleaved the same with the functions of the tasks cut at their accesses (Tasks.Accesses), so
--               that a trap may come between any two of these too. Atomic relates the two where no
--               trap comes within a function.
--   Boot        fw.c: the initialisations of `main`, and a round of `blinkenlights`. Stages is the
--               start with traps between its statements; Slots and Booting are what holds of the queue and
--               the ticks at each stage of it, from whatever memory held.
--   Asw         asw/scenarios_a3: minmax.c and `ISR2_minmax` (Minmax), trace_contexts.c (Contexts),
--               and `f` and the tasks' routines of scenarios_a3.c (Scenarios), where `none` is what
--               C leaves undefined.
--   Udp2Nexus   tools/udp2nexus/main.c: `next_entry` and `parse_file` over the bytes of a log. Log
--               describes a log of datagrams, and the files that it should give; Console is what
--               the program prints. The host decides which files `fopen` opens, and how many bytes
--               `fwrite` takes; `whole` is the host that takes all. A write from behind the buffer,
--               which C leaves undefined, ends the run without a return (`fault`); Short says which logs
--               may come to one.
--   DevMem      tools/mem_loader/mem_loader.c (Load) and mem_dump.c (Dump), over a window as a
--               list of words. What the operating system answers is a record `Calls`. Journal is
--               what both programs acquire, release and report, in order.
--   Tests       inputs at which the theorems apply.
--
-- A C integer is a native number with its wrap written out, and a signed one is an integer that is
-- wrapped where it is stored: the firmware's compiler, CompCert, defines signed overflow so. Two
-- loops run on fuel: `entries` gets one more than the bytes of the log, and an entry that is
-- followed by another takes at least 16 of them; `core_busy_waiting` is told its rounds, and gets
-- fuel for one more.
--
-- Not modelled: the texts of the tools' messages; the assembler of boot.s, of start.s and of the
-- vector table; the Dhrystone copy, which is a parameter of Tasks, as is the assembler test; traps
-- within code that shares nothing with the trap handler (the sorting, the vector code, the rounds of
-- the waiting, and the writes of the trace test are one access each in Tasks.Accesses); the scripts;
-- and the trace unit itself.
pub mod Base
pub mod Bits
pub mod Ctrace
pub mod Hal
pub mod Scheduler
pub mod Udp2Nexus
pub mod DevMem
pub mod Asw
pub mod Tasks
pub mod Trap
pub mod Boot
pub mod System
pub mod Interleaved
pub mod Tests
