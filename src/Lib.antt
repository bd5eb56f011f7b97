-- ===== src/Lib.antt =====
-- icmond, a daemon that logs the state of a cable modem at an interval, and suspends, resumes and runs
-- other actions by a schedule of events.
--
-- The parts of the program that are modelled, and how they work together:
--   * EventTypes: the event record, its codes and the two tables that describe them (event.h, event.c).
--   * EventHeap: eventheap.c. g_heap is a block with the size that malloc() made usable, the number of
--     its events, and its slots; `none` is NULL. The functions have the names of the C functions without
--     the prefix eventheap_. An access outside the block or through a NULL slot is a `fault`. Children:
--     Order and Access (what a valid block is), Up and Down (the two repairs of the order), Insert,
--     Fetch, Drain and Level (the operations), Queue (what the operations promise, as a list of times)
--     and Refines (that the heap keeps it).
--   * Text and Text/Trim: the C library's functions on strings that the other parts use.
--   * KeyVal: keyval.c, the reader and writer of "key = value, value" lines of the configuration. A
--     keyval_t is the list of its strings, the key first. Children: TrimCopy, Fields, Create and Bounds
--     (the reader), RoundTrip and Shift (the writers).
--   * Arrays: the arrays of strings of util.c, and keyval_remove_empty_values() of keyval.c, whose loop
--     is that of arrcollapse(). Children: Collapse and Convert (str2arr() and arr2str()).
--   * Event: event.c. Time is __schedule_next_trigger(); Strtol and Parse are event_test_parse(), which
--     turns the event strings of the configuration into g_parsed; Store enters g_parsed into the heap,
--     creates, reschedules and clears events. Proofs are in Accepted, Check
--     and Store/Laws.
--   * Daemon: the state and the handlers of daemon.c, and event_execute() of event.c. State has the
--     steps of the daemon and the states that it reaches, Execute what an event does to the schedule.
--     Pump is the branch for the schedule timer; Due, PumpLaws and Expired are about it. Initialize and InitializeLaws are daemon_initialize(). Reload is handle_SIGHUP(). Rounds is the
--     main loop, over a list of rounds that say what has happened in each; Kept, Branches and RoundsLaws
--     relate a round to the steps of State.
--   * Config: config.c. A configuration is a record; its strings behind pointers are blocks of a heap
--     (Blocks) that cfg_init(), the readers and cfg_commit() allocate and free, and a second free() is a
--     `fault`. Lines and File are cfg_read_file(), Argv the command line, Check is cfg_check(), which
--     hands the event list to event_test_parse(). Proofs: Owned (who frees which string), Range and
--     Reads (what a file may set), Readable and ArgvLaws, CheckedFiles and CheckLaws.
--   * Main: main() of main.c. Main itself goes up to the commit of the configuration; Pointers and Laws
--     say which one the program starts with. Commands is what -createdb, -writeconfig and -testdbwrite
--     do, Predaemon the decision for a ramdisk, Daemonize the fork to the background with
--     daemonchild_handler() and pidfile_lock(); their proofs are in the children with Laws in the name.
--   * User: user.c and file_useraccess() of util.c, on the ids of the process (Credentials). User/Laws
--     assumes what the manual pages say of setreuid() and setregid() for the effective ids (Documented), and
--     of the calls of user_changeto() where they succeed (Identifies).
--   * Ping: icmpecho.c, the echo request and the state of the wait for its reply; Checksum is about
--     checksum().
--   * Datalogger: datalogger.c, the worker process that the daemon forks at each tick. A run is a list of
--     turns of its main loop, each with what pselect() and the calls behind it give. Finish is the record
--     and the result; Turns, TurnLaws, Loop and Result are about the loop and what is stored.
--   * Prelude: numbers, integers, lists, and the results of a call (Prelude/Outcome): it returns, exits,
--     faults, or runs out of fuel. Tests: runs on concrete inputs.
--
-- Loops that are not structural take fuel, and their theorems give enough: one round for each slot
-- above or below the index in the heap, two rounds for each event and one more for the triggered
-- events, one more than the events where the heap is drained, and the cells of the array in
-- arrcollapse(). The main loops of the worker and of the daemon go over the turns or rounds of a run, and
-- are out of fuel where these end before the loop does.
--
-- Parameters: malloc_usable_size() and the size of a pointer (EventHeap.Alloc), localtime_r() and
-- mktime() (Event.Time.TimeZone), the addresses that malloc() chooses for strings (Config.Blocks.Malloc),
-- the file system (Config.Lines.Files, whose answer on access Config/CheckedFiles relates to
-- file_useraccess()) and the lines of a file, the clock, qsort(), and the results of
-- fork(), waitpid(), kill() and of the calls for timers (Daemon.Initialize.Calls); the calls on the ids
-- of the process (User.System); atof(), database_insert() and the double numbers (Datalogger/Finish);
-- whether mounting and SQLite succeed (Main.Predaemon.Services, Main.Commands.Answers).
-- Numbers in event strings are read as a 32-bit long and computed as a 32-bit int that wraps around;
-- time_t is an integer without bounds. Allocation does not fail, and logging is left out, but a message that reads at
-- a number as its string is a `fault` in cfg_read_file() and user_changeto(), and so is one without its string in
-- user_changeto(). user_set_eugid() is modelled as if its message without a string returned.
--
-- Not modelled: cfg_writefile() and cfg_print() of config.c, which print; database.c, which is calls of
-- SQLite; capability.c, tmpfs.c and prostat.c, which are calls of the system; logwrite.c, power.c,
-- ttyinput.c and version.c; the timers, directories and string buffers of util.c; of daemon.c
-- handle_SIGSEGV() and the setup of the signals; the scripts and unit tests.
pub mod Arrays
pub mod Config
pub mod Daemon
pub mod Datalogger
pub mod Event
pub mod EventHeap
pub mod EventTypes
pub mod KeyVal
pub mod Main
pub mod Ping
pub mod Prelude
pub mod Tests
pub mod Text
pub mod User
