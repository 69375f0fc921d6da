-- ===== src/Lib.antt =====
-- oflops-turbo: a framework that measures OpenFlow switches, and cbench, which measures controllers.
--
-- A test runs as a few threads that share a context: one runs timed events, one talks to the switch,
-- one generates packets, one captures them. What this library models is the setup of a run, these
-- threads and the code under them, in C and, for the control channel, in C++:
--   * Time (utils.c): arithmetic on `struct timeval` and `struct timespec`, and `timercmp`. Each of
--     add_time, add_timespec, time_diff, timespec_diff and time_cmp is a function of that name.
--   * EventQueue (wc_event.c): the binary heap of timed events. wc_event_add, wc_queue_extract,
--     wc_event_remove, heapify and verify_heap keep their names; the array is a function from slots,
--     and an access outside of it is the end `fault`. EventQueue/Signal has the SIGALRM style of
--     running events.
--   * Timer (timer_event.c, and event_loop of wc_event.c): the thread that hands the timed events to
--     the test module. It uses EventQueue, and a run is a sequence of clock readings.
--   * MsgBuf (msgbuf.c): the growing byte buffer between sockets and messages.
--   * Msg (msg.c): the builders of OpenFlow messages, on the fields of the structs, and in Msg/Probe
--     generate_packet and extract_pkt_id, on bytes.
--   * Generator (traffic_generator.c): which packet of the user-space generators is sent next.
--     Generator/Packets has how a packet is built and what send_pkt (here `send_from`) changes in it,
--     Generator/Checksum ip_sum_calc of utils.c, and Generator/Extract extract_pktgen_pkt.
--   * PcapTrack (pcap_track.c): the ring of OpenFlow messages that were seen in captured packets.
--   * Setup (context.c, channel_info.c, usage.c, and load_test_module of module_run.c): the context
--     that the command line and the configuration file fill. Setup/Args is parse_args, Setup/Config
--     load_config_file, Setup/Objid my_read_objid.
--   * ModuleRun (module_run.c): the thread that captures packets, as test_module_loop over what `poll`
--     and the capture libraries return.
--   * Control (control.cpp, module_default.c, test_module.c): what happens to a message of the switch.
--   * Lifecycle (oflops.c, test_module.c): the tests of a run, one after the other, with the flags that
--     end the threads. Its rounds are those of ModuleRun and Timer.
--   * FakeSwitch (cbench/fakeswitch.c): the emulated switch that cbench shows to a controller. It
--     keeps two buffers of MsgBuf, answers messages, sends probes and counts the answers.
--   * Cbench (cbench/cbench.c): the tests of growing sets of emulated switches.
--   * Options (cbench/myargs.c): the table of command line options of cbench.
--   * Modules (example_modules): four of the tests that the library loads. EchoDelay
--     (openflow_echo_delay/echo_test.c) measures the control channel; EchoDelay/Minute runs it with
--     Timer and EventQueue, and EchoDelay/Frame and EchoDelay/Report go from captured packets to what
--     is reported. FlowTimer (openflow_timer/timer.c) and Reactive (openflow_reactive/reactive.c) file
--     the packets of Generator under flows. ActionDelay (openflow_action_delay/action_delay.c) is how
--     that module reads a list of actions. Modules/Params is the loop of `init`, which the modules in
--     C share. A handler of a module keeps its name, and takes and returns the global variables of its
--     file as a record, with the timers of the context.
--   * Base: helpers. Base/Runs has the ends of a C call: a value, `aborted` (a failed assertion or
--     `exit`), `fault` (an access outside of an array, or to freed memory), and `out_of_fuel`, which only
--     the model has.
--
-- Where the C code loops, the model recurses on fuel, and gives it the size of the heap plus one
-- (heapify, sift_up), the index plus one (fix_up), the bytes that are buffered plus one (read_loop),
-- the length of the packet plus one (add_loop), the length of the object id plus one (objid_loop),
-- twice the number of modules plus two (load_modules), the bytes of memory from the argument on plus
-- one (params_loop), the length of the value plus one (read_actions), or four (the carries of
-- ip_sum_calc).
-- Theorems that state that a call returns show that this is enough. A loop that ends when the world
-- says so (msgbuf_write_all, event_loop, test_module_loop, run_test of cbench.c, drain) runs over the
-- list of what the world answers.
--
-- Parameters are `timersub` of the C library, what `malloc` returns, what the sockets and the clocks
-- answer, the numbers and sizes of openflow.h, what `getopt_long` and libconfig return, `strtol`,
-- `strtoll` and `inet_addr`, and the operations on `double`. The functions of the system that may fail
-- for lack of memory do not fail, and whether `setitimer` does is a parameter. An `int` that passes
-- 2^31 is modelled only where the code converts to it, and in MsgBuf/Fifo, where it is a fault. Locks
-- are not modelled: a call runs alone.
--
-- Not modelled: the traffic generators of the kernel and of the NetFPGA card, which write to files
-- and registers; setup_channel, the sockets of test_module.c, and the connection of cbench to the
-- controller, which are calls of the system; the mean and deviation that cbench prints, and the
-- statistics that gsl computes for a module; the handlers of ActionDelay and the other modules of
-- example_modules, which have the same shape; the connection of control.cpp, a C++ library; logging and
-- SNMP, which are I/O; and the driver of the NetFPGA card in pkt_gen.
pub mod Base
pub mod FakeSwitch
pub mod Cbench
pub mod Options
pub mod Setup
pub mod ModuleRun
pub mod Control
pub mod Lifecycle
pub mod Modules
pub mod Generator
pub mod Time
pub mod EventQueue
pub mod Timer
pub mod MsgBuf
pub mod Msg
pub mod PcapTrack
