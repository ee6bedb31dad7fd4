-- ===== src/Lib.antt =====
-- quick-start: a collection of small kernel modules and network programs.
--
-- The parts have no code in common; each is a tree of modules here. Paths are those of the
-- repository.
--
-- MacLimit: dirver/maclimit/maclimit.c, a netfilter module. `Types` has its data and static
-- state, `Hooks` the functions net_hook_func, arpin_hook_func and send_add_opt_to_thread,
-- `Thread` the kernel thread limit_check_func as a step from one program point to the next,
-- `System` the two interleaved with new configurations, `Config` the proc file with the parser
-- write_maclimit_proc, `Lifecycle` nf_init and nf_cleanup, `Load` and `Unload` both over
-- `Installed`, with packets and writes between their statements. A hook runs to its end between
-- two steps of the thread, as on one processor; the thread can be interrupted between any two of
-- its accesses to shared data. A sleep with a timeout ends by itself and is part of the step
-- before it; `schedule` ends only if the task is runnable, which wake_up_process makes it.
-- `kmalloc` may fail at every call; a node's address is the number of its allocation, kept beside
-- the list. simple_strtoul is a parameter, which says of a number that does not end in the buffer
-- that the kernel reads behind it. The proofs: `Scan`, `Verdict`, `Invariant`, `Bound`,
-- `Progress`, `Wakeup`, `Stop`, `Stopping`, `Round`, `Check`, `CheckRound`, `Alloc`, `Options`,
-- `Words`, `Report`; `Terminals` and `Refines` hold the list against a collection of addresses in
-- no order.
--
-- KeyEvent: dirver/keyevent. `Device` has the handlers of module/board_input_dev.c, `Lifecycle`
-- its loading, `Mailbox` the calls of both sides in any order against two mailboxes, `Transfer`
-- what the handlers carry across; `Poll` interleaves the poll system call with the steps of
-- set_trigger_board_input_event_handler; `Trim` and `Process` are process/board_event.c, and
-- `EventDevice` is what the process relies on of the driver, and `Bursts` and `Main` let the two
-- run together. The width of a size_t is an argument.
--
-- Des3: lab/c/des3/des3_encrypt.c, the login message of a network unit. `Base`, `Padding`,
-- `Message`, `Hex` and `Send` follow the functions of the file, and `Fixed` those of its variant
-- des3_encrypt2.c for a name of one size. DES and MD5 are parameters, of which only the lengths
-- of the results are assumed, and for the receiver of `Receive` that decryption undoes the
-- cipher. A write behind the end of a buffer is `none`. `Roundtrip` and `Delivery` are about what
-- is made and sent, `Main` is what the program prints of it and of the file that it reads.
--
-- Speedtest: lab/net/speedtest/speedtest.c, a kernel module that sends packets out of two ports
-- and counts them when they come back. `Types` has its data, with each static variable a field;
-- `Packet` the packet it makes, over the kernel's checksums as parameters; `Hooks` the receive
-- and transmit hooks; `Timer` the loop detection; `Compute` and `Sender` the two kinds of
-- threads; `Command` run_speedtest_by_cmd, with sscanf's result as an argument; `Show` the
-- report; `Module` loading and unloading. A function of the module is one step, but for the loops
-- of the threads: these run over a list of what each iteration meets, and the result says so when
-- a thread still runs behind the list. A division by 0, a thread that is waited for without end,
-- and a thread pointer that is NULL are results. A pointer is as wide as an `unsigned long`.
-- `System` has the steps that the parts take together: a hook, the timer, an action of a thread,
-- and for a command and the end of the counting thread one access to shared data after the other,
-- of one command at a time; in the other modules a command is one step. `Wire` puts a wire
-- between the two ports: packets that are sent come back, are lost or stay on it, in any order
-- with the rounds of the counting thread; `Threads` runs the threads' own functions over it, each
-- sender over what its iterations meet and the counting thread over rounds between which the
-- others go on, before its count and behind it. From its look for the senders to the end of its
-- round, or of its function, the counting thread makes one step. Not modelled: the bytes of a
-- packet whose UDP length does not fit 16 bits. The proofs: `Demux`, `Counts`, `Loopback`,
-- `Sending`, `Rate`, `Wrap`, `Waiting`, `Keeps`, `Restart`, `Recount`, `Probe`, `Unload`,
-- `Report`, `Sound`, `Datagram`, `Conserves`, `Accounts`, `Whole`, and below `Threads` `Sent`,
-- `Views`, `Moves`, `Turns`, `Report`, `Returns`, `Whole`.
--
-- HttpRedirect: lab/net/httpredirect/httpredirect.c, a netfilter module that turns 404 answers
-- into redirections. `Types` has a linear packet with the room behind its payload, and the
-- kernel's functions as parameters; `Rewrite` what http404_nf_cb writes, `Hook` the hook, the
-- proc file with sscanf's result as an argument, loading and unloading. A write behind the end of
-- the buffer is a verdict of its own, and so is a payload of fewer bytes than the 19 that are
-- copied before the search, even where a NUL would end the copy. The proofs: `Memory`, `Checks`,
-- `Redirect`, `Switch`.
--
-- Conntrack: lab/net/pktconntrack/test_conntrack.c, hooks that print a line for one source
-- address. `Address` has ip_str_to_num, over what sscanf converts, and `Hooks` the rest.
--
-- IrqKey: dirver/char_drv_demo, two drivers for a key with an interrupt. `Sig` is irq_sig.c,
-- `Polled` irq_poll.c with one process that may sleep in its read, `Device` and `PolledDevice`
-- opening and loading them.
--
-- Hack: lab/c/hack, exercises for a debugger. `Format` is fmt.c and print.c, `Heap` is heap.c,
-- over what malloc grants. A write behind the end of a buffer, and a conversion without its
-- argument, are `none`.
--
-- Not modelled at all: lab/net/tcpcs, which opens a socket and does not compile; of lab/c/hack
-- the inline assembly of att.c, and exit.c, which only exits; of lab/c/des3/des3_encrypt2.c what
-- follows create_encrypt_data, which does not compile either; the hook of dirver/maclimit that is
-- compiled for debugging only, and the lines that the modules print; the tables that name the
-- handlers to the kernel, but for those of the hooks; the scripts.
pub mod Common
pub mod MacLimit
pub mod KeyEvent
pub mod Des3
pub mod Speedtest
pub mod Conntrack
pub mod IrqKey
pub mod HttpRedirect
pub mod Hack
