-- ===== src/Lib.antt =====
-- sdplane: a data plane on DPDK that sends and serves PCIe transactions over Ethernet (NetTLP), with
-- a command shell on the console and over telnet.
--
-- The parts, and the file that models each, with what it has of the code:
--   Vector        lib/zcmdsh/vector.c: the growing array of pointers under the command tree and the
--                 history of the shell. A vector is its array, limit and size; each vector_<name> is
--                 the function <name>, its retries the fuel that the code counts too.
--                 Vector/Whole has the functions that walk whole vectors, one of its children each
--                 group of them: vector_head and vector_next, the copies, the merges.
--   Tlp           sdplane/tlp.h and sdplane/nettlp_support.c: the headers of PCIe transactions, and the
--                 byte enables, length and address that the two ends compute from them. Each tlp_<name>
--                 is <name>. Tlp/ByteOrder is the interface to the byte order of the machine, the laws
--                 of htons and ntohs and their kin, which the definitions take as `net`.
--   Dma           sdplane/nettlp.c: nettlp_send_dma_write and nettlp_send_dma_read up to the packet and
--                 its transmission. Dma/Psmem is the pseudo memory that serves the other end, with
--                 nettlp_psmem_mwr, and in its children nettlp_psmem_mrd and nettlp_psmem_receive
--                 (Reply, Rounds). The sender builds its header by Tlp, the receiver reads it by Tlp.
--   Shell         lib/zcmdsh/shell.c: the line editor, each shell_<name> the function <name>. Shell/Words
--                 has its word functions, Shell/Keys the key functions of lib/zcmdsh/shell_keyfunc.c.
--                 Shell/Held says what line a shell holds, Shell/Screen what a terminal makes of the
--                 bytes written.
--   Telnet        lib/zcmdsh/shell_telnet.c and shell_input: a session reads a byte at a time by the
--                 keymap in force, as vty_shell and command_shell_create fill them, and hands the
--                 bytes of the line on to Shell.Keys. Its Host has what the key functions of
--                 lib/zcmdsh/command_shell.c do to a session (execute, complete, list, history) and
--                 the text of a line of debug output, about which nothing is assumed.
--   Threads       sdplane/thread_info.c: the table of the threads that run, thread_<name> as <name>.
--   Rib           sdplane/rib.h and rib_manager.c: the information base that the manager publishes to the
--                 packet threads, and rib_check. Rib/Messages has rib_manager_process_message, each case
--                 a function, Rib/Moves the command set thread of sdplane/queue_config.c, whose table a
--                 message carries to the manager. Rib/Sorting has what the check relies on in qsort.
--   Repeater      sdplane/l2_repeater.c: what the repeating thread does with the packets of the queues
--                 that Rib gives it, each l2_repeater_<name> the function <name> or repeater_<name>.
--   Switch        sdplane/tap_handler.c: the ports of the software switch, which vswitch_port_update makes
--                 anew from the base that Rib publishes, and the table of addresses that are learned.
--   Command       lib/zcmdsh/command.c. Command/Specs has the words that stand for a value and what matches
--                 them, each function under its name. Command/Tree is the tree: a list of nodes, where a
--                 node's place is its pointer, with command_install, the match of a word and
--                 command_execute; its children add command_install2 (Alternatives) and completion
--                 (Completion). The vectors of the nodes are lists, which Vector justifies.
--   Prelude       shared names, Boolean tests, lists with native indices, and what a C function leaves.
-- The tests and the theorems at concrete inputs stand in the files called Tests.
--
-- Numbers of the machine are remainders: 64 bits for uintptr_t and size_t, 32 for unsigned int and for
-- an int that holds a length. Pointers are numbers with NULL 0. What malloc, realloc, rings and DPDK
-- answer, qsort and comparison functions are arguments. An assert that fails and a write out of bounds
-- that the model can meet leave `abort`.
--
-- Fuel: the binary search of Vector has as much as the vector has elements, since each round halves the
-- range; an insertion of Shell has as many rounds to double the buffer as it needs bytes; the loop of a
-- read of the pseudo memory gives `done none` where its fuel is out, and as many rounds as the read has
-- bytes in its DWs are enough for a well-formed one. That these are enough is part of the theorems on
-- them. All else recurs on its data.
--
-- Not modelled: the commands that print or call DPDK, the main loops of the threads, the sockets and
-- files around the shell, the key functions of lib/zcmdsh/command_shell.c, and debug output but that of
-- the telnet options.
pub mod Prelude
pub mod Vector
pub mod Tlp
pub mod Dma
pub mod Shell
pub mod Telnet
pub mod Threads
pub mod Rib
pub mod Repeater
pub mod Switch
pub mod Command
