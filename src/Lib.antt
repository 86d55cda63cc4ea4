-- ===== src/Lib.antt =====
-- HyperKV, an in-memory key-value server in C: its tables, sets, lists, command parser, commands,
-- command loop, client and main functions.
--
-- A client's message is parsed to a command (src/parser.c), which the dispatch of src/interpreter.c
-- runs on the server's table (src/htable.c) and answers with a reply in the clients' protocol;
-- src/server.c repeats that until a client quits or shuts the server down. A table is an array of
-- slots with open addressing and double hashing (src/helper.c). An item of the server's table is a
-- string, another table (a hash), a doubly linked list (src/list.c) or a set (src/set.c).
--
-- Which file models which part:
-- - Base: Boolean tests, lists, strings and integers over the native numbers, and `Run`, what a run of
--   C code ends in: `ok`, or a fault that the source does not guard against (a signed overflow, an
--   access out of bounds, a read through NULL or a dangling pointer, a cast to a wrong type).
-- - Helper: src/helper.c. Helper/Hash is `djb2`, `sdbm` and `hash_func`, Helper/Prime `is_prime` and
--   `next_prime`, Helper/Number `is_number`, `strtoi` and `intostr`.
-- - Slots: the arrays of src/htable.c and src/set.c: their slots, the map that an array stands for
--   (`view`), the path of a key's attempts, and what a write to one slot does to them.
-- - HTable: the table of src/htable.c over any type of values: `htable_init`, `htable_search`,
--   `htable_insert`, `htable_del`, `htable_exists` and the resizes.
-- - Set: src/set.c. A set is a table whose entries have no value.
-- - List: src/list.c, on a heap of nodes with pointers. List/Seq says which sequence a list stands for.
-- - Value, Strings, Objects: what an item stores, and the operations of src/htable.c on strings, and on
--   hashes, lists and sets.
-- - Reply, Commands: the replies and the `exec_` functions of src/interpreter.c.
-- - Parser: src/parser.c, with the tokenizer in Parser/Tokens. Parser/Words, Taken, Spelled and Named
--   are about commands as a client writes them.
-- - Interpreter, Server: `fns` and `interpret` of src/interpreter.c, `rediskw` of src/server.c on the
--   buffers that `read` leaves.
-- - Socket: `readline` and `writeline` of src/server.c, on the bytes that the system calls carry.
-- - Network: `init_server`, `accept_connection`, `close_socket` and `close_client` of src/server.c and
--   `connect_server` of src/client.c. The system calls are a parameter, a function from a state and a
--   call to a state and a result, and `inet_addr` is another.
-- - Client: src/client.c, how a reply is read and printed, and `repl`. Client/Exchange and Client/Session
--   are a client and the server at the two ends of a connection.
-- - Memory, Release: `dmalloc` and `drealloc` of src/helper.c, and what `list_free`, `set_free`,
--   `item_free`, `htable_free`, `command_free` and `parser_free` free.
-- - LogInit, Programs: src/log_init.c, and the main functions of src/hyperkv.c and src/hyperkv-cli.c.
-- - Safe, below the module it is about: that the code stays inside its arrays and its heap and ends.
-- - Tests: runs at concrete tables.
--
-- State is passed on: an operation takes the table and returns the new one. A C string is the list of
-- its bytes before the NUL. An `int` is a native number or an integer with its bound tested where the
-- code computes it, an `unsigned long` a number modulo 2 ^ 64.
--
-- A valid table (`IsValid`) has a prime size, holds every key once at most and where its path meets no
-- empty slot before, counts at least its entries in `used`, and has a load of at most 70% as
-- `htable_resize_up` computes it. A table has room to grow (`HasRoom`) where twice its size is at most
-- 46337, the largest prime below `max_size` = 46341, up to which no hash overflows an `int`. A key is
-- stuck where its `sdbm` value is 0 modulo the size: its attempts all look at one slot.
--
-- Bounds and fuel: the loop over a path takes as many rounds as there are slots, like the code's. The
-- calls of `htable_insert` and `htable_resize` of one another are bounded at depth 2; the theorems
-- on insertion show that the bound is not met. `list_pos` and `list_rem` are given a round more than
-- the list has values, and are shown to need no other. `is_prime` is given as many rounds as its
-- argument, more than the loop makes; `next_prime` counts up to the bound of `int`, and is shown to end
-- before it. The tokenizer's fuel is the length of the message, and is shown to be enough.
--
-- A table is sound (`IsSound`) where its array is as long as `size` says and not empty, `used` counts
-- at least the entries, and what they hold is sound too. That asks nothing of where the keys are or of
-- the size, so that it holds whatever the hash does. A run is safe (`Safe`) where it ends in a value, or
-- in one of three faults that the theorems allow: a signed overflow, a read through NULL, a cast to a
-- wrong type. What the C program does after one of them is not modelled.
--
-- Left out: the messages that are logged, the copy of the logging library in src/log.c, the calls of the
-- allocator (a run that is out of memory ends the program), what is never freed, the usage texts and
-- the banner. The release of memory is the list of the blocks that are freed; only the nodes of a
-- list are there as addresses, so that a string that is read after its release would not show.
pub mod Base
pub mod Helper
pub mod Slots
pub mod HTable
pub mod Set
pub mod List
pub mod Value
pub mod Strings
pub mod Objects
pub mod Release
pub mod Reply
pub mod Commands
pub mod Parser
pub mod Interpreter
pub mod Server
pub mod Socket
pub mod Network
pub mod Memory
pub mod Client
pub mod LogInit
pub mod Programs
pub mod Tests
