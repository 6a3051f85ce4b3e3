-- ===== src/Lib.antt =====
-- The key-value storage service: a replicated table of blocks under string keys, written in C.
--
-- A server keeps a hash table of sorted lists of entries (source/block.c, source/entry.c,
-- source/list.c, source/table.c) behind a readers-writer lock, answers one message at a time
-- for each client (source/server_skeleton.c, source/server_network.c), and passes each write on
-- to the next server of a chain through the remote table that the clients also use
-- (source/client_stub.c). ZooKeeper tells servers and clients who stands where in the chain.
--
-- Files and code:
-- Common holds the integers, lists and tests that the other files share.
-- Machine is the C machine: a computation is a function from a heap to a result and a heap, or
--   `none` where the C standard leaves the behaviour undefined (a NULL that is followed, an
--   index out of range, an int that overflows, a division by zero), or where a thread waits
--   for ever. The heap is an arbitrary
--   sequence of answers of malloc, with counters of the calls that were granted and of those of
--   free. `int` is 32 bits wide, `long` and `size_t` 64, and plain `char` is signed.
-- Text is the order of strcmp; a string is the list of its bytes before the terminator.
-- Block, Entry, Stats and LinkedList are source/block.c, entry.c, stats.c and list.c, one
--   function for each function, with the loops as functions of their own. A pointer is an
--   Option; a function that writes through its argument returns what it left there; the nodes
--   of a list are a List, which is what the next pointers give as no two lists share a node.
-- Table is source/table.c, with `lists` for the field that table.c calls arrayLista.
-- Message is the structs of include/htmessages.pb-c.h.
-- RwLock is start_read, end_read, start_write and end_write of source/server_skeleton.c, and
--   RwLock.System lets threads run them in any order: a step is what a thread does while it
--   holds the mutex, a broadcast wakes all sleepers, and a sleeper may also wake without a
--   cause.
-- Stub is source/client_stub.c over a parameter for network_send_receive, the only thing it
--   needs of the network.
-- Skeleton and Invoke are `invoke` of source/server_skeleton.c, one function for each opcode;
--   the times that gettimeofday reads are an argument. A handler that writes tests the loop of
--   start_write: as no other thread is inside between two messages, it waits for ever where a
--   reading thread has not left. No writer is inside there, so that readers do not wait.
-- Chain closes the loop: the network of a server is the next server. A write enters at the
--   first server, by `serve`, and a read at the last one, by `serve_last`. The size of a packed
--   message is a parameter, and the model stops at one that does not fit into the 16 bits in
--   which its length is sent; the theorems ask that both messages of an exchange fit.
-- Members is the loops of source/server_hashtable.c and source/client_hashtable.c that choose
--   the neighbours of a server, and the ends of the chain, from the list of its nodes.
-- Transfer is source/message-private.c over parameters for read and write. Its loops go on
--   after each interruption, so that they take fuel, and the theorems say how much is enough.
-- Framing is network_send and network_receive of source/server_network.c, over parameters for
--   the operating system and protobuf-c. Two bytes more of fuel than the message has are
--   enough, besides the interruptions. Transfer.Reliable and Framing.Reliable are about sockets
--   whose calls do not fail, though they may be interrupted and move less than was asked.
-- Serving is thread_client of source/server_network.c, as one thread runs it with no other
--   between its turns; Serving.Session is the whole of it for a client that sends some
--   requests, and Serving.Wire puts network_send_receive at the other end.
-- Exchange is network_send_receive of source/client_network.c, over the same parameters.
-- Text.Token is strtok, atoi and the "%d" of sprintf, which the C library documents.
-- Address is rtable_connect and rtable_disconnect of source/client_stub.c, network_connect and
--   network_close of source/client_network.c, get_node_data of source/zoo_helper.c, and the
--   address that both programs make of a remote table, over a record of what the operating
--   system answers. The room of an allocation is a parameter there, as strcat writes behind the
--   string it is given: the theorems on connections that are compared ask for 24 bytes in each,
--   which glibc gives on 64 bits, and for a host of at most 15 characters, as of an IPv4
--   address.
-- Joining is set_next_server and set_antecessor of source/server_hashtable.c, with the globals
--   next_server and table passed in and out, its watcher, and the start of its main as far as
--   it makes these. Joining.Replica puts a chain at the other end of the connection,
--   Joining.Watch calls the watcher again and again, Joining.Leave puts to a chain that a
--   server has left, and Joining.Window lets a put fall between two steps of main.
-- Listening is server_network_init and network_main_loop of source/server_network.c, over what
--   the operating system answers and the connections that accept gives.
-- Startup is main and handle_sigint of source/server_hashtable.c and connect_to_zookeeper of
--   source/zoo_helper.c, over what ZooKeeper answers; its result says how the program ends.
--   Startup.Joined runs it behind a chain, and Startup.Port follows the port from argv to the
--   address.
-- Ends is set_head_tail and the watcher of source/client_hashtable.c, with the globals head and
--   tail passed in and out, Shell the command loop of its main, over what fgets gives (a line of MAX_MSG bytes or
--   more, which fgets splits, stops the model), and
--   Printing what that prints, as a list. Shell.Lines writes a request as its line,
--   Shell.Replay answers requests from one map, and Shell.Session, Shell.Listing and
--   Shell.Table put a chain behind the client's two connections.
-- Tests holds concrete inputs on which the theorems are applied.
--
-- Specifications: a list stands for an ascending association list (LinkedList.Items), a table
-- for one such list for each slot (Table.View), and these for the function `view` from keys to
-- optional bytes; LinkedList.Canonical and Table.Canonical compare those that hold the same map.
-- Loops over a sequence recurse on it, so that no fuel is needed; loops that count to the size of
-- a table take that number, and a chain takes a bound on its length.
--
-- Not modelled: a message of 64 KiB or more, whose length is cut, and a line of MAX_MSG bytes
-- or more. The serialisation that protoc-c writes (source/htmessages.pb-c.c), ZooKeeper
-- and the calls of the operating system are code that is not here or I/O; what the sources use
-- of them is a parameter. What the client's main calls of ZooKeeper around its loop is left
-- out. A watcher runs between the calls of the other functions, not in the middle of one. A
-- heap does not tell addresses apart, so that it counts allocations and frees and does not
-- follow single pointers.
pub mod Common
pub mod Machine
pub mod Text
pub mod Block
pub mod Entry
pub mod LinkedList
pub mod Table
pub mod Stats
pub mod Message
pub mod RwLock
pub mod Stub
pub mod Skeleton
pub mod Invoke
pub mod Chain
pub mod Address
pub mod Members
pub mod Joining
pub mod Ends
pub mod Listening
pub mod Startup
pub mod Serving
pub mod Printing
pub mod Shell
pub mod Transfer
pub mod Framing
pub mod Exchange
mod Tests
