-- ===== src/Lib.antt =====
-- Verification of the raiezau tracker: tracker/ and the library cutil/ that it uses, and of the
-- earlier tracker in tracker_cpp/ the containers, the event manager, the files, the criteria and the
-- requests.
--
-- The tracker serves peers that share files. Its network thread polls an array of sockets, accepts
-- new connections, and starts a thread for each request that arrives (tracker/network.c). The
-- request thread reads the text, finds the handler of its first word and runs it
-- (tracker/protocol.c) over two shared registries: the files that peers have announced, each with
-- a table of the clients that have it (tracker/file.c), and the clients themselves, which are
-- reference counted (tracker/client.c). Tables and text come from cutil/.
--
-- At its start `main` takes options from the command line and from a configuration file
-- (tracker/config.c, cutil/yaml2.c); a second thread reads commands (tracker/prompt.c).
--
-- Base            names shared by all modules: tests on numbers, lists, C strings as lists of bytes,
--                 elements by index, signed results
-- Cutil.Uthash    uthash (cutil/uthash.h, another project's library) as a record of operations and
--                 documented laws, a parameter of the rest, and association lists as an instance
-- Cutil.HashTable cutil/hash_table.c over it; Keys and Laws read a table as a map
-- Cutil.LinkedList cutil/list.c and cutil/list_node.h; Cursor is about its cursor, Linked,
--                 Simple and Insert are about list_insert
-- Cutil.Stack     cutil/stack.c; Refines relates it to lists
-- Cutil.Text      cutil/string2.c; Tokens is about string_split, Pieces about string_split2, Copies
--                 about the other functions
-- Cutil.Yaml      cutil/yaml2.c over the events of libyaml; Mapping is about files that are a mapping
--                 of scalars, Nesting about sequences in a mapping
-- Tracker.Env     atol, atoi, isspace and printed decimals of the C library; POSIX regular
--                 expressions as a parameter
-- Tracker.State   the state that all threads share: objects on the heap, tables, texts sent
-- Tracker.File    tracker/file.c; Registry is about file_get_or_create, Pieces about file_new, Peers
--                 about the tables of clients
-- Tracker.Client  tracker/client.c, and the printed addresses of tracker/network.c; Removal is about
--                 a client that loses its last reference, Dropping about any reference, Neutral and Counts about the counts
-- Tracker.Look    the criteria of `look` in tracker/protocol.c; Size and Select are about them
-- Tracker.Protocol the rest of tracker/protocol.c; Serve models the handlers that use regular
--                 expressions, handle_request, and regex_exec of tracker/util.c; Dispatch, Getfile,
--                 Seeds, SeedList, Joining, Stale and References are about it
-- Tracker.Network tracker/network.c: Slots models the poll slots; Round, Clean and Connect are about
--                 their arrays, Ready, Settled, Serving and Requests about handle_incoming_data;
--                 Threads has the steps of all threads in any order, over the references of slots
--                 and threads in Holding, Polled, Incoming and Holders; Race is about two accesses
--                 to one count; Read models socket_read_string, Read.Chunks is about it
-- Tracker.Prompt  tracker/prompt.c; Listing has what it prints, with file_print_peer_list of
--                 tracker/file.c, Commands is about eval, Completion about my_generator
-- Tracker.Config  tracker/config.c and main; Precedence and Startup are about the options
-- TrackerCpp.CircularBuffer tracker_cpp/common/containers/CircularBuffer.cpp; Queue and Front relate
--                 it to a queue of bytes over the copies in Splice, Calls runs sequences of calls,
--                 Search is about contains, Until about readUntil and Flush about writeToFd
-- TrackerCpp.FileMgr tracker_cpp/FileMgr.cpp, FileMap.cpp and File.cpp; Lookup is about getFile
-- TrackerCpp.Text what tracker_cpp/ uses of the C++ library for text, and split of common/Util.cpp
-- TrackerCpp.Criterion tracker_cpp/Criterion.cpp and Criterion.hpp; Matching and Selecting are about
--                 which criterion reads a word, and what it selects
-- TrackerCpp.Peer tracker_cpp/Peer.cpp: the state, the requests (Requests) and readHandler (Reading).
--                 Follows and Keeping are about what requests leave of each peer, Ports about
--                 announce, Serving and Staying about readHandler on any bytes, Lines about it on
--                 lines, Deleted about a peer that is gone
-- TrackerCpp.EventManager EventManager.cpp and Event.cpp of tracker_cpp/common/, with the destructor
--                 of ClientSocket.cpp; Counting is about the count of events
-- TrackerCpp.HashTable, TrackerCpp.Lists HashTable.cpp and List.cpp of tracker_cpp/common/containers/;
--                 Removing is about removeValue, over the nodes of a list in Cells and Rounds
-- Tests           each theorem at a concrete input
--
-- A function of the source is a function of the same name (ht_ and stack_ are dropped inside of
-- HashTable and Stack). Code that reads and changes the shared state is a function of State into
-- Option: `none` is undefined behaviour of C, such as a use of a freed object, a NULL pointer or a
-- division by zero. A pointer to a file or a client is its position in the list of all objects ever
-- made; a freed client leaves a hole that is never filled again. `int` and `unsigned` results are
-- written out modulo their width where the code can reach the bound; `fds_buffer_size` wraps, and so
-- does `size_t` in CircularBuffer.
--
-- Loops over a list or a string are recursion on it. Of the C code six loops run on fuel:
-- `string_split` and `string_split2` have as many rounds as the text has bytes, and each takes at
-- least one; the two loops of `clean_fds` have `nfds` rounds, and each lowers `nfds` or raises
-- the slot; `list_free` and `list_remove_value` have as many rounds as the list has nodes. The
-- theorems on the first four are about the results with this fuel, so that too little of it would
-- refute them. `readHandler` of Peer.cpp has its rounds as an argument: one more than there are
-- lines is enough if the buffer's bytes lie in one piece, which Peer.Lines shows; with too few it
-- gives `none`. `removeValue` of List.cpp has one round more than the list has elements, which
-- the theorem on it shows to be enough, the destructor as many as there are nodes, and
-- cleanDeleteList of EventManager.cpp as many as there are events. The loop of
-- `handle_incoming_data` and those of CircularBuffer count the rounds that their bounds leave,
-- and a run of the yaml reader ends with the list of events.
--
-- The tracker's lists are sequences in its models, not the nodes of cutil/list.c.
--
-- In tracker_cpp/ a call that throws gives its exception beside the state that it leaves. Where C++
-- goes through a set of pointers, in the order of the addresses, the models take the order of a list.
--
-- Not modelled: yaml2_dump and yaml2_free, the setup of readline and its signal handler, the
-- texts of `--help`, the fork of the daemon, log texts and their translations, the creation of
-- threads and sockets, and memory that cannot be allocated. A handler is one step: interleavings
-- inside of a handler are not modelled, but for the two accesses to a reference count in Race. Of
-- tracker_cpp/ the sockets, the threads and the logger are not modelled; the handlers of the main
-- loop's events are an argument of it, and its model and that of the peers have no state in
-- common. The clients of client_glib/ and client_java/ and the programs of sandbox/ are other
-- programs; cutil/md5.c calls OpenSSL.
pub mod Base
pub mod Cutil
pub mod Tracker
pub mod TrackerCpp
mod Tests
