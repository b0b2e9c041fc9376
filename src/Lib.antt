-- ===== src/Lib.antt =====
-- Verification of the core of CPS, the configuration and event library: the objects and keys that
-- applications exchange, and the requests that read and change them. Each module models the C++ code
-- that its header names, with paths from the root of the repository.
--
-- The parts, and the files that model them:
--
-- Object (src/cps_api_object.cpp). An object is a key and a buffer of attributes with a length and a
--   remaining length. The encoding of an attribute is the interface Tlv, which stands for std_tlv.h
--   of another package. Encode says what a well-formed object holds; Find, Add, Delete and Copy are
--   about cps_api_object_attr_get, add_attribute, cps_api_object_attr_delete, and
--   cps_api_object_clone with cps_api_array_to_object; Merge is about cps_api_object_attr_merge, and
--   Compact about cps_api_object_compact of src/non-core/cps_api_object_tools.cpp. Received has
--   objects in a caller's memory. Lengths are 64 bits wide and wrap. Pointers into the buffer are
--   the bytes from there on. Reallocated memory is filled with 0.
-- Key (inc/opx/cps_api_key.h, src/cps_api_key.cpp, src/cps_api_key_utils.cpp). A key is a length, an
--   attribute and 62 words. Edit, Build and Compare are about its editing, its construction, and
--   cps_api_key_matches. The host is little-endian. A failed STD_ASSERT is `none`.
-- KeyCache (inc/opx/private/cps_api_key_cache.h). The hash table from keys to data is a list of
--   buckets; its abstract view, in Laws, is a map from keys to queues of data. Longest is about the
--   search for the longest prefix, Walk about the walk that begins again after an erasure.
-- ObjectList (src/cps_api_object.cpp). Lists are vectors of pointers, with null as `none`. Merge is
--   about appending a section of another list, Clone about the deep copy.
-- Operation (src/cps_api_operation_common.cpp). A transaction is a list of changes. commit is
--   cps_api_commit; the database and the services that carry requests out are the interface Backend,
--   and the calls that are made are recorded. Commit and Rollback are about its two loops.
-- Tools (src/non-core/cps_api_operation_tools.cpp). commit_one is cps_api_commit_one, which tries a
--   commit again until it succeeds; Gets has cps_api_get_objs, which does so with a get.
-- Request (src/cps_api_operation_common.cpp). get is cps_api_get, over the interface Source; Filter
--   is about _filter_list_as_needed, Get about the list that a caller is given. The lists of objects
--   are those of src/cps_api_object.cpp, with null pointers as `none`.
-- Escape (src/db/cps_api_db_object_key.cpp, src/cps_api_vector_utils.cpp and
--   cps_api_attr_create_escaped). The bytes that go into the database's keys and patterns; Match
--   takes the database's matcher as the interface Glob. Range is about cps_api_range_split.
-- DbKey (src/db/cps_api_db_object_key.cpp). The keys and patterns that are made from an object's key
--   and key attributes, which come through the interface KeyAttrs. Pattern is about what the escaped
--   key finds, Instance about dbkey_instance_or_wildcard.
-- Direct (src/db/cps_api_db_direct.cpp, src/db/cps_api_db_operations.cpp, and
--   cps_api_node_set_iterate). One and Bulk write one object or many to the nodes of a group, Fetch
--   reads them, Operations are the two operations that a transaction asks of the database. What goes
--   to a node is the interface Db. Attempts is about the retries, Stores about the walk over the
--   nodes, Previous about what a set is merged into, Unstored about the rollback of a deletion.
-- NameServer (src/cps_ns.cpp). The registrations of the clients by key, over KeyCache. Closed,
--   Buckets and Gone are about a client that closes, Invariant about all runs of the name server,
--   Queries about its answers.
-- Dictionary (src/metadata/cps_dictionary.cpp, src/metadata/cps_class_map_query.cpp). The tables of
--   classes, whose pointers to shared nodes are identifiers; Enums, Flags and Owners have the other
--   tables, KeyAttrs and Children the queries, Registered and Maps what holds after a registration,
--   Reserved the identifiers of the library.
-- Connections (src/db/cps_api_db_connection_tools.cpp). The cache of connections to the nodes, over
--   the interface Link. Checked is about what it gives out, Bounds about how many it keeps.
-- Ipc (src/cps_api_client_ipc.cpp, inc/opx/private/cps_api_client_utils.h). The messages between
--   clients and services as bytes, over the interface Sock. Pipe is about a connection that loses
--   nothing.
-- Client (src/cps_api_client_ipc.cpp). The cache of owners and the get request; Requests has
--   commits, rollbacks and statistics. Replies, with Answered and Rounds, is about what a service
--   may answer to a get.
-- Service (src/cps_api_operation_service.cpp). The registered functions, whose order is the subject
--   of Order; Handlers answers requests, Stats counts them, NameService keeps the registrations at
--   the name server. Transfer puts the answer to a get and the client that receives it together.
-- Nodes (src/non-core/cps_api_node.cpp, src/db/cps_api_db_node_set.cpp). The tables of nodes and
--   groups, over the interface Store. Load has the loading of the groups, Masters the addresses of a
--   group and its master. Loading is about the loop over the nodes of a group, Choice, Chosen, Kept
--   and Reached are about masters.
-- Match (src/non-core/cps_api_object_tools.cpp, src/cps_api_object_attr.cpp). The match of an object
--   against a filter, with the nested key attributes. An iterator is a memory and a length. Objects
--   has what it means on attributes.
-- Common holds the shared names and the lemmas on lists and numbers.
--
-- How they interact: Operation and Request use the keys of Key, KeyCache hashes and compares them,
-- and an object of Object carries one. In Operation and Request the attributes of an object are
-- abstract, since those functions read them only through tests that the interfaces have. NameServer
-- and the owners of Dictionary change entries of KeyCache in place; Direct carries out the requests
-- that Operation makes of a database, on the same transaction: Direct/Database puts it below
-- Operation. Client and Service exchange the messages of Ipc; NameServer's messages are those that
-- Service sends it. The walks of Direct over the nodes of a group take the list of nodes that Nodes
-- finds.
--
-- Fuel: the search of an attribute runs on one more than the bytes in use, since each attribute
-- takes a byte or more; a deletion likewise; the walk of the cache on more than n * n + n for n
-- buckets, since at most n erasures each begin a new round of n; the split of a range on one more
-- than the total, since each call covers at least one; commit_one on one more than the retries, and
-- so do the database operations; the loops over a closed client's registrations and keys on n * n +
-- n + 1 for n of them, since each removal begins the loop again; Compact likewise; the loop over the
-- answers to a get on one more than the objects, since each message but the last is an object; the
-- loop over the nodes of a group on one more than the nodes, which is enough where each has an
-- address and a name; the match of objects on more than two above the attributes of both and twice
-- those of a key attribute, since the search and each level take one for each attribute.
--
-- Not modelled: that memory runs out; the freeing of objects and keys; reference counts; logging;
-- the protocol to the database, sockets other than through Sock, threads, the loading of metadata,
-- and the Python bindings, which are I/O. The clock, and the quotients of doubles in the statistics,
-- are parameters. Nor are the events of the database, and the text that objects are printed as.
mod Common
pub mod DbKey
pub mod Direct
pub mod NameServer
pub mod Dictionary
pub mod Connections
pub mod Escape
pub mod Key
pub mod Ipc
pub mod Client
pub mod Service
pub mod Match
pub mod Nodes
pub mod KeyCache
pub mod ObjectList
pub mod Operation
pub mod Request
pub mod Tools
pub mod Object
