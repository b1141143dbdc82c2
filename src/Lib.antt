-- ===== src/Lib.antt =====
-- CTaps is a transport services library in C (RFC 9622): a user describes the wanted connection,
-- and the library gathers candidates for it, races them, and hands over the one that becomes ready
-- first. This development models the parts that decide, and leaves out those that only call
-- libraries.
--
-- Parts and files:
-- - Race: src/candidate_gathering/candidate_racing.c. Race/State.antt has the racing context and
--   its attempts; Race/Handlers.antt the callbacks of the raced connections, the registration of
--   concluded attempts and the cancellation of the losers; Race/Endpoints.antt and Race/Start.antt
--   the start of attempts, the stagger timer and the entry from the gathering. A call that leaves
--   the race is an entry of the context's log; the answers of the allocator and of the protocols are
--   the fields of the record Env. Race/Events.antt has the event loop as a list of events. Counting,
--   Conclusion, Cancel, Invariant, Callbacks, Launch, Initiate, Next, Outcome, Ending and Addresses
--   have the lemmas and theorems.
-- - Gather: src/candidate_gathering/candidate_gathering.c. Gather/Selection.antt has the tests on
--   protocols and interfaces and the order of candidates, with lemmas below it; Gather/Tree.antt the tree of candidates and
--   its pruning; Gather/Pruning the lemmas on it. A node is known by an id, its address in C.
--   Gather/Branching.antt has the branching by path and protocol; Gather/Resolving.antt the build of
--   the tree, the resolution of the remote endpoints with its counters (ct_remote_endpoint_resolve of
--   src/endpoint/remote_endpoint.c included) and the callback with the ordered candidates. The host's
--   interfaces, the services, the DNS and g_array_sort_with_data are fields of the record Env.
-- - Lifetime: the reference counts of src/connection/connection_group.c and
--   src/connection/socket_manager/socket_manager.c, and the making and freeing in
--   src/connection/connection.c and src/connection/listener.c, over a heap in which an address is a
--   number. Lifetime/Counts.antt has the invariant; Safety, Freeing and Runs the lemmas on each step
--   and on sequences of steps.
-- - Security: src/security_parameter/security_parameters.c and
--   src/security_parameter/certificate_bundles/certificate_bundles.c. Security/State.antt has the
--   parameters as a function of the property; Security/Setters.antt and Security/Certificates.antt
--   the setters and getters; Security/DeepCopy.antt the deep copy; Security/History.antt sequences of
--   setter calls; Security/Bundles.antt ct_certificate_bundles_add_cert. The answers of the allocator
--   are a list, after the end of which it always succeeds.
-- - Udp: the receiving callbacks of src/protocol/udp/udp.c, over the demultiplexing table of the
--   socket manager. Udp/Views.antt has what a single address sees; Udp/Routing.antt and
--   Udp/Refinement.antt the lemmas and the refinement.
-- - Quic: parts of src/protocol/quic/quic.c. Quic/Streams.antt has the streams of a QUIC connection,
--   each a connection of one group, and how they end; Quic/Closing.antt and Quic/Order.antt the
--   lemmas on sequences of ends; Quic/Alpn.antt the choice of an ALPN string, over the memory that
--   strcmp reads; Quic/Probing.antt the probing of paths; and Quic/Groups.antt the end of a whole group
--   over the callbacks of the socket manager. picoquic's answers are arguments.
-- - Endpoint: the comparisons of socket addresses in src/endpoint/util.c and
--   src/protocol/common/socket_utils.c. An address is its family with the bytes behind it.
-- - SocketManager: src/connection/socket_manager/socket_manager.c. SocketManager/State.antt has the
--   manager with its connections, by their UUIDs, and its listener; SocketManager/Callbacks.antt what
--   the protocols call back; SocketManager/Demux.antt the demultiplexing table, an association list.
-- - Connection: src/connection/connection.c. Connection/Receive.antt has the two receive queues,
--   Connection/Send.antt ct_send_message_full, and Connection/ActiveEndpoint.antt the setters of the
--   active endpoints, with the one over a group of src/connection/connection_group.c.
-- - Prelude: Boolean tests, lists, return codes and C's int over native numbers.
-- - Examples: runs on concrete inputs.
--
-- The race creates connections, which the socket manager owns; the protocols report to the socket
-- manager, whose callbacks reach the race until there is a winner, and the user from then on.
--
-- GLib's containers stand as what they hold: a GSList, GQueue or GArray is a list, a GHashTable an
-- association list or the list of its keys, and a GNode tree a tree whose level order is written out.
-- Loops are recursions over the lists or the array's length, so no fuel is needed. `size_t` wraps at
-- 2 ^ 64, and the overflow of the socket manager's count, an `int`, is a fault. Allocations that may fail are Boolean arguments, answers of a list or fields of Env. The use
-- of freed memory is a fault, `none`, in the gathering, in the security parameters and in the lifetimes; elsewhere
-- the memory of freed objects is not modelled.
--
-- Not modelled: the adapter of TCP, the rest of that of QUIC and the sending side of UDP, whose
-- behaviour is that of libuv and picoquic; the event loop, logging and UUIDs; the property and message objects, which are
-- copied and freed; preconnections; and failed allocations in the gathering and in the lifetimes.
pub mod Prelude
pub mod Endpoint
pub mod Race
pub mod Gather
pub mod SocketManager
pub mod Connection
pub mod Security
pub mod Lifetime
pub mod Udp
pub mod Quic
pub mod Examples
