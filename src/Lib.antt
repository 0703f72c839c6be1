-- ===== src/Lib.antt =====
-- cpp_rt_pubsub: nodes publish messages on topics through a broker, over UDP datagrams.
--
-- A node registers itself, its message types and its topics with the broker by JSON requests in
-- control packets, and publishes messages in data packets; the broker keeps the tables, answers the
-- requests and forwards each data packet to the subscribers of its topic. Publishers and subscribers
-- keep messages in bounded queues.
--
-- - Json.antt: what the code uses of third_party/nlohmann_json, as a record that every definition
--   which needs it takes as a parameter, with the documented behaviour that proofs rely on as the
--   record IsLawful. Json/Sample.antt and below is a small library that meets it, for the examples.
-- - MessageQueue.antt and below: include/crps/message_queue.h, src/message_queue.cpp. The record has
--   the class's members; a pointer to a buffer is the buffer's index. Inv is the invariant, Fifo one
--   call against a list of message bodies, Run whole histories.
-- - Protocol.antt and below: include/crps/broker_protocol.h, src/broker_protocol.cpp. Packets are
--   bytes; Decode is about all buffers, RoundTrip about the packets that the encoders make.
-- - Broker.antt: the tables of include/crps/broker.h and the operations on them in src/broker.cpp,
--   by their names. Broker/Inv and Broker/Topics are about the invariant, Broker/Stable about what
--   never changes, Broker/Registry and Broker/Agreement about repeated registrations,
--   Broker/Counters about the packet counters. Broker/Control.antt is process_control_request.
--   Broker/Spin.antt is the loop of Broker::spin: what recvfrom returns is a list of events, a sendto
--   is an entry of a list of datagrams, and whether it succeeds is a parameter.
-- - Subscriber.antt, Publisher.antt and below: include/crps/subscriber.h, src/subscriber.cpp and
--   include/crps/publisher.h, src/publisher.cpp, as clients of MessageQueue.antt.
-- - Node.antt and below: include/crps/node.h, src/node.cpp. Node/State is the record of the members and
--   what makes clients, with m_topics and m_topics_by_prio; Node/Requests the requests to the broker and
--   the reading of its responses, with what the broker makes of them; Node/Rpc the blocking RPC, over any
--   network, and Node/Rpc/Broker with Broker/Spin as that network; Node/Registration the registration
--   of a node and its clients, and connect; Node/Incoming receive_message and
--   process_incoming_message; Node.antt and Node/Outgoing a publisher's turn; Node/Loop spin_once, spin
--   and spin_while_work.
-- - LinuxNetwork.antt and below: include/crps/linux_network.h, src/linux_network.cpp. What a system call
--   returns is given. Calls compares it with a network that keeps no addresses.
-- - Demo/ParseOptions.antt: src/demo/parse_options.cpp. Benchmark/Histogram.antt: the class of that name
--   in src/benchmark_main.cpp; the operations of double that it uses are a parameter, of which only one
--   result assumes something, that integers up to 2 ^ 53 are added exactly.
-- - Prelude.antt and below: shared names, tests, lists as buffers, results, signed integers.
--
-- Faults: a read or copy outside of an object, and a range that ends before it begins, are the value
-- err out_of_bounds; an exception of the JSON library is err exception. No code under src/ catches
-- one. Numbers are natural numbers, and the wrap-around of uint32_t and size_t is written out.
-- `new` and `std::vector` do not run out of memory.
--
-- The loops of Broker::spin, Node::spin and Node::spin_while_work are recursions on what recvfrom ends
-- with each time; `none` says that such a loop still runs at the end of the list. The digits of a port
-- number are printed in five rounds, enough for a uint16_t. All other loops are recursions on lists or
-- on the number of rounds left. The receive buffers have any length where a theorem does not ask for
-- one; the source's have 64 KiB.
--
-- A callback of a subscriber is a function that may publish on the node's publishers; it does not
-- create clients, call the node or write to the message. Pointers to publishers and subscribers are
-- indices, so nothing is said of pointers that a later create_publisher makes invalid.
--
-- Not modelled: log output (but the table reads in log lines are), src/logger.cpp, src/linux_os.cpp and
-- src/os.cpp, the entry points, and of src/benchmark_main.cpp the node that sends and reflects messages
-- and the clock. LinuxNetwork is not the network that the node and the broker are composed over, which is one
-- that loses nothing. A fault of the model stands for undefined behaviour or an uncaught exception, so
-- nothing is said of what follows.

pub mod Prelude
pub mod Json
pub mod MessageQueue
pub mod Protocol
pub mod Broker
pub mod Subscriber
pub mod Publisher
pub mod Node
pub mod LinuxNetwork
pub mod Demo
pub mod Benchmark
