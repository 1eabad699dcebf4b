-- ===== src/Lib.antt =====
-- lora_multihop: a routing protocol for stream-based communication over a LoRa network.
--
-- A node reads lines from its LoRa module and answers with commands for the module. The protocol
-- parses each line with the header module, keeps routes and peers in the routing table, and hands
-- header texts to the serial connection through `writing_q`, whose writing thread answers through
-- `status_q`. An application is connected by two sockets, for requests and for data.
--
--   Variables        src/lora_multihop/variables.py: the constants that the other parts read.
--   Python           the built-in functions that the source calls on texts: `split`, slices, `int`,
--                    `str`, the format `06d`, UTF-8 and `base64`. A text is a list of code points.
--   Header           src/lora_multihop/header.py: `Header` with the data of its subclasses as one
--                    constructor each (`Body`); `get_header_str` prints, and Header/Parse reads:
--                    `create_header_obj_from_raw_message`, whose branches are functions of their own.
--                    Header/Sendable says what the text form can carry.
--   RoutingTable     src/lora_multihop/routing_table.py: the lists of `RoutingTable` as a record, and
--                    each method as a function of the same name. `time.time()` is an argument, in
--                    microseconds.
--   Node             the attributes of `Protocol` and the queues that it shares with
--                    src/lora_multihop/serial_connection.py; Node/Action is the monad of its methods:
--                    a method changes the node and may raise, and what was changed stays changed.
--   Protocol         src/lora_multihop/protocol.py. Protocol/Transmit has `send_header` and the list of
--                    pending acknowledgements, Protocol/Receive the handlers and
--                    `process_incoming_message`, and Protocol/Send what the user starts:
--                    `send_message`, route requests, registrations, connect and disconnect requests.
--                    Protocol/Calls has sequences of calls of all of them. The modules beside them
--                    prove what the methods do together, and `IsStable` in Protocol/Receive/Stable
--                    is what a relation between the node before and after needs to hold of every
--                    call: one law for each change that a method makes.
--
--   SerialConnection src/lora_multihop/serial_connection.py: its queues and flags as a record, one round
--                    of the writing thread and one reading of the other as functions, and
--                    SerialConnection/Threads with these in any order as a relation.
--                    SerialConnection/Answer checks the answers of the modem, SerialConnection/Device
--                    has what a caller of `execute_command` waits for, and
--                    SerialConnection/Interleaved cuts the rounds up into single accesses.
--   Senders          threads that call `send_header` at the same time, over the serial connection, an
--                    access to the queues at a time; Senders/Simulated has what one call among them
--                    takes and puts.
--   ModuleConfig     src/lora_multihop/module_config.py, and the calls of src/main.py up to the address
--                    of the modem.
--   Ipc              src/lora_multihop/ipc.py: Ipc/Server is the loop of the socket for administration,
--                    Ipc/Transfer that of the socket for data, one event of a socket at a time,
--                    Ipc/Socket what a `send` comes back with, and Ipc/Message has the texts that the
--                    protocol puts into `sending_queue`.
--   Application      `start_ipc`: both loops and the receiving thread over one protocol, as events in
--                    any order. An event is handled as a whole, and the lines that arrive meanwhile are
--                    those of the sleeps that it waits in.
--   Network          two and more nodes that hear each other.
--   LocalNetwork     src/tests/integration_tests/local_network.py, which takes the place of the modem:
--                    one round of its sending thread, and one `recv`, as functions.
--   IntegrationTest  src/integration_test_multihop.py: the program on the local network, as what it reads
--                    from its environment and what it does in which order.
--
-- Outside the model stand the modem, the network and the sockets. For the protocol, `status_q` is the
-- sequence of the answers that the writing thread will give, and a `get` from the empty sequence raises
-- `queue.Empty` as the timeout does; for the serial connection, `port` is the sequence of the lines that
-- the modem sends, and reading from the empty sequence gives the empty line of a timeout. `arrivals` has
-- for each `time.sleep` to come the lines that the receiving thread processes meanwhile: the two threads
-- of the protocol interleave at the sleeps of the sending one. Those of the serial connection interleave
-- in SerialConnection/Threads between the rounds of the writing thread, where the reading thread may
-- have passed its condition at any time before it reads (`behind`), and in SerialConnection/Interleaved
-- and Senders at every access to what they share. A `send` of a socket takes all bytes, or a part, or
-- raises, as a sequence of `Sending` says. The queues have no bound. Every statement is for all such
-- sequences or says which it is for.
--
-- Loops are bounded as in the source: the `for` loops walk a list, the inner waiting loops have their
-- ten or five rounds, and the outer ones have fuel 4, while the counter reaches 3 after at most three
-- rounds. `str` of a number has one more than the number itself as fuel, and it has no more digits.
--
-- Not modelled: logging; the start of threads; `timeout`, which nothing calls; the sockets of
-- `LocalNetwork`. `wait_random_time` stands by itself in Protocol/Wait: it sleeps for at most
-- `MAX_SLEEP_TIME = 0` seconds, where the programs of the integration tests have 0.2, and
-- `send_header` is modelled without it.
pub mod Prelude
pub mod Variables
pub mod Python
pub mod Header
pub mod RoutingTable
pub mod Node
pub mod Protocol
pub mod SerialConnection
pub mod Senders
pub mod LocalNetwork
pub mod IntegrationTest
pub mod ModuleConfig
pub mod Network
pub mod Application
pub mod Ipc
