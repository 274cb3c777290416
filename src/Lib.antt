-- ===== src/Lib.antt =====
-- TitanLOB: a limit order book with its output queue, its object pool and its wire protocol.
--
-- The order book (order_book.h, `OptimizedOrderBook`) keeps price levels for bids and asks in two
-- arrays, a bitmap over each, an object pool of orders that are linked into the levels by index, an
-- index from order numbers to their places, and an output queue of messages. A gateway or a program
-- calls its public methods; a consumer reads the queue.
--
-- The parts, each with the file that models it:
-- * Prelude, Bits: shared notation, integers, arrays as functions, bits of a number.
-- * Bitmap (order_book.h, `bitmap_*`): levels as bits of 64-bit words; `set`, `clear`, `test`,
--   `find_highest`, `find_lowest` stand for the functions with these names after `bitmap_`.
-- * Pool (object_pool.h, `ObjectPool`): `allocate`, `free`, `grow`, `reset`; the vector is a function
--   and a size, the stack of free indices a list with its top first.
-- * Ring (ring_buffer.h, `RingBuffer`): the counters modulo 2^64, the cells a function from indices;
--   Ring/Contents gives the queue that a ring holds.
-- * Protocol (protocol.h, output_msg.h): the messages as records, the enumerations as numbers;
--   Protocol/Wire reads a message from bytes as `msg_cast` does.
-- * Book (order_book.h): Book/Types and Book/State hold the members, Book/Links the linked list of a
--   level, Book/Volume its sums, Book/Best the best prices, Book/Emit the messages, Book/Add,
--   Book/Cancel, Book/Available and Book/Match the internal methods by their names, Book/Api the
--   public ones. What the class writes out twice, for bids and asks, is one `BookSide`. Book/Orders
--   has what ties the parts of a book together: which order stands where in the lists, the index and
--   the pool, and what a level's volume counts (Book/Volume/Held has the sum over its orders).
-- * Gateway (gateway.h, `TcpGateway`): `recv_exact`, `handle_client` and `process_message`; the socket
--   and `recv` are parameters. Gateway/Receive has what is assumed of `recv`, Gateway/Dispatch the
--   messages, Gateway/Session a whole session.
-- * Feed (main.cpp): `dispatch_message`, `dispatch_message_no_lock`, the replay loop of `main`
--   (`replay`), and its live loop (`live_loop`, with its round `receive_bytes` and the inner loop
--   `parse_buffer`). Feed/Agreement has the three ways into the
--   book side by side.
-- * Logger (logger.h, `BinaryLogger`, `BinaryLogReader`): the two buffers and the calls of the two
--   threads; Logger/Turns has the order in which these can follow one another. What a thread waits for
--   is a condition of its step.
-- * Web (titan_ws_server.h): Web/Frame has `encode_frame` and `decode_frame`, Web/Base64 and Web/Sha1
--   the namespaces of these names, Web/Json `JsonBuilder` and the `build_book_snapshot` of main.cpp,
--   Web/Server the handshake and the set of clients.
--
-- Numbers: prices, quantities and volumes are integers; the signed overflow that C++ leaves undefined
-- is not modelled. Sizes, counters and indices wrap where the source's types do. The cast of a price
-- to an array index wraps a negative price to a number past every level, which the methods refuse.
--
-- Fuel: `recv_exact` and `receive_payload` take one unit for each call, and the bytes asked for and one
-- more are enough; the loops of the gateway and of the replay take one for each message and one more,
-- `parse_buffer` one for each byte and one more. The walk over a level's list, the loop of the match and
-- the availability walk take fuel and give `none` when it runs out. Book/Orders/Matched and
-- Book/Orders/Reach show that the quantity and two more are enough for a GTC or IOC match in a book
-- without all-or-none orders, and Book/Api/Blocked shows a state with an all-or-none order where no
-- fuel is enough.
--
-- Not modelled: the mutex, which every public method holds from its first line to its last; the
-- messages on cerr and the text on the console; sockets, `select`, threads and the clock; the
-- benchmark and the terminal interface; order_book_fixed.h and order_book.cpp, which repeat
-- order_book.h.
pub mod Prelude
pub mod Bits
pub mod Bitmap
pub mod Book
pub mod Protocol
pub mod Pool
pub mod Ring
pub mod Gateway
pub mod Feed
pub mod Logger
pub mod Web
mod Tests
