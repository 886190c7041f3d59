-- ===== src/Lib.antt =====
-- GameFrame: an epoll network library with a reactor, timers, a message codec, an RPC format, an HTTP server
-- and an asynchronous log sender. A connection reads what arrives into a Buffer; LengthPrefixedCodec cuts the
-- buffer into messages, RpcCodec reads a message as a request or response, and HttpContext parses requests
-- out of it. TcpServer accepts connections on its main loop and gives them to the loops of an
-- EventLoopThreadPool in turn; TcpClient dials, and dials again. Timers of a loop share one timerfd in
-- TimerQueue. The macros of Logging format lines; LogSender's threads hand them to its loop through MPSCQueue,
-- its connection sends them as frames, and the log server stores them in its LogFile. The echo server is a
-- program on TcpServer that closes idle connections.
--
-- Buffer (util/buffer.h): the storage is a list of bytes, a pointer into it an index. Regions has the
-- bounds, Contents the bytes of each operation, Stream the contract as a queue, Crlf the search.
-- Channel (src/channel.h, src/channel.cpp, src/event_loop.cpp): the registration of a descriptor with epoll, in
-- Registration; `epoll_ctl` is a parameter, and IsEpoll says what is documented of it. Dispatch is
-- `handle_event`, on a state that the callbacks change.
-- Connection (src/connection.cpp, src/connection.h): `handle_read` in Reading;
-- `send`, `handle_write`, `shutdown` and `close` in Output and Sending, and in Delivery over any sequence of
-- calls and events; AfterClose is about `handle_write` behind a close. The kernel's answers to the
-- reads and writes are a list, a parameter: a loop of them is recursion on it. Events puts the callbacks
-- into the channel's dispatch, with the timer of `force_close_with_delay` and the destructor; `live_on` runs
-- a sequence of events, calls and timers, which Once and Closing are about. ClosedWrites is about a write event behind a close.
-- EventLoop (src/event_loop.cpp): Wakeups is about `queue_in_loop`, `do_pending_functors` and the eventfd, as a
-- relation of the steps that the loop's thread and others take. Loop puts `loop` and `quit` around these steps,
-- and Stopping is about them.
-- EventLoopThread (src/event_loop_thread.cpp): the thread and its owner as a relation of steps, with Ending.
-- EventLoopThreadPool (src/event_loop_thread_pool.cpp): Rotation is about `next_loop`.
-- Frame (util/length_prefixed_codec.h): Grammar is the contract, a relation that knows no buffer; Header,
-- Decode, Stream, Pieces and Overflow are about `encode`, `peek_uint32_be` and `decode`.
-- Rpc (rpc/rpc_message.h): Integers is about `append_be` and `read_be`, Payload and RoundTrip about the codec.
-- Http (http/): Request is http_request.h. Context is the parser of http_context.h over Buffer: Lines and
-- Parsing relate it to a list of bytes, Chunks to bytes that come in pieces, Grammar and RoundTrip to the text
-- of a request. Response is http_response.h, with Framing about its text; Server is http_server.cpp, with
-- Pipeline about `on_message`. `tolower`, `to_string` and the order of an `unordered_map` are parameters.
-- LogFile (log_server/log_file.cpp): the directory is part of the state. Directory is about the content of
-- its files, Rolling and Appending about `roll_if_needed` and `append`, Sequence about the number to start
-- with. `strtol`, the writing of numbers and the answers of the system are parameters.
-- LogSender (log_sender/log_sender.cpp): Batches is about what a tick sends, Ticks about the tick timers. Which
-- sends fail is a parameter; a send through the null pointer is counted, and
-- Ticks leaves out the runs that have one.
-- LogServer (log_server/main.cpp): the callbacks of the server, over Frame and LogFile. Arrival is about the
-- chunks of a connection, Refusal about a frame that the codec refuses, Pipeline about LogSender's frames. The
-- answers of the system to each line's `append` are parameters.
-- Logging (log_sender/logging.h): Lines is about `format_log` and a reader of its lines, Gate about the level.
-- `vsnprintf` and `to_string` are parameters.
-- MpscQueue (util/mpsc_queue.h): Ring is about `push`, Drain about `drain`; Threads is the step relation in
-- which producers and the consumer come in between the lock and the atomic operations behind it.
-- TcpClient (src/tcp_client.cpp): Invariant and Descriptors are about the state and the open descriptors, Life
-- about any sequence of calls and events, Backoff about the delays. Whether a call of
-- the connection callback connects, closes or disconnects, and how the system calls end, are parameters; one
-- that does several of these is not modelled.
-- TcpServer (src/server.cpp): a connection object is its address, its descriptor and its loop; the functors
-- that wait in the loops' queues are data. Table and Removal are about the table of connections, Steps is
-- the relation of steps, Reachable and Balance are about every state that is reached; Shutdown is about the
-- destructor's loop over the table. The close of a connection, with its descriptor and the queueing
-- of its removal, is one step, though another thread takes it.
-- EchoServer (main.cpp): Preview cuts the text for the log; Timers has the callbacks with their timer ids and
-- TimerQueue, and Idle is about the life of the connections.
-- TimerQueue (src/timer_queue.h, src/timer_queue.cpp): Order is about the set, Invariant about adding and
-- cancelling, Expiry and Firing about `handle_read`, Gone about ids that are in no set. A
-- callback is the list of calls that it makes.
-- Prelude: names of the libraries, Boolean tests, machine words and lists that all of them share.
--
-- Bounds: `size_t` is a number below 2^64 and its sums wrap; a vector is below 2^63 bytes, which is its
-- largest size. `decode` of a frame has one round of fuel more than there are readable bytes, and
-- `decode-Reads` shows that it never runs out, since a frame takes five of them. The loop of `drain` has a
-- round for each item of the batch. Undefined behaviour of C++ is a result of its own: `none` for
-- `retrieve_as_string`, `out_of_bounds` for `decode`.
--
-- A loop of writes ends in `waiting` when its list of answers ends first; `handle-returns` says which lists
-- are enough.
--
-- `parse` has one round more than there are readable bytes, and `parse_refines` shows that this is enough,
-- since a round that goes on takes a line end at least.
--
-- Not modelled: sockets, epoll and the file system themselves, the listening socket, the writing of the log's
-- clock and the log server's flush timer and signals; the program of http_demo_main.cpp; the making and closing of
-- the descriptors of EventLoop and TimerQueue; the memory orders of atomics, each of which is one step; the
-- ids of timers past 2^64 and the time past 2^63 nanoseconds; what a timer's callback does apart from its
-- calls of the timer queue; that `file_size` is asked before bytes in a stream's buffer have reached the
-- file, which does not happen, as every file is closed before it is opened again.
pub mod Prelude
pub mod Buffer
pub mod Channel
pub mod Connection
pub mod EchoServer
pub mod EventLoop
pub mod EventLoopThread
pub mod EventLoopThreadPool
pub mod Frame
pub mod Rpc
pub mod Http
pub mod LogFile
pub mod LogSender
pub mod LogServer
pub mod Logging
pub mod MpscQueue
pub mod TcpClient
pub mod TcpServer
pub mod TimerQueue
