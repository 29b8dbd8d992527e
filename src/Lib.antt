-- ===== src/Lib.antt =====
-- Verification of lsp-framework: the JSON, JSON-RPC and message layers that a language server or a
-- client stands on, and the URIs it names documents with.
--
-- A `Connection` (lsp/connection.cpp) writes a message to an `io::Stream`: the message becomes a JSON
-- value (lsp/jsonrpc/jsonrpc.cpp), the value a text (lsp/json/json.cpp), and the text a frame with a
-- header. The reader goes the other way and answers what it cannot read with an error response.
-- A `MessageHandler` (lsp/messagehandler.cpp) stands on a connection: it calls the callbacks of
-- requests, keeps the requests that wait for a response, and lets a `ThreadPool`
-- (lsp/threadpool.cpp) wait for asynchronous results. lsp/serialization.h converts the parameters
-- and results of typed messages.
-- A stream is the standard input and output (lsp/io/standardio.cpp), a socket (lsp/io/socket.cpp) or a
-- child process (lsp/process.cpp). `Uri` (lsp/uri.cpp) stands beside them, and lspgen/lspgen.cpp makes
-- the types and messages of the protocol from its meta model.
--
--   Base        the shared names: outcomes of calls, byte strings, and the functions of <cctype>,
--               <charconv> and <string> that the sources call.
--   Json        lsp/json/json.h and json.cpp. Value: the variant. Object: the map. Literal:
--               toStringLiteral, fromStringLiteral. Cursor, Scalar, Parser: the class Parser, its
--               helpers, tokens and state stack. Printer: stringify. Floats: an interface for
--               double, which is no part of the repository.
--   Jsonrpc     lsp/jsonrpc: messages, messageToJson, messageFromJson, the batches and create*.
--   Io          lsp/io/standardio.cpp: read and write, with the world outside as a record.
--   Connection  lsp/connection.cpp. Reader: InputReader. Header: the header's fields. Message:
--               readMessage and writeMessage. Writers: threads that write at a time.
--   Uri         lsp/uri.h and uri.cpp. Record: the class and its calls. Coding: encode, decode and
--               normalizeEncodedCase. Parse: Uri::parse. Sections: the parts that the string holds.
--   FileUri     lsp/fileuri.cpp, as built outside Windows, with std::filesystem as parameters.
--   ThreadPool  lsp/threadpool.cpp. Pool: the state and the sections under the mutex. Steps: what
--               the threads can do next. Invariant, Tasks, Finish: proofs.
--   MessageHandler  lsp/messagehandler.cpp, .h and .inl. Ids: request ids. State: the handler, its
--               thread and the callbacks. Process: incoming messages. Send: outgoing ones, and the
--               results of pending requests. Wrappers: what `add` makes of a callback. The other
--               files are proofs.
--   Serialization  lsp/serialization.h and lsp/enumeration.h. Serial: the overloads for a type.
--               Numbers, Scalars, Vectors, Tuples, Tables, Choices, Enumeration, Structures: the
--               types.
--   MetaModel   lspgen/lspgen.cpp, the class MetaModel and what it holds. Types, Extract: Type and its
--               subclasses. Model, Reading: the types by their names. Messages: the messages. Stops, Total,
--               Order, Names, Whole, Aliases: proofs.
--   Generator   lspgen/lspgen.cpp, the string functions and a part of the class CppGenerator. Text: strings,
--               identifiers, comments. Messages, Enumerations: the printers. Stops, Comment, Closed,
--               Split, Printed: proofs.
--   Socket      lsp/io/socket.cpp, as built for POSIX. Transfer: read and write. Open: connect, listen,
--               close. Exact, Whole, Open/Owned: proofs.
--   Process     lsp/process.cpp, as built for POSIX. Child: Process::Impl. Transfer: read and write. Life:
--               Process and what its owner does with it. Handles, Moves, Closed, Lifetime, Exact: proofs.
--               Escape: the command line of the build for Windows.
--   Witnesses, PoolWitnesses, HandlerWitnesses, SerialWitnesses, MetaWitnesses,
--   GeneratorWitnesses, SocketWitnesses, DescriptorWitnesses, ProcessWitnesses,
--   ConnectionWitnesses: the theorems at concrete inputs.
--
-- A call that fails with std::unexpected gives `unexpected`; one that throws where nothing in the
-- library catches gives `terminate`; a loop whose bound is used up gives `out_of_fuel`. The loop of
-- the JSON parser runs on twice the length of the text and two more rounds, since each round but a
-- bounded number takes a character. The loops of a header run on the length of the input and two
-- more, since each round takes a character until the input ends.
--
-- A `std::string` is a list of bytes, a `std::int32_t` an integer with its range tested where it is
-- made, a length of `Uri` a number with its wrap-around at 2 ^ 16. The parser's pointers into the
-- value it builds are positions in it. `json::Object` is a list of fields without an order of its
-- own. Byte 0xff is the end of a stream, as it is for `Stream::Eof`.
--
-- A message is called sound if its id and its error code have 32 bits, its parameters are absent, an
-- object or an array, and a response has either a result or an error; a batch also has a message. A value
-- is called printable if its integers have 32 bits, its decimals are named by their print and no object
-- has a key twice.
--
-- What the threads of a pool do is a relation between states: each section under the mutex is one
-- step, as is each notification, and `notify_one` may wake any thread that waits on the condition
-- variable, a caller of `addTask` included. A wait may end by itself. A task is a number,
-- and one that throws ends the process.
-- `waitUntilFinished` is called by one thread at a time.
--
-- The callbacks of a message handler, the results of pending requests and futures are named by
-- numbers, and what they do is a parameter, `Callbacks`; they may change the handler. The functions of
-- a handler are those of one thread, with assertions off. The thread-local pointer to the current id
-- is the id. The tasks that a handler gives to its pool are a list, and `run_task` is one of them.
--
-- A type of the meta model is read with a bound on its depth, one more than the number of values in its
-- JSON, since each level takes one. The vectors of a `MetaModel` grow, where they get their size
-- beforehand there.
--
-- A `long` has 64 bits. The casts from `double` are parameters, exact on integers of 53 bits. A tuple
-- is a nested pair, a variant a nested sum.
--
-- The calls of the operating system that sockets and processes make are parameters, `Channel` for a
-- connection, `Sockets` for its descriptors and `Posix` for processes, with what POSIX says of them as
-- their laws. The loops of `read` and `write` run on the size and the interruptions to come, since each
-- round takes a byte or is one. The loops of the generator's string functions run on the length of the
-- text, since a pattern is not empty.
--
-- Not modelled: the read mutex of `Connection`, the mutexes of `MessageHandler`, exceptions of
-- callbacks, the toJson and fromJson of generated protocol types, the Windows builds of
-- sockets and processes, but for the command line, and of the code generator the printers of
-- structures and type names, whose table of generated names is keyed by addresses.
pub mod Base
pub mod Json
pub mod Jsonrpc
pub mod Io
pub mod Connection
pub mod Uri
pub mod FileUri
pub mod ThreadPool
pub mod MessageHandler
pub mod Serialization
pub mod MetaModel
pub mod Socket
pub mod Process
pub mod Generator
pub mod SocketWitnesses
pub mod DescriptorWitnesses
pub mod GeneratorWitnesses
pub mod ProcessWitnesses
pub mod Witnesses
pub mod PoolWitnesses
pub mod HandlerWitnesses
pub mod ConnectionWitnesses
pub mod SerialWitnesses
pub mod MetaWitnesses
