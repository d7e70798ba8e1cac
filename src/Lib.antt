-- ===== src/Lib.antt =====
-- A verification library for xdrpp, a C++ implementation of XDR (RFC4506) and of ONC RPC on it.
--
-- The parts of the program and how they meet:
--   * xdrpp/types.h declares the XDR types and their traits, and xdrc/gen_hh.cc prints the structs and
--     unions of an interface with `save`, `load` and `serial_size`. Types.antt holds the types (`Ty`),
--     the values (`Val`) and the declarations (`Schema`); a class is named by its number, so that a
--     type may mention itself. Types/Size.antt is `serial_size` with the constants `fixed_size`, and
--     Types/Union.antt the two ways in which a generated union finds the arm of a discriminant.
--     Types/Object.antt is the object of a generated union, whose members are alive or not; whether
--     the constructors and assignments of members throw is an argument.
--     Types/Compare.antt has `operator==` and `operator<=>`, with the default `partial_ordering`; the
--     template helpers that walk over the fields are recursion on the values there.
--   * xdrpp/endian.h swaps bytes: Endian.antt. The byte order of the machine is an argument, so every
--     theorem is about little-endian and big-endian machines.
--   * xdrpp/marshal.h and xdrpp/marshal.cc marshal values into a buffer and back. Marshal.antt has the
--     mixins of the two byte orders and the padding of byte strings, Marshal/Put.antt
--     `xdr_generic_put` and Marshal/Get.antt `xdr_generic_get`. An archive's operator and the `save` or
--     `load` of a class call each other; here the operator takes that function as an argument, and
--     `put` and `get` tie the knot by recursion on `stack_limit`. The program has the same counter, so
--     it is no fuel beside the code: where it is 0 the code throws `xdr_stack_overflow`.
--   * xdrpp/message.h, `message_t` in xdrpp/marshal.cc and the functions `xdr_to_msg`,
--     `xdr_from_msg`, `xdr_to_opaque` and `xdr_from_opaque` of xdrpp/marshal.h: Message.antt.
--   * xdrpp/msgsock.cc sends and receives messages on a stream. MsgSock/Output.antt has the output
--     queue, with the answers of `writev` and the readiness of the socket as events, and
--     MsgSock/Input.antt the input, with the answers of `read` and `readv`. The limit on the length of
--     a message, the allocator and the callback that may delete the socket are arguments of the input.
--     `rpc_sock` on top of it, MsgSock/Rpc.antt, matches replies with calls; a callback stands there as
--     a number, and what the socket does as a list of effects.
--   * xdrpp/rpc_msg.x declares the messages of RFC5531 and xdrpp/rpc_msg.cc and exception.h read
--     them: RpcMsg.antt has the structures, the classes that xdrc makes of them and the values that
--     stand for them, RpcMsg/Archive.antt the reading of a header, RpcMsg/CallStat.antt the status of a
--     call and `check_call_hdr`.
--   * xdrpp/server.h and server.cc answer calls. Server.antt has the error replies,
--     Server/Registry.antt the map of services, Server/Dispatch.antt `dispatch` with the synchronous
--     service of xdrpp/srpc.h. A method of the server object is a function from arguments to a
--     result or an exception of the library; what has been given to the reply callback is a list. The
--     tuple and the pointers that the arguments are read into take two levels of the stack limit:
--     Server/Dispatch/Arguments.antt.
--   * xdrpp/srpc.cc and srpc.h are the synchronous client and server: Srpc.antt has the reading and
--     writing of messages on a socket that blocks and `invoke`, Srpc/Serve.antt the server's loop and a
--     socket that connects the two.
--   * xdrpp/arpc.h is the asynchronous client and server: Arpc.antt has the callback of a reply and
--     `invoke` on top of `rpc_sock`, and the service with its `reply_cb`; what a method does with a
--     `reply_cb` is a list. The turns of the loop in `get_xid` are bounded by an argument; 2 ^ 32 are
--     always enough, since the loop ends at 0.
--   * xdrpp/depth_checker.h measures how deep values are nested, with the `save` of Types/Save.antt
--     that the put archive uses too: DepthChecker.antt. Its fuel is the limit itself, below which no
--     container is entered, so that the limit is always enough.
--   * xdrpp/iniparse.cc and iniparse.h are the parser of ini files: IniParse.antt. A callback is a
--     number, and whether it throws is an argument; the map of groups is a function.
--     IniParse/Words.antt is `argv`; the turns of its loop are bounded by the length of the value,
--     since each takes a character away.
--   * xdrpp/printer.cc: Printer.antt has the escaping of strings and the dumps.
--   * xdrpp/pollset.h and pollset.cc are the event loop: Pollset.antt has the table of descriptors
--     with its callbacks, which are numbers. The hash map is a function from descriptors.
--     Pollset/Poll.antt has a round of `poll`, where a callback is what it asks of the table and
--     whether it then throws. There the calls of `run_timeouts` and `run_subtype_handlers` are such
--     an argument too, what they ask for until they end.
--     Pollset/Timers.antt has the timeouts. A callback that runs may ask for timeouts that are due at
--     once, so that `run_timeouts` need not end; it has a number of turns, and ends within as many as
--     there are entries due where the callbacks ask only for later ones. Pollset/Async.antt has the
--     callbacks that other threads hand over and the pipe that wakes the loop, as a relation of the
--     steps of all threads, where what runs under a lock is one step; Pollset/Signals.antt the owners
--     of signals, with the turns of the destructor's loop as an argument; Pollset/Handlers.antt the
--     handlers of signals, which interrupt any thread between two steps, with the calls of their
--     callbacks. What follows a handler that finds the pipe full is not modelled.
--
-- A call that may fail has a result in `Res` (Common/Result.antt): a value, an exception,
-- `fault` where an assertion fails, the program is terminated or memory outside a buffer would
-- be read or written, or `ill_typed` where a value is not of the C++ type, which no C++ program
-- can write. `Returns` says that a call returns, `Ensures` that it returns or throws.
--
-- Specifications that do not mention the code: Marshal/Put/Encode.antt is RFC4506, as the values that
-- belong to a type (`Fits`) and the bytes that stand for them (`encode`). In MsgSock/Output/Queue.antt
-- `pending` is the queue as one sequence of bytes, and in MsgSock/Input/Frames.antt `frames` is what
-- the messages look like on the wire.
--
-- Numbers are bit patterns: a negative `int32_t` stands as 2 ^ 32 less, and a floating-point number as
-- its representation. A type of 32 bits, `size_t` apart, keeps its bound in the statements.
-- `serial_size` counts in `size_t`, which the objects in memory bound. `fixed_size` is computed by the
-- C++ compiler to any depth; here to a depth that is an argument, and the theorems hold for each.
--
-- Not modelled: the system calls, which are arguments; `async` of the event loop, which starts
-- threads, and its rescheduling of timeouts; the listener of TCP connections; callbacks of an
-- `rpc_sock` that call it again; the archive of the printer; the opening of ini files and the
-- conversion of their values to numbers; the parser and the other output of xdrc; `std::tuple`
-- as an XDR type, but for the arguments of a call on the server; a union that is assigned from
-- itself or a part of its own member; and objects that are unmarshaled into while they hold
-- values.
pub mod Common
pub mod Endian
pub mod Types
pub mod Marshal
pub mod Message
pub mod MsgSock
pub mod RpcMsg
pub mod Server
pub mod Srpc
pub mod Arpc
pub mod DepthChecker
pub mod Pollset
pub mod IniParse
pub mod Printer
pub mod Examples
