-- ===== src/Lib.antt =====
-- The remote procedure calls of p_rpc: a client writes calls to a server, which executes them by
-- class and method name and writes the values back.
--
-- The parts, from the repository's root, and the files that model them:
--   include/BlockQueue.h                    BlockQueue (Bounds, Waiting, Order)
--   include/Writable.h, src/Writable.cpp    Writable (Strings)
--   src/IntWritable.cpp                     IntWritable (Narrow, RoundTrip)
--   src/MethodWritable.cpp                  MethodWritable (Wire, RoundTrip, Lasting, Fuel)
--   src/Method.cpp, include/NameNode.h      Method (Dispatch)
--   include/Client.h, src/Client.cpp        Client.Call, Client.Connection (Receiving, Idle, Adding,
--                                           Threads (Matching, Received, Sent, Runs)),
--                                           Client.Registry (Entering, Calling)
--   include/Call.h, src/Call.cpp            Server.Call (Request)
--   include/Connection.h, src/Connection.cpp
--                                           Server.Connection (Sending, Rounds, Queueing),
--                                           Server.State
--   include/Invocation.h, include/RPC.h, include/DataNodeProtocol.h
--                                           Rpc (Packing, Cache)
--   src/Responder.cpp                       Server.Responder (Turn, Delivery, Threads, Tokens,
--                                           Whole, Inline, Idle, Framing)
--   src/Handler.cpp                         Server.Handler (Answer, Values)
--   include/Listener.h, src/Listener.cpp    Server.Listener (Robin, Reading, Counting, Cleanup)
--   src/Server.cpp                          Server.Lifecycle (Flags, Stopping)
--   include/Log.h, src/Log.cpp, src/Utils.cpp
--                                           Log (Overloads)
--   main.cpp, src/Test1.cpp, src/Test2.cpp  Main (Ports, Choosing), Server.Lifecycle
--   the texts of these classes              Texts (Keys)
-- The whole path of a request through the server is the subject of Server.Cycle (Handling, Whole,
-- Several, Failing, Disconnecting), that of many requests at once of Server.Service (Projecting,
-- Requests, Answering), and a client and a server on one connection that of Exchange (Answering,
-- Asking, Creating, Frames), where Exchange.Threads (Replies, Values) has all threads of both.
-- Base holds what they share: Boolean tests on numbers, lists, bytes and maps. A definition has the
-- name of the function that it models, in this library's spelling (`processResponse` is
-- `process_response`); where one function is split, its parts stand before it.
--
-- How they interact. `Client::Connection` gives a call its id and writes it to the socket; a reader
-- of the server reads it as a `Server::Call`; a handler executes it with `Method::call`, sets the
-- value and hands it to the responder, which queues it at its connection and sends it in rounds of
-- `Connection::processResponse`; the receiver thread of the client's connection finds the call by
-- its id and sets its value.
--
-- How code is modelled. A function that changes state takes the state to a result and a state; a
-- result is a value, an exception, or the end of the process. boost::asio is a parameter: the record
-- `Socket.Asio` has its blocking operations and, as laws, what its documentation says of them;
-- `Socket.Simulated` is an instance made of lists. Numbers are the bits of an x86-64 machine: `int`
-- has 4 bytes, `size_t` 8, `char` is signed, and additions wrap where the code's do. An object that
-- threads share is a record or an entry of a heap (`Server.State`); a section under a mutex is one
-- step; `condition_variable::wait_for` takes a list of what other threads do before the time is over,
-- of any length.
--
-- Fuel and bounds. `read_fields` recurses on fuel, since the bytes from the peer say how deep values
-- are nested; more fuel than bytes to come is enough (`MethodWritable.Fuel`), and for a value that
-- was written its depth is. `push` and `pop` take the rounds of their loop as a list. Memory is
-- taken to suffice where a vector stays below its largest size.
--
-- Not modelled: what the code hands to its log, at the places where it does (in
-- `Connection::processResponse` also the text of the value, which would fail for one that is not
-- set; an executed call has a number, `Server.Handler.Values`); log4cpp, which `Log` takes as a
-- parameter, and the examples `Log::simple` and `Log::Properties`, which nothing calls; what a
-- thread does before its loop; the configuration files, which only log4cpp reads. A loop of a
-- thread is its turns. The functions of `Server.Responder` find each queue as the thread left it;
-- what other threads do between their steps is the subject of `Server.Responder.Threads`, whose
-- moves are these steps, cut where a lock is given back, and `Client.Connection.Threads` is the
-- same for a client's connection. `Server.Service` adds the readers and the handlers to the
-- threads of the responder; a reader there reads a request that has come in whole, and a handler
-- executes a call that succeeds, since another one ends the process. No connection is closed
-- there; what comes of one that is closed while its endpoint is scheduled is the subject of
-- `Server.Cycle.Disconnecting`. In `Exchange` the threads take their turns one after another, but
-- in `Exchange.Threads`, where the runs of both sides are tied by the bytes that one sent and the
-- other has read: what TCP promises is the record `IsLinked` there.
pub mod Base
pub mod BlockQueue
pub mod Socket
pub mod Writable
pub mod IntWritable
pub mod Method
pub mod MethodWritable
pub mod Client
pub mod Server
pub mod Rpc
pub mod Exchange
pub mod Log
pub mod Main
pub mod Texts
