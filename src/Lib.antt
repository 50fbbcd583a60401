-- ===== src/Lib.antt =====
-- The WebSocket library: a client and server over sockets or shared memory, in ext/easywsclient.
-- Each file is about one part of it, and each definition is a translation of one function, or of a
-- part of one, of the C++ code.
--
-- The parts:
-- - FastXor, for ext/easywsclient/FastXOR.cpp: masking by a four-byte key, a byte at a time and in
--   words of 64 bits. FastXor/Bytewise, Word64 and Agree hold its theorems.
-- - SimpleBuffer, for ext/easywsclient/SimpleBuffer.cpp: a queue of bytes in a block that grows.
--   SimpleBuffer/Invariant, Grow and Queue hold its theorems.
-- - Spsc, for ext/easywsclient/SPSC.h: a ring of bytes in shared memory, for one writer and one
--   reader. Spsc/Invariant, Write, Read and Stream hold its theorems.
-- - Frame, for the frame headers of ext/easywsclient/easywsclient.cpp (the first part of
--   _dispatchBinary, and the middle of sendData). Frame/Digits, RoundTrip and Wire hold its
--   theorems and the form of whole frames.
-- - WebSocket, for the class WebSocketImpl of the same file: its state; Send for sendData and its
--   callers and for close, Dispatch for _dispatchBinary, Connection for processConnection, Poll
--   for poll, Client for the constructor of a client, Destroy for the destructor and
--   WebSocket::create, LogText for the text of the log, EndToEnd for two sockets together, and
--   Handshake for a client and a server that open a connection. Their child modules hold the
--   theorems.
-- - SharedSocket, for ext/easywsclient/socketsharedmemory.cpp: a connection over two rings, how a
--   server finds its client (Accept), what passes between them (Pipes, Connection), and how a
--   socket is made by its name (Create, Named; with Wsocket::create of
--   ext/easywsclient/wsocket.cpp).
-- - Wsocket, for ext/easywsclient/wsocket.cpp: the sockets of the system, with Wsocket/Playback
--   for the class WsocketPlayback (its file is not of the form that the recording writes), and
--   Wsocket/Waiting for select. Wsocket/Table holds the theorems on descriptors.
-- - MemoryMap, for ext/easywsclient/MemoryMap.cpp: the class where it is not Windows, with its
--   theorem in MemoryMap/Table, and MemoryMap/Windows for the one of Windows, with Zeros, Handles,
--   Prepare and Balance.
-- - InputLine, for src/InputLine.cpp: a thread that reads the console, and the calls that take its
--   lines, as steps in any order. InputLine/Order and Progress hold its theorems.
-- - TestServer, for app/TestServer/TestServer.cpp: the chat server's clients and its loop.
--   TestServer/Kill, Messages, Broadcast, Input, Silent, Echo and Ids hold its theorems, and
--   TestServer/Main is the server as a whole.
-- - TestClient, for app/TestClient/TestClient.cpp: the chat client. TestClient/Line, Quit and
--   Address hold its theorems.
-- - TestSharedMemory, for app/TestClient/TestSharedMemory.cpp: two threads on one ring, as steps
--   in any order. TestSharedMemory/Cut, Writer and Lines hold its theorems.
-- Base holds lists, windows of lists, blocks of memory, bits, words and text; Base/Scan holds the
-- parts of sscanf and printf that the code uses.
--
-- sendData puts a header and a message in the transmit buffer and masks the message there; poll
-- hands that buffer to the socket, stores what the socket received in the receive buffer, and
-- calls _dispatchBinary, which reads headers, unmasks in place and calls the callback. Until the
-- handshake is over, poll only calls processConnection.
--
-- How the code is translated:
-- * A function on an object is a function on a record, and returns the new record. A function with
--   undefined behaviour on some input (an access outside of a block, memcpy on ranges that
--   overlap, a failed assert) returns an Option, and none is undefined behaviour.
-- * Unsigned 32-bit arithmetic is written out (add32, sub32, u32); sizes are natural numbers.
-- * malloc, the byte order, addresses, the time and the results of the socket's calls are
--   arguments. An allocator is assumed to succeed (IsAllocator). Pointers into a block are
--   indices.
-- * What a call does outside of its object is a list of events.
-- * The loop of _dispatchBinary runs on fuel, and says so when the fuel ran out. Fuel above the
--   number of frames is enough for frames that do not wrap (WebSocket/Dispatch/Stream, Ends); for
--   those that do, none is (WebSocket/Dispatch/Stall). The loops of poll run on the list of the
--   socket's results, and the loop of the destructor on the list of its passes. The loop of the
--   server that deletes clients runs on fuel, and a pass for each client is enough
--   (TestServer/Kill). The loop that fills a file runs on fuel, and a pass for each megabyte is
--   enough (MemoryMap/Windows/Zeros).
-- * A call of the operating system or of the C library that is not computed here (fgets, socket,
--   connect, accept, getaddrinfo, recv, send) is an argument: the list of what it returns.
-- * Sizes of buffers are below 2 ^ 30 in a valid buffer; the limit of the code is 2 ^ 29.
-- * Calls on a ring are taken as whole steps, one after the other.
--
-- Not modelled: the clock, the socket options and the start of WinSock (calls of the system
-- without a result that the code uses), the proxy server (compiled in only with USE_PROXY_SERVER,
-- and ApiServer.h is not in the repository), and the recording of sockets (switched off).
pub mod Base
pub mod FastXor
pub mod SimpleBuffer
pub mod Spsc
pub mod SharedSocket
pub mod TestSharedMemory
pub mod Frame
pub mod WebSocket
pub mod TestServer
pub mod Wsocket
pub mod InputLine
pub mod MemoryMap
pub mod TestClient
