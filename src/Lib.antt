-- ===== src/Lib.antt =====
-- A model of the chat server in IOCPChatServer/, and what makes its parts correct.
--
-- The program. Worker threads of the network layer (IOCP.h) take completions of receives, sends
-- and accepts from Windows, and run them on the sessions (ClientSession.h), each a connection with
-- its queue of sends; a timeout thread pings and ends idle connections. `ChatServer` passes what
-- arrives to `PacketManager::ReceivePacketData`, and connects and disconnects to
-- `PushSystemPacket`. Each user of a fixed pool has a ring in which its bytes wait. One packet
-- thread takes the queues in batches, cuts packets out of the rings, and calls a handler for each.
-- A login is passed on to the threads of the Redis manager, whose response comes back through a
-- queue. What users do is queued for the threads of the MySQL manager, which insert it as rows.
-- What the handlers send goes back to the sessions.
--
-- The files.
--   RingBuffer        RingBuffer.h: the ring, its operations; Valid, Contents, Transfer: proofs
--   Packet            Packet.h and ErrorCode.h: numbers, codes (PacketId, ErrorCode), C strings
--                     (Strings), the packets that the server sends and their bytes (Wire)
--   User              User.h: a user, and `GetPacket`; Framing: what is cut out of the bytes
--   UserManager       UserManager.h: the pool; Dictionary: the map from names to places
--   Room, RoomManager Room.h and RoomManager.h
--   RedisManager      RedisManager.h and RedisTaskDefine.h; Answering: its answer to a login
--   MySqlTask         MySQLTaskDefine.h
--   PacketManager     PacketManager.h and PacketManager.cpp: the state and the queues; Login, Rooms and
--                     Loop: the handlers and the loop; the other files below it: proofs on each
--                     handler, on places used again (Reused), on what a run reaches (Reach), on what
--                     is sent (Sends)
--   MySqlManager      MysqlManager.h: the queue and a writer thread's connection; Client: the
--                     calls of the MySQL client; Inserting, Connecting, Failures: proofs
--   Net               Define.h, and what is asked of Windows
--   ObjectPool        ObjectPool.h
--   ClientSession     ClientSession.h: one connection; Contents, Sending, Prefixes, Traffic,
--                     Order: the order of its sends
--   Iocp              IOCP.h: the sessions and the worker threads; Accounts: where each session stands;
--                     Workers, Accepts, Receives, Sends, Completions, Start, Looks, Rounds: that it
--                     is kept; Runs: by a whole run; Told, Lengths: what a run of both layers
--                     needs; Queueing, Timeout; Failures; Ending
--   ChatServer        ChatServer.h: the callbacks and the sends; Events, Sending: the layers together;
--                     Callbacks, Keeping, Runs: what a run of both keeps
--   Endpoint          IOCP.h, from `Init` to `DestroyThread`: the listening socket, the port, the
--                     threads; Listening: proofs
--   Program           `Run` and `End` of PacketManager.cpp, ChatServer.h and both clients, and
--                     main.cpp; Starting, Stopping: proofs
--   ObjectMemoryPool  ObjectMemoryPool.h; Reusing: what it hands out
--   Membership        who is in which room: the agreement of lists and users, and its proofs
--   Common            numbers, lists, `INT32` values, steps that can fault
--   Examples          tests, and applications of the theorems
--
-- How code becomes definitions. A class is a record of its members, a method a function of the
-- state that returns the new state, under the method's name in small letters. A pointer to a user
-- or a room is its place in the pool or the list. A step that can fault returns an `Option`: `none`
-- is an access out of range, a null pointer handed on, or an abort of `strcpy_s`. Where it is a
-- result of the code (no byte, no room, no such key) the definition is a look-up that changes
-- nothing. What is sent is a list of calls of `SendPacketFunc`, in order. A packet or a task is
-- given by the bytes from its pointer on. `INT32` values are integers that wrap at 32 bits,
-- `size_t` and `UINT32` numbers wrap at 64 and 32 bits. Each operation under a lock is one step;
-- the order of the steps of different threads is free in `Reach` and in both `Runs`. The clock, the
-- Redis client, and what uninitialised memory holds are parameters. So are the results of Windows
-- and of the MySQL client (`Windows`, `Setup`, `MySqlClient`): functions of what has been asked
-- before, while what is asked is recorded in order. The theorems say which of these calls have to
-- succeed. A `SendOverlappedEx` is its place in the pool; each completion is one step of the
-- network layer.
--
-- Bounds and fuel. The loops over lists are by structural recursion. The loop over the packets of
-- a user and the loop over the responses of Redis run on fuel, and say so when it is used up. For a
-- whole batch, more fuel than the 8096 bytes of a ring and than the number of responses is enough,
-- while no user's bytes hold a header that says a length of 0; with such a header the loop over
-- packets need not end. The ring has 8096 bytes in `User`, and any number up to 2 ^ 63 in the proofs
-- about it.
--
-- Not modelled. The places of PacketManager.cpp and Room.h that send fill in the length and the
-- number of each packet; here `encode` gives both to each kind of packet. The queue of tasks for
-- MySQL stands twice, as what the packet thread puts in (`my_sql_tasks`) and as what the threads of
-- MySqlManager take (`request_task`), and a run may change the first in any way at any time.
-- CrashDump.h, which calls the crash dumps of Windows. RawPacketData and other structures of
-- Packet.h and RedisTaskDefine.h that nothing uses. Printing, waits and the joining of threads,
-- what other threads do during `End`, the interleaving of two threads inside one completion, and
-- the release of memory are left out of what is modelled. thirdparty/, include/, share/ and lib/
-- are copies of other projects' libraries.
pub mod Common
pub mod Net
pub mod ObjectPool
pub mod ClientSession
pub mod Iocp
pub mod MySqlManager
pub mod ChatServer
pub mod RingBuffer
pub mod Packet
pub mod User
pub mod UserManager
pub mod Room
pub mod RoomManager
pub mod RedisManager
pub mod MySqlTask
pub mod Membership
pub mod PacketManager
pub mod ObjectMemoryPool
pub mod Endpoint
pub mod Program
pub mod Examples
