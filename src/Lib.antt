-- ===== src/Lib.antt =====
-- The login server: a network library on completion ports (loginServer/lib/IOCP netServer), over
-- which loginServer/loginServer.cpp answers login packets. These files model the buffers and the
-- queue through which every byte of a connection goes, both sides of a connection, how threads share
-- a connection's session, a worker's rounds, and what the login server does with connections and
-- packets.
--
-- - Ring (ringBuffer.h, ringBuffer.cpp): the byte ring in which a session receives and in which it
--   keeps the packets under way. `push`, `pop`, `front`, `clear`, `move_rear`, `move_front`, `copy` and
--   the size questions are the member functions of those names; the protected overloads on two
--   pointers are `size_between` and `free_size_between`. Pointers are offsets in the block, and every
--   access of the block is checked: `none` is an access outside it.
-- - Serializer (serializer.h, serializer.cpp): the buffer of one packet, with pointers as addresses,
--   since `resize` moves the block. Scalars holds the operators `<<` and `>>`, Header the network
--   header, the checksum and the cipher (with define.h).
-- - Packet (packet.h, packet.cpp): the handles by which threads share a serializer and count its
--   references, over a pool that the model gives addresses; `Step` is one operation on the
--   references, in any order. Counted holds the proof.
-- - LockFreeQueue (LockFreeQueue.h): the linked queue of packets with its pool of nodes and its keys of
--   address and number. `push` and `pop` are those functions, with their loops `link` and `unlink`,
--   and `alloc`, `free` and `fill` those of nodePool, each taken without interruption. Links and Rep
--   say which sequence the nodes stand for, Push and Pop what a call does to it, Fifo and Init what a
--   client sees.
-- - Session (session.h, session.cpp, and the packet loop of workerThread in network.cpp): `recv_buffers`
--   is what recvIO offers to WSARecv, `recved` takes the bytes in, `recved_packet` cuts a packet off,
--   and `drain` is the loop that hands packets to OnRecv. Framing, Drain, Stuck and Receive hold the
--   proofs. Session/Send has the sending side: `collect_send_packet`, `send_io` with its loop `gather`,
--   `sended` and `buffer_clear`; Pointers, Gather, Sended and Cycle hold the proofs. Session/Send/Race has
--   sendIO and the completion of its send as steps (`act`) that the worker threads do in any order
--   (`Turn`), while other threads set cancelIOFlag; Session/Send/Queued has the queue of a session as the linked queue of LockFreeQueue.h.
-- - Network (network.h, network.cpp): one session of the session array. `find_session`,
--   `delete_session` and the two halves of `init` under acceptThread are those functions up to and
--   from each interlocked operation; `Step` is one such operation by any thread, so that a run is any
--   interleaving. A slot also counts the references held and the threads that are about to call
--   deleteSession, which the program has only in its threads. Closing the socket, bufferClear and
--   OnDisconnect are not part of a slot, and the exchange and the push of deleteSession are one step.
--   Network/Array is the array of sessions with `index_stack`, as
--   start, acceptThread (`accept`), deleteSession (`delete_at`), findSession (`find_at`) and
--   getSessionCount use them, with `Move` as one step of any thread. Network/Report is the index under which each worker counts its
--   messages, and the rounds of networkThread (`network_round`). Network/Worker is one round of workerThread for any completion
--   (`worker_event`), with recvIO; what OnRecv asks of the network for a packet is a parameter there,
--   which acts on the session as sendReq and disconnectReq do (`react`); Network/Post is sendReq and disconnectReq.
-- - LoginServer (loginServer/loginServer.h, loginServer.cpp): the connection map and the round of
--   `update` that ends old connections. LoginServer/Login is OnRecv (`on_recv`) with its response
--   (`login_response`); Request and Response hold the proofs, and Key has `redis_update`, by which
--   the session key of a login goes to redis. LoginServer/Closing is the whole of
--   deleteSession, with bufferClear and OnDisconnect.
-- - Database (lib/mysql connector/mysqlConnector.cpp and dbQuery.cpp, under loginServer): `query_rows` is
--   the loop of query over the rows of an answer, `test_rows` that of testFunc. Database/Connect is query
--   with the loops that connect and ask, over the client as an interface (`Client`).
-- - Redis (lib/redis connector/redisConnector.h and redisConnector.cpp): `get`, `set` and `disconnect`
--   over cpp_redis as an interface (`Client`); Redis/Store has what its laws say of the server's store.
-- - Base: numbers, lists, blocks of memory and pointer steps that both share.
-- - Tests: the operations and the theorems at concrete inputs.
--
-- A session's ring is filled by the kernel at `tail()` and taken in by `MoveRear`, packets are cut
-- off by `front` and `pop` into the block of a serializer, whose `decryption` checks them; on the way
-- out `setHeader` and `encryption` seal a serializer, whose pointer goes over the completion port to a
-- worker, through the queue of the session, and as bytes through a ring until its send is complete.
--
-- Numbers are natural numbers with the wrap-around of the source's types written out; a byte is a
-- number below 256 where a theorem needs it. `resize` of the serializer doubles its buffer in a loop:
-- its model runs on fuel, of which one step per doubling is enough, and the theorems on an append
-- hold for any fuel that is not 0, since none is needed when there is room. The packet loop, `sended`
-- and the loops of bufferClear run on fuel too, and one step more than there are packets is enough;
-- for the loops of the lock-free queue one step is. The loops of query run on fuel that bounds how
-- often it connects; more fuel than refusals is enough. A number of 64 bits has at most 20 digits.
--
-- Parameters: `ceil(log2(n))`, the memory that `new` and `malloc` return, the serializers that the
-- pool gives, WSARecv, which fills its buffers in order, and the answers of WSASend and WSARecv.
-- The MySQL client is a record of the functions that the connector calls; `IsClient` and `IsServer` are
-- the laws of it that theorems name.
-- The client of redis is another, with laws for the order of its commands.
-- Not modelled: the call of query by sessionKeyCheckByDatabase, whose answer is not used; the lock-free
-- queue under interleaved calls; sockets, completion ports, threads and logging, which are calls of
-- the operating system; the vendored cpp_redis, tacopie and MySQL client.
pub mod Base
pub mod Database
pub mod LockFreeQueue
pub mod LoginServer
pub mod Network
pub mod Packet
pub mod Redis
pub mod Ring
pub mod Serializer
pub mod Session
pub mod Tests
