-- ===== src/Tests.antt =====
-- Runs of the model on concrete input, and the theorems at inputs that meet their hypotheses.
mod RingTests
mod SerializerTests
mod PacketTests
mod LockFreeQueueTests
mod SessionTests
mod SendTests
mod RaceTests
mod QueuedTests
mod NetworkTests
mod ArrayTests
mod ReportTests
mod WorkerTests
mod LoginServerTests
mod ClosingTests
mod DatabaseTests
mod ConnectTests
mod RedisTests
mod LoginTests
mod KeyTests
