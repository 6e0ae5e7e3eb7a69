-- ===== src/Queue.antt =====
-- internal/queue: the SSE hub, the job registry and the retry policy.
pub mod Chan
pub mod Hub
pub mod Job
pub mod Registry
pub mod Worker
