-- ===== src/Grpc.antt =====
-- cGenericGrpcWorker.h: a worker that serves one unary call of gRPC through a completion queue.
-- The library behind it is not modelled: what its queue delivers is a choice, within what its
-- documentation says (`Grpc.System`). A call's object is known by its address, the tag, and a step
-- on a tag with no object gives none.
pub mod Call
pub mod Start
pub mod System
pub mod Tags
pub mod Ownership
pub mod Listener
pub mod Draining
pub mod Answers
pub mod Metric
mod Tests
