-- ===== src/Worker.antt =====
-- distributed/worker.go: what a worker does with a task, with the sending of a task of
-- distributed/service.go and the signature of distributed/task.
pub mod Signature
pub mod Calls
pub mod Send
pub mod Durable
pub mod Callbacks
pub mod Process
pub mod Keeping
pub mod Permitted
pub mod Processing
pub mod Runs
pub mod Chords
pub mod Delay
pub mod Budget
mod Tests
