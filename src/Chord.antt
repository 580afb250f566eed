-- ===== src/Chord.antt =====
-- distributed/backend/durable_chord.go: the durable chord, a group of member tasks with a callback
-- that is to be published when all of them have succeeded. Its delivery record changes by the
-- transitions of that file, which the backends apply to the stored record one at a time.
pub mod Delivery
pub mod Member
pub mod Receipt
pub mod Callback
pub mod Steps
pub mod Valid
pub mod Keeping
pub mod Reporting
pub mod Safety
pub mod Growing
pub mod Fencing
pub mod Final
pub mod Progress
mod Tests
