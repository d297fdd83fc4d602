-- ===== src/Sender.antt =====
-- src/rdps.c: the sending program, in the order of its functions.
pub mod State
pub mod Kept
pub mod Packetize
pub mod Plan
pub mod Cutting
pub mod Shape
pub mod Numbers
pub mod Timers
pub mod Marks
pub mod Window
pub mod Transfer
pub mod Invariant
pub mod Sendable
pub mod Accounting
pub mod Occupied
pub mod Flags
pub mod Acknowledged
pub mod Settled
pub mod Ending
pub mod Handling
pub mod Exchange
