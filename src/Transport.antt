-- ===== src/Transport.antt =====
-- Catransport (Catransport.h, Catransport.cpp): the state of a transport and its threads' operations.
-- The children define the operations; those named for a property prove it.
pub mod State
pub mod Packets
pub mod Send
pub mod Clients
pub mod Handle
pub mod Balance
pub mod Wire
pub mod Session
pub mod Users
pub mod Read
pub mod Output
pub mod Calls
pub mod View
pub mod Tests
