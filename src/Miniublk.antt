-- ===== src/Miniublk.antt =====
-- miniublk.c.
pub mod Abi
pub mod UserData
pub mod Types
pub mod Queue
pub mod Engine
pub mod Ledger
pub mod World
pub mod Thread
pub mod Setup
pub mod Control
