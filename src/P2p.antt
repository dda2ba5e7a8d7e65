-- ===== src/P2p.antt =====
-- src/p2p: the peer-to-peer layer.
pub mod Inventory
pub mod Downloader
pub mod Headers
pub mod HeadersFile
pub mod Bootstrap
pub mod Manager
pub mod Handshake
mod Tests
