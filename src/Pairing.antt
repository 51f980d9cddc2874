-- ===== src/Pairing.antt =====
-- bluetoe/sm/include/bluetoe/security_manager.hpp and security_connection_data.hpp beside it: pairing.
pub mod Data
pub mod Requests
pub mod Legacy
pub mod Lesc
pub mod Manager
pub mod Diagram
pub mod Keys
pub mod Errors
mod Tests
