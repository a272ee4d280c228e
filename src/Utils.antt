-- ===== src/Utils.antt =====
-- internal/utils, and the part of encoding/hex that it and the servers use.
pub mod Hex
pub mod Address
mod Tests
