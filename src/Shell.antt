-- ===== src/Shell.antt =====
-- web/privasys-shell.js: the sign-in shell of the browser page and the sealed transport.
pub mod Fifo
pub mod Socket
pub mod Route
pub mod SignIn
pub mod Views
pub mod Panel
pub mod Tests
