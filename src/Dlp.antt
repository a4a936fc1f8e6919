-- ===== src/Dlp.antt =====
-- libpisock/dlp.c: requests to the device and its responses. Run: the socket below and the monad of
-- the functions. Args: the arguments and their encoding. Exec: a request written and its response
-- read. Databases, Records and Blocks: the requests.
pub mod Run
pub mod Args
pub mod Exec
pub mod Databases
pub mod Records
pub mod Encoded
pub mod Written
pub mod Responses
pub mod Answered
pub mod Fetched
pub mod Commands
mod Tests
