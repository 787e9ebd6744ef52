-- ===== src/HttpClient.antt =====
-- csi_http/client/http_client.cpp and http_client.h: the client, which runs libcurl over boost::asio.
pub mod CallContext
pub mod Streams
pub mod Uploads
pub mod Sockets
pub mod Callbacks
pub mod Run
pub mod Queue
pub mod Sound
pub mod Opening
pub mod Closing
pub mod Counts
pub mod Polling
pub mod Calling
pub mod Tasks
pub mod Safety
pub mod Runs
pub mod Completion
pub mod Downloads
mod Tests
