-- ===== src/Api.antt =====
-- internal/api: the routes of the HTTP interface, over the operations of the daemon and the blobs.
-- What a route reads of a request and writes of a response is a value here. `net/http` answers a
-- request whose handler panics with nothing.
pub mod Requests
pub mod Routes
pub mod Paths
pub mod Blame
pub mod EachRoute
pub mod Calm
pub mod Files
pub mod Commands
pub mod Notifier
pub mod Implementation
