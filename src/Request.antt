-- ===== src/Request.antt =====
-- src/http_frontend_handle_req.cpp: how an `http_frontend` reads requests and forwards them.
-- `transfer_chunked` is false throughout: `filter_headers` answers a `Transfer-Encoding` with an error
-- before the line that would set it. So that member, `chunk_size` and the branches on them are left
-- out, with `handle_chunk` and `handle_first_chunk`, which only those call.
pub mod State
pub mod Text
pub mod Filter
pub mod Complete
pub mod Handle
pub mod Ends
pub mod Body
pub mod Keeps
pub mod Partial
pub mod Rewrite
pub mod Room
mod Tests
