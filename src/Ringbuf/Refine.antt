-- ===== src/Ringbuf/Refine.antt =====
-- A valid ring buffer is the sequence of its elements: ringbuf_push_back, ringbuf_push_front,
-- ringbuf_pop_front, ringbuf_pop_back, ringbuf_get_ptr, and any client's run_deque of them.
mod Push
mod Pop
mod Run
pub use Push.*
pub use Pop.*
unfoldable pub use Run.*
