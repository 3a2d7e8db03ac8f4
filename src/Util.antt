-- ===== src/Util.antt =====
-- The containers, the timer and the pool of threads of src/util.
pub mod Trie
pub mod Bloom
pub mod RingBuffer
pub mod Timer
pub mod MemoryCache
pub mod ThreadPool
pub mod ThreadsafeQueue
