-- ===== src/Vector/Whole.antt =====
-- The functions of vector.c that walk whole vectors: the iteration `vector_head`, `vector_next`,
-- and `vector_copy`, `vector_is_same`, `vector_catenate`, `vector_merge`, `vector_cap`. The two
-- vectors of a call are not the same one. What realloc answers may differ for each pointer added.
mod Walk
mod Copy
mod Merge
pub use Walk.*
pub use Copy.*
pub use Merge.*
