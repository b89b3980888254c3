-- ===== src/Python.antt =====
-- What the source uses of Python itself: texts as lists of code points, and unbounded integers.
pub mod Text
pub mod Int
pub mod Exception
pub mod Dict
pub mod Struct
pub mod Bits
pub mod Path
pub mod Json
