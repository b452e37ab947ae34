-- ===== src/Go.antt =====
-- What the program uses of Go itself: integers, errors, results, maps, and methods that change an
-- object and talk to the outside.
pub mod Num
pub mod Errors
pub mod Maps
pub mod Effect
pub mod Panic
