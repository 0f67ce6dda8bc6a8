-- ===== src/MpmcQueue/Steps.antt =====
-- Each access to the ring of src/helpers/queue.h keeps it sound.
mod Stores
mod Claims
mod Kept
pub use Stores.*
pub use Claims.*
pub use Kept.*
