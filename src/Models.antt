-- ===== src/Models.antt =====
-- backend/app/db/models: the rows of the database as records, one child for each file of that
-- package. A nullable column is an `Option`, an id is a number, and a `datetime` is the number of
-- microseconds since the epoch in UTC. Encrypted columns hold their plain text, as the ORM type
-- `EncryptedStr` shows them to the program.
pub mod Identity
pub mod Domain
pub mod Admin
pub mod System
pub mod Accounting
pub use Identity.*
pub use Domain.*
pub use Admin.*
pub use System.*
pub use Accounting.*
