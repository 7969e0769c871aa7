-- ===== src/Records.antt =====
-- The records table (ingestor/models.py, `Record`) and the operations of ingestor/crud.py on it.
-- The database and the ORM are not part of the repository: they enter as the interface of
-- `Records/Database`, which the operations take as a parameter. Timestamps are numbers, `raw_data`
-- is the text of its JSON document (the code only copies it), and the audit columns `created_at` and
-- `updated_at`, which the ORM fills in, are left out.
mod Row
pub mod Database
mod Lookup
pub mod Crud
pub mod Listing
pub mod Memory
mod Examples
pub use Row.*
