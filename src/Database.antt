-- ===== src/Database.antt =====
-- The tables that the financial services read and write, as they stand between two statements.
-- Rows follow packages/database/prisma/schema.prisma; an identifier that the database makes up is
-- the next number that no row has. Time stamps and free metadata are left out.
mod Enums
mod States
mod Rows
pub use Enums.*
pub use States.*
unfoldable pub use Rows.*
