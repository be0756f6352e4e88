-- ===== src/Prelude.antt =====
-- The names that the other modules share.
mod Tests
mod Lists
mod Rows
mod Core
mod Int
pub use Core.*
pub use Rows.{
  All-update_where, All-keep, All-map, All-find, find-passes, find-save, find-update_where,
  find-update_where-other, update_where-clears,
}
unfoldable pub use Int.*
