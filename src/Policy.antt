-- ===== src/Policy.antt =====
-- bridge/policy_config.cpp: the policy document and its edits. `Name` parses names, `Raw` is the
-- value that JSON and SQL lower to, `Settings` are those of a table, `Table` is its entry in the
-- document, `Document` the whole of it, and `Edit` a change of one setting.
pub mod Name
pub mod Raw
pub mod Settings
pub mod Table
pub mod Document
pub mod Edit
mod Tests
