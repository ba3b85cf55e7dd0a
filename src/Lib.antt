-- ===== src/Lib.antt =====
-- A verification of duckdb-virtual-catalog: two DuckDB extensions, vcatbridge, which shares tables
-- of one database with another under a policy, and vcatprovider, which serves tables from host
-- functions.
--
-- Policy (src/bridge/policy_config.cpp). `Policy.Name` parses SQL identifiers, `Policy.Raw` lowers
-- JSON and SQL values to one type, `Policy.Settings` parses the settings of a table,
-- `Policy.Table` a table's entry, `Policy.Document` the JSON document and `Policy.Edit` a change
-- of one setting. Each function of the source is a function of the model under the same name in
-- snake case; an exception is the `err` of `Prelude.Results`, with DuckDB's exception type and the
-- raw message.
--
-- Texts are native strings of code points. The scanners of the source walk bytes, but test for
-- ASCII characters alone, which no byte of another UTF-8 character equals.
--
-- Filter (src/provider/include/filter_json.hpp). `Filter` renders one filter expression to
-- clauses, and `Filter.Whole` a whole set. An expression is seen as the code sees it, through what
-- DuckDB's accessors answer; a number stands for the rest. `Filter.Meaning` says what a filter and
-- its clauses mean for a row, with DuckDB's comparisons (`Cells`) and the reader of the clauses
-- (`Reader`) as parameters. The reader has values and comparisons of its own. It may refuse a
-- clause, and it compares a value other than NaN that it accepts as DuckDB compares the one sent,
-- at the cells where it reads the value plainly (`is_plain`): not at a NaN cell, for a reader that
-- compares IEEE doubles. A filter set's map from filters to columns is a function. The text that
-- yyjson writes of the clauses is not modelled.
--
-- Frames (src/provider/arrow_frame_decoder.cpp). `Frames` has the decoder's state and nanoarrow's
-- calls as a record of functions (`Nanoarrow`), `Frames.Layout` is `SameLayout`, `Frames.Messages`
-- says what a message of each type does, and `Frames.Push` is the loop. Memory is a function from
-- addresses to bytes, and nanoarrow gets the bytes that a view covers. Machine integers keep their
-- casts and their wrap. The loop runs on fuel, as much as the frame has bytes: each iteration
-- moves the offset on by a header of at least one byte. A frame is shorter than 2 ^ 63 bytes,
-- where the cast of its length to a signed number is exact. Assumed of nanoarrow: the body's
-- length is an `int64_t`, and the size of a header is read from the first 8 bytes of its message,
-- by a peek that finds a length prefix and again by decoding, which refuses less than 8 bytes
-- (`ReadsHeaderSize`). The release of schemas and arrays is not modelled.
--
-- Registry (src/bridge/duckdb_source.cpp). `Registry` has the tables of pending sources and live
-- bridges, their expiry and the registration; `Registry.Redeem` is `RedeemBridge`,
-- `Registry.Tokens` the comparison of tokens, `Registry.Targets` the lookup of the grants that a
-- call may change. A database instance, a pinned catalog, a context and a grant book are numbers;
-- which of them are still alive, the clock and the settings are the `World` of a call. Policies
-- are an interface (`Registry.Policies`); `Registry.Invariant` carries any property of policies
-- through the calls. Each call holds the registry's mutex, so calls are taken one after another.
--
-- Grants (src/bridge/duckdb_source.cpp, src/bridge/include/duckdb_source.hpp) fills that
-- interface. `Grants` has the grant of a table and what installs a verb, facts and a key in it,
-- `Grants.Tables` the tables of grants, `Grants.Validate` the checks of a whole set,
-- `Grants.Edits` what each kind of `SetPolicy` does to a policy, `Grants.Commit` is
-- `CommitPolicy`, and `Grants.Reachable` the steps of a process. `Grants.Source` is what the
-- source's catalog, parser, binder and queries answer (parameters) and what a grant keeps of it,
-- `Grants.Resolve` is `ResolveVerb`, `Grants.Keys` `ResolveKey`, `Grants.Guarded` says which
-- failures are thrown and which are recorded, `Grants.Policies` is `ResolvePolicy`, and
-- `Grants.Calls` `SetPolicy` and `ConfigurePolicy`, whose lookup and commit are two steps with any
-- calls between them, with the values of contexts as a parameter. `Grants.Contexts` is
-- `SetContextFunc` and `FinalizeContextFunc`, with the contexts by their number; a value is known
-- by a number, and is not NULL. `Grants.Describe` is `DescribeSchema` and `Describe`; the catalog
-- that a description reads is a parameter. `Grants.Seam` has `PointCheckAtUpdatedRow`,
-- `Grants.Shaping` is `PolicyResolver` and `PolicyShaper`, on the parts of a statement that they
-- reach; `Grants.Shaping.Meaning` says what an expression is at a row, with DuckDB's evaluation as
-- a parameter (`Engine`, whose AND holds where both sides do), and how DuckDB compares the names
-- of columns is a parameter too. A predicate is a parsed expression (`Grants.Expression`), of the
-- classes that the code tells apart. A grant book's lock is held for a whole step. What `Refresh`
-- of an attached target returns is part of the `World`, as are the closing of instances and the
-- dropping of grant books.
--
-- PredicateFold (src/bridge/predicate_fold.cpp). Whether DuckDB's rewriter leaves nothing of a
-- predicate, over the operators of the plan; the planner and the rewriter are a parameter.
--
-- KeyBuffer (src/provider/include/vcat_pk_buffer.hpp, src/vcat/include/vcat_key_check.hpp). The
-- keys that a statement scans, found again by row ids, and the check that a write reached no more
-- rows than keys.
--
-- Permissions (src/vcat/vcat_permissions.cpp). The rows that a native catalog reports, with a
-- schema known by what its scans give and, for a wrapper, by the rows that it adds.
--
-- Not modelled: the session of a bridge with its DDL guards, the sorted listings, the bridge
-- catalog, the lockdown, the virtual catalogs and schemas, and of the provider the catalog, the
-- tables, the streamed scans and the Arrow conversion, which for the most part build plans and
-- entries of DuckDB.
--
-- Taken as parameters: DuckDB's `StringUtil` and the verb table of the crossing library (`Host`),
-- with the laws that the code relies on, and the reader of JSON texts. `Samples` has instances of
-- them. Case-insensitive containers are lists with one order of iteration (`CaseInsensitive`).
mod Prelude
pub mod Host
pub mod Samples
pub mod CaseInsensitive
pub mod Policy
pub mod Filter
pub mod Frames
pub mod Grants
pub mod PredicateFold
pub mod Registry
pub mod KeyBuffer
pub mod Permissions
