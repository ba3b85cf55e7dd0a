-- ===== src/Grants/Policies.antt =====
-- bridge/duckdb_source.cpp: `ResolvePolicy`, which turns a parsed policy document into grants.
pub mod Granted
pub mod Stated
pub mod Wholeness
use duckdb_virtual_catalog.Prelude.{
  String, Bool, true, false, not, ◌&&◌, List, [], ◌∷◌, Option, none, some, if◌then◌else◌, is_empty,
  ◌==◌, get_or, Result, ok, err, io, ◌>>=◌, ◌>>◌, ◌<>◌, throw,
}
use duckdb_virtual_catalog.Host.{StringUtil, Crossing, CrossingVerb}
use duckdb_virtual_catalog.CaseInsensitive.{insert}
use duckdb_virtual_catalog.Policy.Name.{PolicyName}
use duckdb_virtual_catalog.Policy.Settings.{PolicyVerb, PolicyKey, denied}
use duckdb_virtual_catalog.Policy.Table.{PolicyTable}
use duckdb_virtual_catalog.Policy.Document.{PolicyFunctions, PolicySchema, PolicyConfig}
use duckdb_virtual_catalog.Policy.Edit.{add, remove}
use duckdb_virtual_catalog.Grants.{
  SourceGrant, ResolvedVerb, ResolvedKey, FunctionGrants, no_grant, install_verb, install_facts,
  install_key, apply_function_list,
}
use duckdb_virtual_catalog.Grants.Expression.{Parsed, context_names}
use duckdb_virtual_catalog.Grants.Tables.{GrantTables, PolicyState, find_grant, put_grant}
use duckdb_virtual_catalog.Grants.Seam.{Values}
use duckdb_virtual_catalog.Grants.Source.{
  Source, SourceEntry, facts_of, grantable_entry, throw_unless_schema_exists,
  throw_unless_foreign_key,
}
use duckdb_virtual_catalog.Grants.Resolve.{resolve_verb}
use duckdb_virtual_catalog.Grants.Keys.{resolve_key}
use duckdb_virtual_catalog.Grants.Guarded.{PolicyIssues, has_issues, add_issue, guarded}

module _ ⦃u : StringUtil⦄ where
  unfoldable pub optional_names : Option Parsed → List String → List String
  unfolding context_names
  optional_names none names = names
  optional_names (some expr) names = context_names expr names

  abbrev pub no_names : List String → Bool
  no_names [] = true
  no_names (name ∷ names) = false

  unfoldable pub uses_context : ResolvedVerb → Bool
  unfolding optional_names
  uses_context resolved = not (
      no_names
        (optional_names resolved.check_predicate (optional_names resolved.using_predicate [])))

  unfoldable pub insert_if : Option (Unit {0}) → String → List String → List String
  unfolding insert
  insert_if none name names = names
  insert_if (some checked) name names = insert name names

  unfoldable pub resolve_schemas :
      Source → List PolicySchema → PolicyIssues → List String → Result (List String × PolicyIssues)
  unfolding guarded throw_unless_schema_exists insert_if
  resolve_schemas source [] issues names = ok (names, issues)
  resolve_schemas source (schema ∷ schemas) issues names = do
    checked ← guarded issues schema.path "error" (throw_unless_schema_exists source schema.name)
    resolve_schemas source schemas checked.1 (insert_if checked.0 schema.name.schema names)

  unfoldable pub resolve_parents :
      Source
      → SourceEntry
      → PolicyTable
      → List PolicyName
      → SourceGrant
      → PolicyIssues
      → Result (SourceGrant × PolicyIssues)
  unfolding guarded throw_unless_foreign_key insert_if
  resolve_parents source entry table [] grant issues = ok (grant, issues)
  resolve_parents source entry table (parent ∷ parents) grant issues = do
    checked ←
        guarded issues (table.path <> ".foreign_keys") "error"
          (throw_unless_foreign_key source entry table.name parent)
    resolve_parents source entry table parents
        (record grant {
          allowed_foreign_keys = insert_if checked.0 parent.name grant.allowed_foreign_keys;
        })
        checked.1

unfoldable pub install_key_if : Option ResolvedKey → SourceGrant → SourceGrant
unfolding install_key
install_key_if none grant = grant
install_key_if (some resolved) grant = install_key grant resolved

abbrev pub key_severity : PolicyKey → String
key_severity key =
    if is_empty key.columns_from_query && is_empty key.verify_unique
    then "error"
    else "data_dependent"

unfoldable pub resolve_table_key :
    Source
    → SourceEntry
    → PolicyTable
    → SourceGrant
    → PolicyIssues
    → Result (SourceGrant × PolicyIssues)
unfolding guarded resolve_key install_key_if
resolve_table_key source entry table grant issues =
    let resolved : Result (SourceGrant × PolicyIssues) = do
      key ←
          guarded issues (table.path <> ".primary_key") (key_severity table.key)
            (resolve_key source entry table.name table.key)
      ok (install_key_if key.0 grant, key.1)
    in if table.has_key then resolved else ok (grant, issues)

module _ ⦃u : StringUtil⦄ ⦃c : Crossing⦄ where
  abbrev pub is_unbound : Option Values → Bool
  is_unbound none = true
  is_unbound (some values) = false

  -- The verb that was resolved is installed; one whose predicates were not bound is reported.
  unfoldable pub install_resolved :
      CrossingVerb
      → Option Values
      → String
      → Option ResolvedVerb
      → SourceGrant
      → PolicyIssues
      → SourceGrant × PolicyIssues
  unfolding uses_context add_issue install_verb
  install_resolved verb values path none grant issues = (grant, issues)
  install_resolved verb values path (some resolved) grant issues = (
    install_verb grant verb resolved,
    if has_issues issues && is_unbound values && uses_context resolved
        then add_issue issues (record {
          path = path;
          severity = "unchecked";
          message = "the predicate uses context, so it was not bound";
        })
        else issues,
  )

  -- The setting that a table of a document has for a verb
  unfoldable pub setting_of : PolicyTable → CrossingVerb → PolicyVerb
  setting_of table verb = get_or table.verbs (c.index verb) denied

  unfoldable pub resolve_one :
      Source
      → SourceEntry
      → PolicyTable
      → Option Values
      → CrossingVerb
      → SourceGrant
      → PolicyIssues
      → Result (SourceGrant × PolicyIssues)
  unfolding setting_of guarded resolve_verb install_resolved
  resolve_one source entry table values verb grant issues =
      let path = table.path <> "." <> c.verb_name verb in
      let resolved : Result (SourceGrant × PolicyIssues) = do
        result ←
            guarded issues path "error"
              (resolve_verb source entry table.name verb (setting_of table verb) values)
        ok (install_resolved verb values path result.0 grant result.1)
      in if (setting_of table verb).granted then resolved else ok (grant, issues)

  unfoldable pub resolve_verbs :
      Source
      → SourceEntry
      → PolicyTable
      → Option Values
      → List CrossingVerb
      → SourceGrant
      → PolicyIssues
      → Result (SourceGrant × PolicyIssues)
  unfolding resolve_one
  resolve_verbs source entry table values [] grant issues = ok (grant, issues)
  resolve_verbs source entry table values (verb ∷ verbs) grant issues = do
    one ← resolve_one source entry table values verb grant issues
    resolve_verbs source entry table values verbs one.0 one.1

  unfoldable pub check_new : PolicyName → Option SourceGrant → Result (Unit {0})
  check_new name none = ok tt
  check_new name (some grant) =
      throw io ("vcatbridge: '" <> name.schema <> "." <> name.name <> "' is configured twice")

  unfoldable pub put_resolved :
      PolicyName → SourceGrant → GrantTables → PolicyIssues → GrantTables × PolicyIssues
  unfolding put_grant
  put_resolved name grant tables issues =
      let put = put_grant tables name.schema name.name grant in
      if has_issues issues && (grant.verbs == 0) then (tables, issues) else (put, issues)

  unfoldable pub resolve_entry :
      Source
      → PolicyTable
      → Option Values
      → Option SourceEntry
      → GrantTables
      → PolicyIssues
      → Result (GrantTables × PolicyIssues)
  unfolding resolve_verbs resolve_table_key resolve_parents put_resolved facts_of install_facts
  resolve_entry source table values none tables issues = ok (tables, issues)
  resolve_entry source table values (some entry) tables issues = do
    verbs ←
        resolve_verbs source entry table values c.verbs (install_facts no_grant (facts_of entry))
          issues
    key ← resolve_table_key source entry table verbs.0 verbs.1
    parents ← resolve_parents source entry table table.foreign_keys key.0 key.1
    ok (put_resolved table.name parents.0 tables parents.1)

  -- One table of the loop of `ResolvePolicy`
  unfoldable pub resolve_table :
      Source
      → Option Values
      → PolicyTable
      → GrantTables
      → PolicyIssues
      → Result (GrantTables × PolicyIssues)
  unfolding guarded check_new grantable_entry resolve_entry find_grant
  resolve_table source values table tables issues = do
    found ← guarded issues table.path "error" (
        check_new table.name (find_grant tables table.name.schema table.name.name)
        >> grantable_entry source table.name)
    resolve_entry source table values found.0 tables found.1

  unfoldable pub resolve_tables :
      Source
      → Option Values
      → List PolicyTable
      → GrantTables
      → PolicyIssues
      → Result (GrantTables × PolicyIssues)
  unfolding resolve_table
  resolve_tables source values [] tables issues = ok (tables, issues)
  resolve_tables source values (table ∷ rest) tables issues = do
    one ← resolve_table source values table tables issues
    resolve_tables source values rest one.0 one.1

  unfoldable pub resolve_functions : PolicyFunctions → FunctionGrants
  unfolding apply_function_list
  resolve_functions functions =
      apply_function_list
        (apply_function_list
          (record { builtins = functions.builtins; allowed = []; disallowed = [] }) add
          functions.add)
        remove functions.remove

  -- `ResolvePolicy`
  unfoldable pub resolve_policy :
      Source → PolicyConfig → Option Values → PolicyIssues → Result (PolicyState × PolicyIssues)
  unfolding resolve_schemas resolve_tables resolve_functions
  resolve_policy source config values issues = do
    schemas ← resolve_schemas source config.create_schemas issues []
    tables ← resolve_tables source values config.tables [] schemas.1
    ok (
      record {
        tables = tables.0;
        create_schemas = schemas.0;
        functions = resolve_functions config.functions;
      },
      tables.1,
    )
