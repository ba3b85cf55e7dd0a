-- ===== src/Grants/Guarded.antt =====
-- bridge/duckdb_source.cpp: where a failure of a setting is reported, thrown or recorded.
use duckdb_virtual_catalog.Prelude.{
  String, Bool, true, false, List, [], ◌∷◌, ◌++◌, Option, none, some, if◌then◌else◌, is_empty, ◌≟◌,
  Result, Failure, ExceptionType, interrupt, internal, fatal, ok, err, ◌<>◌,
}

-- What follows a prefix; `none`: the text does not start with it.
unfoldable pub after_prefix : String → String → Option String
after_prefix String.[] text = some text
after_prefix (String.◌∷◌ c prefix) String.[] = none
after_prefix (String.◌∷◌ c prefix) (String.◌∷◌ d text) =
    let rest = after_prefix prefix text in
    if (String.◌∷◌ c "") ≟ (String.◌∷◌ d "") then rest else none

unfoldable pub starts_with : String → String → Bool
unfolding after_prefix
starts_with text prefix = elim (after_prefix prefix text) [ none ↦ false | some rest ↦ true ]

abbrev pub or_text : Option String → String → String
or_text none text = text
or_text (some rest) text = rest

abbrev pub bridge_prefix : String
bridge_prefix = "vcatbridge: "

unfoldable pub strip_bridge_prefix : String → String
unfolding after_prefix
strip_bridge_prefix message = or_text (after_prefix bridge_prefix message) message

-- What `RethrowAt` throws
unfoldable pub rethrow_at : Failure → String → Failure
unfolding strip_bridge_prefix starts_with
rethrow_at failure path =
    let message = strip_bridge_prefix failure.message in
    if starts_with message path
    then failure
    else record { type = failure.type; message = bridge_prefix <> path <> ": " <> message }

pub record PolicyIssue : Type 0 where
  pub path : String
  pub severity : String
  pub message : String

-- `none`: every failure throws.
abbrev pub PolicyIssues : Type 0
PolicyIssues = Option (List PolicyIssue)

abbrev pub has_issues : PolicyIssues → Bool
has_issues none = false
has_issues (some issues) = true

abbrev pub rethrows : ExceptionType → Bool
rethrows interrupt = true
rethrows internal = true
rethrows fatal = true
rethrows type = false

-- The message of an issue does not repeat its path.
unfoldable pub issue_message : Failure → String → String
unfolding strip_bridge_prefix after_prefix
issue_message failure path =
    let message = strip_bridge_prefix failure.message in
    if is_empty path then message else or_text (after_prefix (path <> ": ") message) message

unfoldable pub add_issue : PolicyIssues → PolicyIssue → PolicyIssues
add_issue none issue = none
add_issue (some issues) issue = some (issues ++ (issue ∷ []))

-- `Guarded`: what was computed, or `none` if its failure was recorded, and the issues after it
unfoldable pub guarded :
    {A : Type 0} → PolicyIssues → String → String → Result A → Result (Option A × PolicyIssues)
unfolding rethrow_at issue_message add_issue
guarded issues path severity (ok value) = ok (some value, issues)
guarded none path severity (err failure) = err (rethrow_at failure path)
guarded (some issues) path severity (err failure) =
    if rethrows failure.type
    then err failure
    else ok (
      none,
      add_issue (some issues)
          (record { path = path; severity = severity; message = issue_message failure path }),
    )
