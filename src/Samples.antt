-- ===== src/Samples.antt =====
-- Concrete instances of what the code takes from outside, at which the theorems are run: string
-- utilities on ASCII, and a verb table.
use duckdb_virtual_catalog.Prelude.{
  ℕ, ◌+◌, ◌<◌, String, Char, code, ◌≡◌, refl, Bool, true, false, ◌&&◌, ◌||◌, List, [], ◌∷◌, ◌<>◌,
  ◌≟◌, ◌==◌, leb, arith, is_empty, if◌then◌else◌, Any, here, there, length,
}
use duckdb_virtual_catalog.Host.{
  StringUtil, Crossing, CrossingVerb, select, insert, update, delete, alter, create, drop,
}

lower : ℕ → ℕ
lower n = if leb b'A' n && leb n b'Z' then n + 32 else n

-- Letters are compared by their lower case.
unfoldable pub ci_equals : String → String → Bool
unfolding lower
ci_equals String.[] String.[] = true
ci_equals (String.◌∷◌ c s) (String.◌∷◌ d t) = lower (code c) == lower (code d) && ci_equals s t
ci_equals _ _ = false

pub ci_refl : (a : String) → ci_equals a a ≡ true
unfolding ci_equals
ci_refl String.[] = refl
ci_refl (String.◌∷◌ c s) = ground (arith, ci_refl s)

pub ci_sym : (a b : String) → ci_equals a b ≡ true → ci_equals b a ≡ true
unfolding ci_equals
ci_sym String.[] String.[] h = refl
ci_sym (String.◌∷◌ c s) (String.◌∷◌ d t) h = ground (arith, ci_sym s t)
ci_sym _ _ h = cc

pub ci_trans : (a b c : String) → ci_equals a b ≡ true → ci_equals b c ≡ true → ci_equals a c ≡ true
unfolding ci_equals
ci_trans String.[] String.[] String.[] h k = refl
ci_trans (String.◌∷◌ c s) (String.◌∷◌ d t) (String.◌∷◌ e r) h k = ground (arith, ci_trans s t r)
ci_trans _ _ _ h k = ground arith

abbrev pub is_blank_char : Char → Bool
is_blank_char c = code c == 32 || code c == 9 || code c == 10 || code c == 13

trim_start : String → String
trim_start String.[] = ""
trim_start (String.◌∷◌ c s) =
    let rest = trim_start s in if is_blank_char c then rest else String.◌∷◌ c s

trim_end : String → String
trim_end String.[] = ""
trim_end (String.◌∷◌ c s) =
    let rest = trim_end s in if is_empty rest && is_blank_char c then "" else String.◌∷◌ c rest

unfoldable pub trim : String → String
unfolding trim_start trim_end
trim s = trim_end (trim_start s)

unfoldable pub replace : String → String → String → String
replace String.[] from to = ""
replace (String.◌∷◌ c s) from to =
    let rest = replace s from to in
    if (String.◌∷◌ c "") ≟ from then to <> rest else String.◌∷◌ c rest

unfoldable pub join : List String → String → String
join [] separator = ""
join (s ∷ []) separator = s
join (s ∷ t ∷ ss) separator = s <> separator <> join (t ∷ ss) separator

instance abbrev pub ascii : StringUtil
ascii = record {
  ci_equals = ci_equals;
  trim = trim;
  is_space = is_blank_char;
  replace = replace;
  join = join;
  ci_refl = ci_refl;
  ci_sym = ci_sym;
  ci_trans = ci_trans;
}

abbrev pub verb_index : CrossingVerb → ℕ
verb_index select = 0
verb_index insert = 1
verb_index update = 2
verb_index delete = 3
verb_index alter = 4
verb_index create = 5
verb_index drop = 6

abbrev pub verb_names : CrossingVerb → String
verb_names select = "select"
verb_names insert = "insert"
verb_names update = "update"
verb_names delete = "delete"
verb_names alter = "alter"
verb_names create = "create"
verb_names drop = "drop"

abbrev pub is_ddl_verb : CrossingVerb → Bool
is_ddl_verb alter = true
is_ddl_verb create = true
is_ddl_verb drop = true
is_ddl_verb _ = false

abbrev pub all_verbs : List CrossingVerb
all_verbs = select ∷ insert ∷ update ∷ delete ∷ alter ∷ create ∷ drop ∷ []

pub verb_index-lt : (v : CrossingVerb) → verb_index v < length all_verbs
verb_index-lt select = omega arith
verb_index-lt _ = omega arith

pub verb_index-lt_8 : (v : CrossingVerb) → verb_index v < 8
verb_index-lt_8 select = omega arith
verb_index-lt_8 _ = omega arith

pub verb_index_injective : (v w : CrossingVerb) → verb_index v ≡ verb_index w → v ≡ w
verb_index_injective v w h = ground arith

pub verb_listed : (v : CrossingVerb) → Any (λ w. w ≡ v) all_verbs
verb_listed select = here refl
verb_listed insert = there (here refl)
verb_listed update = there (there (here refl))
verb_listed delete = there (there (there (here refl)))
verb_listed alter = there (there (there (there (here refl))))
verb_listed create = there (there (there (there (there (here refl)))))
verb_listed drop = there (there (there (there (there (there (here refl))))))

instance abbrev pub verb_table : Crossing
verb_table = record {
  verbs = all_verbs;
  verb_name = verb_names;
  index = verb_index;
  is_ddl = is_ddl_verb;
  index_lt = verb_index-lt;
  index_lt_8 = verb_index-lt_8;
  index_injective = verb_index_injective;
  listed = verb_listed;
}
