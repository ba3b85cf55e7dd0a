-- ===== src/Policy/Name/RoundTrip.antt =====
-- Names: printing with quotes and parsing back, and what a successful parse guarantees.
use text.Mathlib.TextLemmas.{append-nil, append_assoc, nil-append, cons-append}
use mathlib.Core.List.{append_assoc as list_append_assoc}
use duckdb_virtual_catalog.Prelude.{
  String, Char, code, ◌≡◌, refl, ap, sym, ◌∙◌, false, Bool-cases, inl, inr, List, [], ◌∷◌, ◌++◌,
  All, ◌==◌, ◌<>◌, is_empty, push_back, if◌then◌else◌, ok,
}
use duckdb_virtual_catalog.Host.{StringUtil}
use duckdb_virtual_catalog.Policy.Name.{bare, inside, closing, scan, parse_policy_name_parts}

-- A part with each quote in it doubled.
unfoldable pub escape : String → String
escape String.[] = ""
escape (String.◌∷◌ c s) =
    let more = escape s in
    if code c == b'"' then String.◌∷◌ c (String.◌∷◌ c more) else String.◌∷◌ c more

abbrev quote : Char
quote = "\""

abbrev dot : Char
dot = "."

unfoldable pub quote_part : String → String
unfolding escape
quote_part p = String.◌∷◌ quote (escape p <> String.◌∷◌ quote "")

-- The parts of a name, each in quotes, joined by dots.
unfoldable pub print_parts : List String → String
unfolding quote_part
print_parts [] = ""
print_parts (p ∷ []) = quote_part p
print_parts (p ∷ q ∷ ps) = quote_part p <> "." <> print_parts (q ∷ ps)

push_back-append :
    (part : String) (c : Char) (p : String) → push_back part c <> p ≡ part <> (String.◌∷◌ c p)
push_back-append part c p = rw (append_assoc, cons-append, nil-append)

quote_part-append :
    (p rest : String) → quote_part p <> rest ≡ String.◌∷◌ quote (escape p <> String.◌∷◌ quote rest)
unfolding quote_part
quote_part-append p rest =
    cons-append quote (escape p <> String.◌∷◌ quote "") rest
    ∙ ap (String.◌∷◌ quote)
        (append_assoc (escape p) (String.◌∷◌ quote "") rest ∙ ap (λ x. escape p <> x) push_quote)
  where
    push_quote : String.◌∷◌ quote "" <> rest ≡ String.◌∷◌ quote rest
    push_quote = cons-append quote "" rest ∙ ap (String.◌∷◌ quote) (nil-append rest)

dot-append : (rest : String) → "." <> rest ≡ String.◌∷◌ dot rest
dot-append rest = cons-append dot "" rest ∙ ap (String.◌∷◌ dot) (nil-append rest)

is_empty-print_parts : (p : String) (ps : List String) → is_empty (print_parts (p ∷ ps)) ≡ false
unfolding print_parts
is_empty-print_parts p [] = refl
is_empty-print_parts p (q ∷ qs) = rw (cons-append)

module _ ⦃u : StringUtil⦄ (text : String) where
  -- Inside the quotes an escaped run adds itself to the part.
  scan-escape :
      (ps : List String) (part p rest : String)
      → scan text (record { parts = ps; part = part; mode = inside }) (escape p <> rest)
        ≡ scan text (record { parts = ps; part = part <> p; mode = inside }) rest
  unfolding scan escape
  scan-escape ps part String.[] rest = rw (nil-append, append-nil)
  scan-escape ps part (String.◌∷◌ c p) rest = elim (Bool-cases (code c == b'"')) [
    | inl hit ↦
        rw (hit, cons-append)
          (rw cons-append (
            rw hit
              (rw hit (scan-escape ps (push_back part c) p rest ∙ rw (push_back-append part c p)))))
    | inr miss ↦
        rw (miss, cons-append)
          (rw miss (scan-escape ps (push_back part c) p rest ∙ rw (push_back-append part c p)))
  ]

  scan-quote_part :
      (ps : List String) (p rest : String)
      → scan text (record { parts = ps; part = ""; mode = bare }) (quote_part p <> rest)
        ≡ scan text (record { parts = ps; part = p; mode = closing }) rest
  unfolding scan
  scan-quote_part ps p rest =
      rw (quote_part-append p rest, scan-escape ps "" p (String.◌∷◌ quote rest), nil-append p)

  scan-print_parts :
      (ps qs : List String) (p : String)
      → is_empty p ≡ false
      → All (λ q. is_empty q ≡ false) qs
      → scan text (record { parts = ps; part = ""; mode = bare }) (print_parts (p ∷ qs))
        ≡ ok (record { parts = ps ++ (p ∷ qs); part = ""; mode = bare })
  unfolding scan print_parts
  scan-print_parts ps [] p h k =
      ap (scan text (record { parts = ps; part = ""; mode = bare }))
        (sym (append-nil (quote_part p)))
      ∙ scan-quote_part ps p ""
      ∙ rw (h, h)
  scan-print_parts ps (q ∷ qs) p h (k, ks) =
      scan-quote_part ps p ("." <> print_parts (q ∷ qs))
      ∙ rw (dot-append, h, is_empty-print_parts q qs, h)
          (scan-print_parts (ps ++ (p ∷ [])) qs q k ks ∙ rw list_append_assoc)

module _ ⦃u : StringUtil⦄ where
  -- Printing a name with every part quoted and parsing it gives the parts back, whatever characters
  -- they hold, if there is a part and none is empty.
  pub parse_policy_name_parts-print_parts :
      (p : String) (ps : List String)
      → is_empty p ≡ false
      → All (λ q. is_empty q ≡ false) ps
      → parse_policy_name_parts (print_parts (p ∷ ps)) ≡ ok (p ∷ ps)
  unfolding parse_policy_name_parts
  parse_policy_name_parts-print_parts p ps h k =
      rw (scan-print_parts (print_parts (p ∷ ps)) [] ps p h k)
