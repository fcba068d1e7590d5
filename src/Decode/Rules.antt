-- ===== src/Decode/Rules.antt =====
-- decode.c: `apply_rules` and `rule_check`. A regular expression is a parameter: for a pattern and a
-- text, the start and the end of the match and of each of its groups. The texts fit their buffers.
use mathlib.Core.List.{flatten}
use ant_http.Dictionary.{Dictionary}
use ant_http.Prelude.{
  ℕ, zero, suc, ◌+◌, ◌-◌, ℤ, pos, negsuc, Bytes, codes, str_case_eq, c_string, Bool, true, false,
  ◌||◌, if◌then◌else◌, Option, none, some, List, [], ◌∷◌, ◌++◌, length, take, drop, get_or,
  replicate,
}
use ant_http.Utils.Decimal.{atoi}
use ant_http.Utils.Trim.{strsep}

abbrev pub Regex : Type 0
Regex = Bytes → Bytes → Option (List (ℕ × ℕ))

abbrev pub matches : Option (List (ℕ × ℕ)) → Bool
matches none = false
matches (some _) = true

-- The bytes of a group; a tag in a rule names one of the ten groups that are kept.
unfoldable pub group : Bytes → List (ℕ × ℕ) → ℕ → Bytes
group s ms i = let (so, eo) = get_or ms i (0, 0) in take (eo - so) (drop so s)

-- What a rule is tried on: the matches on the host, or else those on the url.
unfoldable pub matched : Bytes → Option (List (ℕ × ℕ)) → Option (Bytes × List (ℕ × ℕ))
matched s none = none
matched s (some ms) = some (s, ms)

unfoldable pub rule_target : Regex → Bytes → Option Bytes → Bytes → Option (Bytes × List (ℕ × ℕ))
unfolding matched
rule_target regex k none url = matched url (regex k url)
rule_target regex k (some host) url = elim (regex k host) [
  | none ↦ matched url (regex k url)
  | some ms ↦ some (host, ms)
]

unfoldable pub int_group : Bytes → List (ℕ × ℕ) → ℤ → Bytes
int_group target ms (pos i) = group target ms i
int_group target ms (negsuc i) = []

-- What stands for `<name>`, whose brackets are in `whole`.
unfoldable pub replacement : Regex → Bytes → List (ℕ × ℕ) → Bytes → Bytes → Bytes → Bytes → Bytes
unfolding int_group
replacement regex target ms url query name whole =
    if str_case_eq name (codes "url")
    then url
    else if str_case_eq name (codes "query")
    then query
    else if matches (regex (codes "^[-+]?[0-9]+$") name)
    then int_group target ms (atoi name)
    else if str_case_eq name (codes "break")
    then []
    else whole

-- The loop over the names in `tmp`. `rep` is the buffer of ten bytes that holds a name; it is
-- cleared before the loop only. The result is what is written, and what is left of `tmp`.
unfoldable pub expand :
    ℕ → Regex → Bytes → List (ℕ × ℕ) → Bytes → Bytes → Bytes → Bytes → Bytes × Bytes
unfolding replacement
expand zero regex target ms url query rep tmp = ([], tmp)
expand (suc fuel) regex target ms url query rep tmp = elim (regex (codes "<([a-zA-Z0-9]+)>") tmp) [
  | none ↦ ([], tmp)
  | some vs ↦
      let (so, eo) = get_or vs 1 (0, 0) in
      let word = take (eo - so) (drop so tmp) in
      let rep' = word ++ drop (length word) rep in
      let whole = take (eo + 2 - so) (drop (so - 1) tmp) in
      let piece = replacement regex target ms url query (c_string rep') whole in
      let (out, rest) = expand fuel regex target ms url query rep' (drop (eo + 1) tmp) in
      (take (so - 1) tmp ++ (piece ++ out), rest)
]

-- The text in the buffer of the url behind the loop: nothing changes where nothing was written.
unfoldable pub rewritten : Bytes → Bytes × Bytes → Bytes
rewritten url ([], rest) = url
rewritten url (c ∷ out, rest) = (c ∷ out) ++ rest

-- The new url with its query, if the rule applies.
unfoldable pub rule_check : Regex → Bytes → Bytes → Option Bytes → Bytes → Bytes → Option Bytes
unfolding rule_target expand rewritten
rule_check regex k v host url query = elim (rule_target regex k host url) [
  | none ↦ none
  | some (target, ms) ↦
      some (rewritten url (expand (length v) regex target ms url query (replicate 10 0) v))
]

-- The url, cut at its first `?`, and the query behind it.
unfoldable pub split_query : Bytes → Bytes × Bytes
unfolding strsep
split_query url = let (uri, rest) = strsep b'?' url in (uri, elim rest [ none ↦ [] | some q ↦ q ])

-- `should_break` stays set once a rule ends in `<break>`, whether that rule applies or not.
unfoldable pub apply_rule_list :
    Regex → List (Bytes × Option Bytes) → Bool → Option Bytes → Bytes × Bytes → Bytes × Bytes
unfolding rule_check split_query
apply_rule_list regex [] should_break host (uri, query) = (uri, query)
apply_rule_list regex ((k, none) ∷ rules) should_break host (uri, query) =
    apply_rule_list regex rules should_break host (uri, query)
apply_rule_list regex ((k, some v) ∷ rules) should_break host (uri, query) =
    let should_break' = should_break || matches (regex (codes "<break>$") v) in
    elim (rule_check regex k v host uri query) [
      | none ↦ apply_rule_list regex rules should_break' host (uri, query)
      | some url ↦
          let next = apply_rule_list regex rules should_break' host (split_query url) in
          if should_break' then split_query url else next
    ]

-- The url that is left in its buffer, and the query that is returned.
unfoldable pub apply_rules : Regex → Dictionary Bytes → Option Bytes → Bytes → Bytes × Bytes
unfolding apply_rule_list
apply_rules regex rules host url =
    apply_rule_list regex (flatten rules.map) false host (split_query url)
