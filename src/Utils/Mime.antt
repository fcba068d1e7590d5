-- ===== src/Utils/Mime.antt =====
-- lib/utils.c: extensions of file names and mime types. A regular expression is an argument: for a
-- pattern and a text, the match and its groups. `mimes` are the types with their extensions.
use mathlib.Core.List.{flatten}
use ant_http.Decode.Rules.{Regex, matches}
use ant_http.Decode.Tokens.{tokens}
use ant_http.Dictionary.{Dictionary, dlookup}
use ant_http.Prelude.{
  ◌==◌, Bytes, codes, has_part, if◌then◌else◌, Option, none, some, List, [], ◌∷◌, ◌++◌,
}
use ant_http.Utils.Trim.{trim}

-- The loop of `ext`: it ends at the first token that is empty.
unfoldable pub last_token : Bytes → List Bytes → Bytes
last_token token [] = token
last_token token ([] ∷ ts) = token
last_token token ((c ∷ s) ∷ ts) = last_token (c ∷ s) ts

unfoldable pub without_dot : Bytes → Bytes
unfolding trim
without_dot [] = []
without_dot (c ∷ s) = if c == b'.' then trim (c ∷ s) b'.' else c ∷ s

unfoldable pub ext : Bytes → Option Bytes
unfolding last_token without_dot tokens
ext file =
    if has_part (codes ".") file
    then some (last_token [] (tokens b'.' (without_dot file)))
    else none

unfoldable pub ext_pattern : Bytes → Bytes
ext_pattern ex =
    codes "(^\\s*"
    ++ (ex
        ++ (codes "\\s*,)|(\\s*,\\s*"
            ++ (ex
                ++ (codes "\\s*,\\s*)|(^\\s*"
                    ++ (ex ++ (codes "\\s*$)|(,\\s*" ++ (ex ++ codes "\\s*$)")))))))

unfoldable pub text_or_empty : Option Bytes → Bytes
text_or_empty none = []
text_or_empty (some s) = s

abbrev pub no_type : Bytes
no_type = codes "application/octet-stream"

-- The first type whose extensions have a match.
unfoldable pub type_in : Regex → Bytes → List (Bytes × Option Bytes) → Bytes
unfolding text_or_empty
type_in regex pattern [] = no_type
type_in regex pattern ((type, exts) ∷ ms) =
    let later = type_in regex pattern ms in
    if matches (regex pattern (text_or_empty exts)) then type else later

unfoldable pub mime_from_ext : Regex → Dictionary Bytes → Bytes → Bytes
unfolding type_in ext_pattern
mime_from_ext regex mimes ex = type_in regex (ext_pattern ex) (flatten mimes.map)

unfoldable pub mime : Regex → Dictionary Bytes → Bytes → Bytes
unfolding mime_from_ext ext
mime regex mimes file = elim (ext file) [ none ↦ no_type | some ex ↦ mime_from_ext regex mimes ex ]

-- The extensions that stand with a type, if the type is known.
unfoldable pub mime_from_type : Dictionary Bytes → Bytes → Option (Option Bytes)
unfolding dlookup
mime_from_type mimes type = dlookup mimes type
