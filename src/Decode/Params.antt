-- ===== src/Decode/Params.antt =====
-- decode.c: `decode_url_request` and `decode_cookie`.
pub mod Back
use ant_http.Decode.Tokens.{tokens}
use ant_http.Dictionary.{Dictionary, dput}
use ant_http.Prelude.{ℕ, Bytes, Option, none, some, List, [], ◌∷◌}
use ant_http.Utils.Trim.{strsep, trim}
use ant_http.Utils.Url.{url_decode}

-- `val`, or "" for a key with no `=`.
unfoldable pub param_value : Option Bytes → Bytes
unfolding strsep
param_value none = []
param_value (some s) = (strsep b'=' s).0

unfoldable pub put_param : Bytes × Option Bytes → Dictionary Bytes → Dictionary Bytes
unfolding param_value
put_param ([], rest) d = d
put_param (k ∷ key, rest) d = (dput d (k ∷ key) (some (url_decode (param_value rest)))).0

-- An empty token has an empty key.
unfoldable pub decode_params : List Bytes → Dictionary Bytes → Dictionary Bytes
unfolding put_param strsep
decode_params [] d = d
decode_params (token ∷ ts) d = decode_params ts (put_param (strsep b'=' token) d)

-- A query that is NULL or empty changes nothing.
unfoldable pub decode_url_request : Option Bytes → Dictionary Bytes → Dictionary Bytes
unfolding decode_params tokens
decode_url_request none d = d
decode_url_request (some []) d = d
decode_url_request (some (c ∷ s)) d = decode_params (tokens b'&' (c ∷ s)) d

-- A token with no `=`, or with nothing behind it, sets no cookie.
unfoldable pub put_cookie : Bytes × Option Bytes → Dictionary Bytes → Dictionary Bytes
put_cookie (key, none) d = d
put_cookie (key, some []) d = d
put_cookie (key, some (v ∷ value)) d = (dput d key (some (v ∷ value))).0

unfoldable pub decode_cookies : List Bytes → Dictionary Bytes → Dictionary Bytes
unfolding put_cookie strsep trim
decode_cookies [] d = d
decode_cookies (token ∷ ts) d = decode_cookies ts (put_cookie (strsep b'=' (trim token b' ')) d)

unfoldable pub decode_cookie : Bytes → Dictionary Bytes → Dictionary Bytes
unfolding decode_cookies tokens trim
decode_cookie line d = decode_cookies (tokens b';' (trim (trim (trim line b' ') b'\n') 13)) d
