-- ===== src/Decode/Params/Back.antt =====
-- decode.c: queries and cookies that are written down and decoded again.
use ant_http.Decode.Params.{param_value, put_param, decode_params, decode_url_request}
use ant_http.Decode.Tokens.{tokens, IsWithout, strsep_whole, strsep-append, join, tokens-join}
use ant_http.Dictionary.{Dictionary, dput}
use ant_http.Prelude.{
  ℕ, Bytes, IsText, some, List, [], ◌∷◌, ◌++◌, map, All, All-imp, All-append, ◌≡◌, ◌≢◌, refl, ap,
  ◌∙◌, arith,
}
use ant_http.Utils.Trim.{strsep}
use ant_http.Utils.Decimal.{is_digit}
use ant_http.Utils.Url.{
  is_alnum, url_decode, url_encode, url_decode-encode, url_encode-IsUrl, IsUrlByte, is_plain,
}

-- The bindings of a list, put one after the other.
unfoldable pub put_all : List (Bytes × Bytes) → Dictionary Bytes → Dictionary Bytes
put_all [] d = d
put_all ((key, value) ∷ ps) d = put_all ps (dput d key (some value)).0

-- `key=value`, with the value encoded.
unfoldable pub param_text : Bytes × Bytes → Bytes
param_text (key, value) = key ++ (b'=' ∷ url_encode value)

-- A key that needs no encoding, and a text as its value.
abbrev pub IsParam : Bytes × Bytes → Type 0
IsParam (key, value) = (key ≢ []) × IsWithout b'=' key × IsWithout b'&' key × IsText value

unfoldable pub query_text : List (Bytes × Bytes) → Bytes
unfolding param_text join
query_text ps = join b'&' (map param_text ps)

IsUrlByte-ne : (c : ℕ) → IsUrlByte c → (c ≢ b'=') × (c ≢ b'&')
unfolding is_plain is_alnum is_digit
IsUrlByte-ne c h = ground arith

url_encode-IsWithout :
    (s : Bytes) → IsText s → IsWithout b'=' (url_encode s) × IsWithout b'&' (url_encode s)
url_encode-IsWithout s h =
    let u = url_encode-IsUrl s h in
    (
      All-imp (λ c k. (IsUrlByte-ne c k).0) (url_encode s) u,
      All-imp (λ c k. (IsUrlByte-ne c k).1) (url_encode s) u,
    )

put_param_text :
    (p : Bytes × Bytes) (d : Dictionary Bytes)
    → IsParam p
    → put_param (strsep b'=' (param_text p)) d ≡ (dput d p.0 (some p.1)).0
unfolding put_param param_text param_value
put_param_text ([], value) d (ne, h, h', text) = absurd (ne refl)
put_param_text (k ∷ key, value) d (ne, h, h', text) =
    ap (λ r. put_param r d) (strsep-append b'=' (k ∷ key) (url_encode value) h)
    ∙ ap (λ v. (dput d (k ∷ key) (some v)).0)
        (ap (λ r. url_decode r.0)
            (strsep_whole b'=' (url_encode value) (url_encode-IsWithout value text).0)
          ∙ url_decode-encode value text)

decode_param_texts :
    (ps : List (Bytes × Bytes)) (d : Dictionary Bytes)
    → All IsParam ps
    → decode_params (map param_text ps) d ≡ put_all ps d
unfolding decode_params put_all
decode_param_texts [] d h = refl
decode_param_texts (p ∷ ps) d (h, hs) =
    ap (decode_params (map param_text ps)) (put_param_text p d h)
    ∙ decode_param_texts ps (dput d p.0 (some p.1)).0 hs

param_text-IsWithout : (p : Bytes × Bytes) → IsParam p → IsWithout b'&' (param_text p)
unfolding param_text
param_text-IsWithout (key, value) (ne, h, h', text) =
    All-append (λ c. c ≢ b'&') key (b'=' ∷ url_encode value) h'
      (omega arith, (url_encode-IsWithout value text).1)

param_texts-IsWithout :
    (ps : List (Bytes × Bytes)) → All IsParam ps → All (IsWithout b'&') (map param_text ps)
param_texts-IsWithout [] h = tt
param_texts-IsWithout (p ∷ ps) (h, hs) = (param_text-IsWithout p h, param_texts-IsWithout ps hs)

decode_url_some :
    (s : Bytes) (d : Dictionary Bytes)
    → decode_url_request (some s) d ≡ decode_params (tokens b'&' s) d
unfolding decode_url_request
decode_url_some [] d = refl
decode_url_some (c ∷ s) d = refl

tokens-query_text :
    (p : Bytes × Bytes) (ps : List (Bytes × Bytes))
    → All IsParam (p ∷ ps)
    → tokens b'&' (query_text (p ∷ ps)) ≡ map param_text (p ∷ ps)
unfolding query_text
tokens-query_text p ps h =
    tokens-join b'&' (param_text p) (map param_text ps) (param_texts-IsWithout (p ∷ ps) h)

-- A query that is written from keys that need no encoding, and any texts as their values, is
-- decoded to these bindings, put in order: a later one for a key replaces an earlier one.
pub decode_url_request-query_text :
    (ps : List (Bytes × Bytes)) (d : Dictionary Bytes)
    → All IsParam ps
    → decode_url_request (some (query_text ps)) d ≡ put_all ps d
decode_url_request-query_text [] d h = unfold decode_url_request query_text put_all in refl
decode_url_request-query_text (p ∷ ps) d h =
    decode_url_some (query_text (p ∷ ps)) d
    ∙ ap (λ ts. decode_params ts d) (tokens-query_text p ps h)
    ∙ decode_param_texts (p ∷ ps) d h
