-- ===== src/Tests/StringTests.antt =====
-- Text helpers and the dictionary at concrete texts.
use ant_http.Dictionary.Laws.{
  IsValid, node_of, dict_n-IsValid, dlookup-dput, dput-IsValid, dremove-removes,
}
use ant_http.Dictionary.{Dictionary, dict_n, dlookup, dput, dremove}
use ant_http.Prelude.{ℕ, codes, str_eq, if◌then◌else◌, none, some, ◌≡◌, arith}
use ant_http.Utils.Url.{url_encode, url_decode, url_decode-encode}

url_decode-encode_example : url_decode (url_encode (codes "a b/c")) ≡ codes "a b/c"
url_decode-encode_example = url_decode-encode (codes "a b/c") (omega arith)

abbrev headers : Dictionary ℕ
headers = dict_n 16

headers-IsValid : IsValid headers
headers-IsValid = dict_n-IsValid 16 (omega arith)

dict_n-IsValid_example : IsValid (dict_n {V = ℕ} 16)
dict_n-IsValid_example = dict_n-IsValid 16 (omega arith)

abbrev with_host : Dictionary ℕ
with_host = (dput headers (codes "Host") (some 1)).0

with_host-IsValid : IsValid with_host
with_host-IsValid = dput-IsValid headers (codes "Host") (some 1) headers-IsValid

dput-IsValid_example : IsValid (dput with_host (codes "Cookie") none).0
dput-IsValid_example = dput-IsValid with_host (codes "Cookie") none with_host-IsValid

dlookup-dput_example : dlookup (dput with_host (codes "Cookie") (some 2)).0 (codes "Host") ≡ (
    if str_eq (codes "Host") (codes "Cookie")
    then some (some 2)
    else dlookup with_host (codes "Host"))
dlookup-dput_example =
    dlookup-dput with_host (codes "Cookie") (codes "Host") (some 2) with_host-IsValid

dremove-removes_example :
    ((dremove with_host (codes "Host")).0
      ≡ node_of (codes "Host") (dlookup with_host (codes "Host")))
    × (dlookup (dremove with_host (codes "Host")).1 (codes "Host")
        ≡ (if str_eq (codes "Host") (codes "Host") then none else dlookup with_host (codes "Host")))
    × IsValid (dremove with_host (codes "Host")).1
dremove-removes_example = dremove-removes with_host (codes "Host") (codes "Host") with_host-IsValid
