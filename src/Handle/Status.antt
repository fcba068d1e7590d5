-- ===== src/Handle/Status.antt =====
-- lib/handle.c: `get_status_str`.
use ant_http.Prelude.{
  ℕ, ◌≤◌, ◌<◌, leb, ltb, ◌==◌, Bytes, codes, Bool, true, ◌&&◌, if◌then◌else◌, List, [], ◌∷◌, All,
  ◌≡◌, refl, arith,
}

-- The cases of the `switch`, and the text of the constant that each returns.
abbrev pub statuses : List (ℕ × Bytes)
statuses =
    (100, codes "Continue")
    ∷ (101, codes "Switching Protocols")
    ∷ (102, codes "Processing")
    ∷ (103, codes "Early Hints")
    ∷ (200, codes "OK")
    ∷ (201, codes "Created")
    ∷ (202, codes "Accepted")
    ∷ (203, codes "Non-Authoritative Information")
    ∷ (204, codes "No Content")
    ∷ (205, codes "Reset Content")
    ∷ (206, codes "Partial Content")
    ∷ (207, codes "Multi-Status")
    ∷ (208, codes "Already Reported")
    ∷ (226, codes "IM Used")
    ∷ (300, codes "Multiple Choices")
    ∷ (301, codes "Moved Permanently")
    ∷ (302, codes "Found")
    ∷ (303, codes "See Other")
    ∷ (304, codes "Not Modified")
    ∷ (305, codes "Use Proxy")
    ∷ (306, codes "Switch Proxy")
    ∷ (307, codes "Temporary Redirect")
    ∷ (308, codes "Permanent Redirect")
    ∷ (400, codes "Bad Request")
    ∷ (401, codes "Unauthorized")
    ∷ (402, codes "Payment Required")
    ∷ (403, codes "Forbidden")
    ∷ (404, codes "Not Found")
    ∷ (405, codes "Method Not Allowed")
    ∷ (406, codes "Not Acceptable")
    ∷ (407, codes "Proxy Authentication Required")
    ∷ (408, codes "Request Timeout")
    ∷ (409, codes "Conflict")
    ∷ (410, codes "Gone")
    ∷ (411, codes "Length Required")
    ∷ (412, codes "Precondition Failed")
    ∷ (413, codes "Payload Too Large")
    ∷ (414, codes "URI Too Long")
    ∷ (415, codes "Unsupported Media Type")
    ∷ (416, codes "Range Not Satisfiable")
    ∷ (417, codes "Expectation Failed")
    ∷ (421, codes "Misdirected Request")
    ∷ (422, codes "Unprocessable Entity")
    ∷ (423, codes "Locked")
    ∷ (424, codes "Failed Dependency")
    ∷ (425, codes "Too Early")
    ∷ (426, codes "Upgrade Required")
    ∷ (428, codes "Precondition Required")
    ∷ (429, codes "Too Many Requests")
    ∷ (431, codes "Request Header Fields Too Large")
    ∷ (451, codes "Unavailable For Legal Reasons")
    ∷ (500, codes "Internal Server Error")
    ∷ (501, codes "Not Implemented")
    ∷ (502, codes "Bad Gateway")
    ∷ (503, codes "Service Unavailable")
    ∷ (504, codes "Gateway Timeout")
    ∷ (505, codes "HTTP Version Not Supported")
    ∷ (506, codes "Variant Also Negotiates")
    ∷ (507, codes "Insufficient Storage")
    ∷ (508, codes "Loop Detected")
    ∷ (510, codes "Not Extended")
    ∷ (511, codes "Network Authentication Required")
    ∷ []

unfoldable pub status_in : ℕ → List (ℕ × Bytes) → Bytes
status_in stat [] = codes "Unofficial Status"
status_in stat ((code, text) ∷ ts) =
    let later = status_in stat ts in if stat == code then text else later

unfoldable pub get_status_str : ℕ → Bytes
get_status_str stat = status_in stat statuses

-- A printable ASCII character.
abbrev pub IsPrintable : ℕ → Type 0
IsPrintable c = (32 ≤ c) × (c < 127)

printable : Bytes → Bool
printable [] = true
printable (c ∷ s) = leb 32 c && (ltb c 127 && printable s)

printable_sound : (s : Bytes) → printable s ≡ true → All IsPrintable s
unfolding printable
printable_sound [] h = tt
printable_sound (c ∷ s) h = ((ground arith, ground arith), printable_sound s (ground arith))

printables : List (ℕ × Bytes) → Bool
printables [] = true
printables ((code, text) ∷ ts) = printable text && printables ts

status_in-printable :
    (stat : ℕ) (ts : List (ℕ × Bytes)) → printables ts ≡ true → printable (status_in stat ts) ≡ true
unfolding status_in printables
status_in-printable stat [] h = unfold printable in refl
status_in-printable stat ((code, text) ∷ ts) h = ground (arith, status_in-printable stat ts)

printables-statuses : printables statuses ≡ true
unfolding printables printable
printables-statuses = refl

-- Every text, the default one too, is of printable characters: it cannot break the status line.
pub get_status_str-IsPrintable : (stat : ℕ) → All IsPrintable (get_status_str stat)
unfolding get_status_str
get_status_str-IsPrintable stat =
    printable_sound _ (status_in-printable stat statuses printables-statuses)
