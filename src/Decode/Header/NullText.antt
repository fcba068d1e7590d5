-- ===== src/Decode/Header/NullText.antt =====
-- decode.c: the header lines that `decode_request_header` does not survive.
use ant_http.Decode.Header.{HeaderState, put_header, trimmed, special_header, header_line}
use ant_http.Prelude.{
  ◌+◌, Bytes, codes, str_case_eq, c_string, true, length, Option, none, some, Bool-cases, ◌⊎◌, inl,
  inr, ◌↔◌, ◌≡◌, refl, arith,
}
use ant_http.Request.{null_text}
use ant_http.Utils.Trim.{strsep, trim}

-- The two names that the loop looks at itself, whatever their case.
abbrev pub IsSpecial : Bytes → Type 0
IsSpecial token =
    (str_case_eq token (codes "Cookie") ≡ true) ⊎ (str_case_eq token (codes "Host") ≡ true)

special_header-null_text :
    (token : Bytes) (line : Option Bytes) (h : HeaderState)
    → (special_header token line h ≡ null_text) ↔ ((line ≡ none) × IsSpecial token)
unfolding special_header
special_header-null_text token none h = elim (Bool-cases (str_case_eq token (codes "Cookie"))) [
  | inl y ↦ rw y ((λ e. (refl, inl refl)), λ k. refl)
  | inr n ↦ rw n (elim (Bool-cases (str_case_eq token (codes "Host"))) [
    | inl y ↦ rw y ((λ e. (refl, inr refl)), λ k. refl)
    | inr n' ↦ rw n' ((λ e. absurd cc), λ k. ground arith)
  ])
]
special_header-null_text token (some s) h = elim (Bool-cases (str_case_eq token (codes "Cookie"))) [
  | inl y ↦ rw y ((λ e. absurd cc), λ k. absurd cc)
  | inr n ↦ rw n (elim (Bool-cases (str_case_eq token (codes "Host"))) [
    | inl y ↦ rw y ((λ e. absurd cc), λ k. absurd cc)
    | inr n' ↦ rw n' ((λ e. absurd cc), λ k. absurd cc)
  ])
]

trimmed-none : (o : Option Bytes) → (trimmed o ≡ none) ↔ (o ≡ none)
unfolding trimmed
trimmed-none none = ((λ e. refl), λ e. refl)
trimmed-none (some s) = ((λ e. absurd cc), λ e. absurd cc)

-- A line calls the C library on NULL exactly if it has no colon and its text, trimmed, is the name
-- of the cookies or of the host.
pub header_line-null_text :
    (buf : Bytes) (h : HeaderState)
    → let (name, rest) = strsep b':' (trim (trim (c_string buf) b'\n') 13) in
      (header_line buf h ≡ null_text) ↔ ((rest ≡ none) × IsSpecial (trim name b' '))
unfolding header_line
header_line-null_text buf h =
    let (name, rest) = strsep b':' (trim (trim (c_string buf) b'\n') 13) in
    let token = trim name b' ' in
    let line = trimmed rest in
    let (to, from) = special_header-null_text token line record h {
      header = put_header token line h.header;
      header_size = h.header_size + length buf;
    } in
    (
      (λ e. let (n, k) = to e in ((trimmed-none rest).0 n, k)),
      λ (n, k). from ((trimmed-none rest).1 n, k),
    )
