-- ===== src/Decode/Header/Ends.antt =====
-- decode.c: how the loop of `decode_request_header` ends.
use ant_http.Decode.Header.{
  HeaderState, HeaderEnd, put_header, trimmed, special_header, header_line, header_loop,
  header_max_size,
}
use ant_http.Handle.{buff_len, read_buf}
use ant_http.Handle.Lines.{IsLine, read_buf-LineRead}
use ant_http.Handle.Stream.{stream}
use ant_http.Prelude.{
  ℕ, zero, suc, ◌+◌, ◌*◌, ◌≤◌, ◌<◌, ltb, ◌==◌, ==_iff, ltb→lt, ltb→lt, Bytes, codes, str_eq,
  c_string, true, Option, none, some, [], ◌∷◌, ◌++◌, append_assoc, length, length-append,
  Bool-cases, str_case_eq, ◌⊎◌, inl, inr, ◌≡◌, refl, sym, ap, ◌∙◌, arith,
}
use ant_http.Request.{Outcome, done, null_text, overrun, no_fuel}
use ant_http.Utils.Trim.{strsep, trim}

-- The bytes that were read between two states: those that were counted, and `extra` ones.
unfoldable pub Consumed : ℕ → HeaderState → HeaderState → Type 0
Consumed extra h e =
    (s : Bytes) × (stream h.conn.input ≡ s ++ stream e.conn.input)
    × (h.header_size + length s ≡ e.header_size + extra)

-- The ends that are possible, with their bounds.
unfoldable pub Ends : HeaderState → Outcome HeaderEnd → Type 0
unfolding Consumed
Ends h null_text = Unit
Ends h overrun = ⊥
Ends h no_fuel = ⊥
Ends h (done (HeaderEnd.complete e)) = (e.header_size ≤ header_max_size) × Consumed 2 h e
Ends h (done (HeaderEnd.starved e)) = (e.header_size ≤ header_max_size) × Consumed 0 h e
Ends h (done (HeaderEnd.too_large e)) =
    (header_max_size < e.header_size)
    × (e.header_size < header_max_size + 2 * buff_len)
    × Consumed 0 h e

-- A line changes neither the connection nor the count, if it is not fatal.
record Keeps (h : HeaderState) (o : Outcome HeaderState) : Type 0 where
  after :
      (o ≡ null_text)
      ⊎ ((e : HeaderState) × (o ≡ done e) × (e.conn ≡ h.conn) × (e.header_size ≡ h.header_size))

special_header-Keeps :
    (token : Bytes) (line : Option Bytes) (h : HeaderState) → Keeps h (special_header token line h)
unfolding special_header
special_header-Keeps token none h = elim (Bool-cases (str_case_eq token (codes "Cookie"))) [
  | inl y ↦ rw y record { after = inl refl }
  | inr n ↦ rw n (elim (Bool-cases (str_case_eq token (codes "Host"))) [
    | inl y ↦ rw y record { after = inl refl }
    | inr n' ↦ rw n' record { after = inr (h, refl, refl, refl) }
  ])
]
special_header-Keeps token (some s) h = elim (Bool-cases (str_case_eq token (codes "Cookie"))) [
  | inl y ↦ rw y record { after = inr (_, refl, refl, refl) }
  | inr n ↦ rw n (elim (Bool-cases (str_case_eq token (codes "Host"))) [
    | inl y ↦ rw y record { after = inr (_, refl, refl, refl) }
    | inr n' ↦ rw n' record { after = inr (h, refl, refl, refl) }
  ])
]

-- The empty line is two bytes long.
empty_line : (s : Bytes) → IsLine s → str_eq (13 ∷ 10 ∷ []) (c_string s) ≡ true → length s ≡ 2
unfolding IsLine str_eq c_string
empty_line [] l e = absurd (ground arith)
empty_line (x ∷ []) l e = ground arith
empty_line (x ∷ y ∷ []) l e = refl
empty_line (x ∷ y ∷ z ∷ s) l e = ground arith

first-Consumed :
    (extra : ℕ) (h h' e : HeaderState) (s : Bytes)
    → stream h.conn.input ≡ s ++ stream h'.conn.input
    → h'.header_size ≡ h.header_size + length s
    → Consumed extra h' e
    → Consumed extra h e
unfolding Consumed
first-Consumed extra h h' e s split count (t, split', count') = (
  s ++ t,
  split ∙ ap (λ r. s ++ r) split' ∙ sym (append_assoc s t (stream e.conn.input)),
  omega (arith, length-append s t),
)

first-Ends :
    (h h' : HeaderState) (o : Outcome HeaderEnd) (s : Bytes)
    → stream h.conn.input ≡ s ++ stream h'.conn.input
    → h'.header_size ≡ h.header_size + length s
    → Ends h' o
    → Ends h o
unfolding Ends
first-Ends h h' null_text s split count e = tt
first-Ends h h' overrun s split count e = e
first-Ends h h' no_fuel s split count e = e
first-Ends h h' (done (HeaderEnd.complete e)) s split count (b, c) =
    (b, first-Consumed 2 h h' e s split count c)
first-Ends h h' (done (HeaderEnd.starved e)) s split count (b, c) =
    (b, first-Consumed 0 h h' e s split count c)
first-Ends h h' (done (HeaderEnd.too_large e)) s split count (b, b', c) =
    (b, b', first-Consumed 0 h h' e s split count c)

header_line-Keeps :
    (buf : Bytes) (h : HeaderState)
    → (header_line buf h ≡ null_text)
      ⊎ ((e : HeaderState) × (header_line buf h ≡ done e)
          × (e.conn ≡ h.conn)
          × (e.header_size ≡ h.header_size + length buf))
unfolding header_line
header_line-Keeps buf h =
    let (name, rest) = strsep b':' (trim (trim (c_string buf) b'\n') 13) in
    let token = trim name b' ' in
    let line = trimmed rest in
    (special_header-Keeps token line record h {
      header = put_header token line h.header;
      header_size = h.header_size + length buf;
    }).after

-- On enough fuel the loop ends, never because the fuel is used up: at the empty line or where nothing
-- is left to read, with at most 8192 bytes counted, above that but below 10240, or in a call on NULL.
-- The bytes counted are those that were read, without the two of the empty line.
pub header_loop-Ends :
    (fuel : ℕ) (h : HeaderState)
    → h.header_size ≤ header_max_size
    → header_max_size < fuel + h.header_size
    → Ends h (header_loop fuel h)
unfolding header_loop Ends Consumed
header_loop-Ends zero h l f = absurd (omega arith)
header_loop-Ends (suc fuel) h l f =
    let (buf, c) = read_buf (2 * buff_len) h.conn in
    let (split, fits, is_line) = read_buf-LineRead (2 * buff_len) h.conn in
    let h₁ = record h { conn = c } in
    elim (Bool-cases (length buf == 0)) [
      | inl y ↦ rw y (l, (buf, split, omega (arith, (==_iff (length buf) 0).0 y)))
      | inr n ↦ rw n (elim (Bool-cases (str_eq (13 ∷ 10 ∷ []) (c_string buf))) [
        | inl y' ↦ rw y' (l, (buf, split, omega (arith, empty_line buf is_line y')))
        | inr n' ↦ rw n' (elim (header_line-Keeps buf h₁) [
          | inl e ↦ rw e tt
          | inr (h₂, e, same, count) ↦
              let split₂ = split ∙ ap (λ k. buf ++ stream k.input) (sym same) in
              rw e (elim (Bool-cases (ltb header_max_size h₂.header_size)) [
                | inl big ↦ rw big (
                  ltb→lt _ _ big,
                  omega (arith, fits, count, l),
                  (buf, split₂, omega (arith, count)),
                )
                | inr small ↦ rw small (
                    first-Ends h h₂ _ buf split₂ count
                      (header_loop-Ends fuel h₂ (ground arith) (ground arith)))
              ])
        ])
      ])
    ]
