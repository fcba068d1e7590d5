-- ===== src/Handle/NextLine.antt =====
-- lib/handle.c: `read_buf` on a connection that no error ends, and the line that it returns there.
use ant_http.Handle.{Input, Conn, line_from, read_line, read_buf}
use ant_http.Handle.Stream.{stream, IsOpen, antd_recv-exact}
use ant_http.Prelude.{
  ℕ, zero, suc, ◌+◌, ◌-◌, ◌<◌, ◌==◌, ==_iff, Bool-cases, inl, inr, Bytes, List, [], ◌∷◌, ◌++◌, All,
  length, ◌≡◌, ◌≢◌, refl, ap, arith,
}

-- What a reader returned on `c`, with `later` still to come.
pub record Took (c : Conn) (line later : Bytes) (r : Bytes × Conn) : Type 0 where
  pub left : List Input
  pub result : r ≡ (line, record c { input = left })
  pub behind : stream left ≡ later
  pub open_still : IsOpen c.ssl left

read_line-Took :
    (room : ℕ) (c : Conn) (s later : Bytes)
    → IsOpen c.ssl c.input
    → All (λ b. b ≢ b'\n') s
    → length s < room
    → stream c.input ≡ s ++ (b'\n' ∷ later)
    → Took c (s ++ (b'\n' ∷ [])) later (read_line room c)
unfolding read_line line_from
read_line-Took zero c s later o h l e = absurd (omega arith)
read_line-Took (suc room) c [] later o h l e =
    let (q, got, behind, o') = antd_recv-exact c (b'\n' ∷ []) later o e in
    rw got record { left = q; result = refl; behind = behind; open_still = o' }
read_line-Took (suc room) c (b ∷ s) later o (n, h) l e =
    let (q, got, behind, o') = antd_recv-exact c (b ∷ []) (s ++ (b'\n' ∷ later)) o e in
    let t = read_line-Took room (record c { input = q }) s later o' h (omega arith) behind in
    rw got (elim (Bool-cases (b == b'\n')) [
      | inl y ↦ absurd (n ((==_iff b b'\n').0 y))
      | inr n' ↦ rw n' record {
        left = t.left;
        result = ap (λ r. (b ∷ r.0, r.1)) t.result;
        behind = t.behind;
        open_still = t.open_still;
      }
    ])

-- A line that the buffer has room for is read whole, with its newline, and what comes behind it
-- stays to be read.
pub read_buf-Took :
    (size : ℕ) (c : Conn) (s later : Bytes)
    → IsOpen c.ssl c.input
    → All (λ b. b ≢ b'\n') s
    → length s + 1 < size
    → stream c.input ≡ s ++ (b'\n' ∷ later)
    → Took c (s ++ (b'\n' ∷ [])) later (read_buf size c)
unfolding read_buf
read_buf-Took size c s later o h l e = read_line-Took (size - 1) c s later o h (omega arith) e
