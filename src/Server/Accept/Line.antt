-- ===== src/Server/Accept/Line.antt =====
-- server.c: what `accept_request` reads of a request line.
use ant_http.Decode.Tokens.{strsep-append}
use ant_http.Prelude.{
  ℕ, ◌<◌, Bytes, some, [], ◌∷◌, ◌++◌, append_assoc, append-nil, All, All-imp, ◌≡◌, ◌≢◌, sym, ap,
  subst, ◌∙◌, arith,
}
use ant_http.Request.{decode_request_header, Request, Moment, put_field, task_on}
use ant_http.Server.Accept.{put_request, read_target, read_method}
use ant_http.Utils.Trim.{StartsWithout, strsep, trim}
use ant_http.Utils.Trim.Ends.{
  trim_copies_of, trim_whole, ends_snoc, ends_whole, word_starts, append_ne, trim_word,
}

-- A byte that ends no part of a request line.
abbrev pub IsWordByte : ℕ → Type 0
IsWordByte c = (0 < c) × (c < 256) × (c ≢ b' ') × (c ≢ b'\n') × (c ≢ 13)

abbrev pub IsWord : Bytes → Type 0
IsWord s = (s ≢ []) × All IsWordByte s

-- The line without its newline.
abbrev pub request_line : Bytes → Bytes → Bytes → Bytes
request_line method target protocol =
    method ++ (b' ' ∷ (target ++ (b' ' ∷ (protocol ++ (13 ∷ [])))))

abbrev line_tail : Bytes → Bytes → Bytes
line_tail target protocol = target ++ (b' ' ∷ (protocol ++ (13 ∷ b'\n' ∷ [])))

request_line_newline :
    (method target protocol : Bytes)
    → request_line method target protocol ++ (b'\n' ∷ [])
      ≡ method ++ (b' ' ∷ line_tail target protocol)
request_line_newline method target protocol =
    append_assoc method _ (b'\n' ∷ [])
    ∙ ap (λ t. method ++ (b' ' ∷ t)) (append_assoc target _ (b'\n' ∷ []))
    ∙ ap (λ t. method ++ (b' ' ∷ (target ++ (b' ' ∷ t))))
        (append_assoc protocol (13 ∷ []) (b'\n' ∷ []))

-- The protocol without the end of its line.
trim_protocol :
    (s : Bytes) → IsWord s → trim (trim (trim (s ++ (13 ∷ b'\n' ∷ [])) b' ') b'\n') 13 ≡ s
trim_protocol s (ne, h) =
    let starts = word_starts b'\n' s (13 ∷ []) ne (All-imp (λ c k. k.3) s h) in
    ap (λ t. trim (trim t b'\n') 13)
      (trim_word b' ' s (13 ∷ []) b'\n' ne (All-imp (λ c k. k.2) s h) (ground arith))
    ∙ ap (λ t. trim (trim t b'\n') 13) (sym (append_assoc s (13 ∷ []) (b'\n' ∷ [])))
    ∙ ap (λ t. trim t 13)
        (trim_copies_of b'\n' 1 (s ++ (13 ∷ [])) (append_ne s _ ne) starts
          (ends_snoc b'\n' s 13 (ground arith)))
    ∙ trim_copies_of 13 1 s ne
        (subst (StartsWithout 13) (append-nil s)
          (word_starts 13 s [] ne (All-imp (λ c k. k.4) s h)))
        (ends_whole 13 s (All-imp (λ c k. k.4) s h))

trim_of_word : (s : Bytes) → IsWord s → trim s b' ' ≡ s
trim_of_word s (ne, h) =
    trim_whole b' ' s ne
      (subst (StartsWithout b' ') (append-nil s)
        (word_starts b' ' s [] ne (All-imp (λ c k. k.2) s h)))
      (ends_whole b' ' s (All-imp (λ c k. k.2) s h))

trim-line_tail :
    (target protocol : Bytes)
    → IsWord target
    → trim (line_tail target protocol) b' ' ≡ line_tail target protocol
trim-line_tail target protocol (ne, h) =
    let shape = append_assoc (b' ' ∷ protocol) (13 ∷ []) (b'\n' ∷ []) in
    subst (λ t. trim (target ++ t) b' ' ≡ target ++ t) shape
      (trim_word b' ' target (b' ' ∷ (protocol ++ (13 ∷ []))) b'\n' ne
        (All-imp (λ c k. k.2) target h) (ground arith))

-- The parts of the line, as the two calls of `strsep` and the trims find them.
pub read_method_line :
    (m : Moment) (rq : Request) (method target protocol : Bytes)
    → IsWord method
    → IsWord target
    → IsWord protocol
    → read_method m (strsep b' ' (request_line method target protocol ++ (b'\n' ∷ []))) rq
      ≡ task_on m 6
          (some decode_request_header)
          (put_request target protocol (put_field "METHOD" method rq))
unfolding read_method read_target
read_method_line m rq method target protocol h h' h'' =
    let rest = line_tail target protocol in
    ap (λ s. read_method m (strsep b' ' s) rq) (request_line_newline method target protocol)
    ∙ ap (λ r. read_method m r rq)
        (strsep-append b' ' method rest (All-imp (λ c k. k.2) method h.1))
    ∙ ap (λ r. read_target m (strsep b' ' (trim rest b' ')) (put_field "METHOD" r rq))
        (trim_of_word method h)
    ∙ ap (λ r. read_target m (strsep b' ' r) (put_field "METHOD" method rq))
        (trim-line_tail target protocol h')
    ∙ ap (λ r. read_target m r (put_field "METHOD" method rq))
        (strsep-append b' ' target (protocol ++ (13 ∷ b'\n' ∷ []))
          (All-imp (λ c k. k.2) target h'.1))
    ∙ ap
        (λ r. task_on m 6 (some decode_request_header) (
          put_request r (trim (trim (trim (protocol ++ (13 ∷ b'\n' ∷ [])) b' ') b'\n') 13)
            (put_field "METHOD" method rq)))
        (trim_of_word target h')
    ∙ ap
        (λ r.
          task_on m 6 (some decode_request_header)
            (put_request target r (put_field "METHOD" method rq)))
        (trim_protocol protocol h'')
