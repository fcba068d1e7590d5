-- ===== src/Decode/Proxy/Overrun.antt =====
-- decode.c: which servers `check_proxy` has room for.
use ant_http.Decode.Proxy.{
  proxy_pattern, empty_buff, store, copy_part, put_proxy, to_proxy, check_proxy,
}
use ant_http.Decode.Rules.{Regex, group}
use ant_http.Prelude.{
  ℕ, ltb, ◌==◌, ◌≤◌, ◌<◌, Bytes, if◌then◌else◌, false, some, ◌++◌, ◌∙◌, take, drop, set,
  length-append, length-take, length-drop, length-set, List, length, Bool-cases, ◌⊎◌, inl, inr, ◌↔◌,
  ◌≡◌, refl, arith,
}
use ant_http.Request.{done, overrun, Request, Moment}

copied_length :
    (part buff : Bytes)
    → let size = if ltb (length part) (length buff) then length part else length buff in
      length (take size part ++ drop size buff) ≡ length buff
copied_length part buff =
    let size = if ltb (length part) (length buff) then length part else length buff in
    ground (
      arith,
      length-append (take size part) (drop size buff),
      length-take size part,
      length-drop size buff,
    )

-- A text that is shorter than the buffer goes into it with its NUL, the NUL of any other goes behind
-- it.
pub copy_part-cases :
    (part buff : Bytes)
    → ((length buff ≤ length part) × (copy_part part buff ≡ overrun))
      ⊎ ((length part < length buff)
          × ((b : Bytes) × (copy_part part buff ≡ done b) × (length b ≡ length buff)))
unfolding copy_part store
copy_part-cases part buff =
    let n = copied_length part buff in
    elim (Bool-cases (ltb (length part) (length buff))) [
      | inl y ↦
          let n' : length (take (length part) part ++ drop (length part) buff) ≡ length buff =
            rw y at n in
          inr (
            ground arith,
            (
              set (take (length part) part ++ drop (length part) buff) (length part) 0,
              rw (y, n', y) refl,
              length-set (take (length part) part ++ drop (length part) buff) (length part) 0 ∙ n',
            ),
          )
      | inr k ↦
          let n' : length (take (length buff) part ++ drop (length buff) buff) ≡ length buff =
            rw k at n in
          inl (ground arith, rw (k, n') (ground arith))
    ]

put_proxy-overrun :
    (path : Bytes) (ms : List (ℕ × ℕ)) (query : Bytes) (rq : Request) (m : Moment)
    → (to_proxy (put_proxy path ms query rq) m ≡ overrun)
      ↔ ((256 ≤ length (group path ms 2)) ⊎ (256 ≤ length (group path ms 3)))
unfolding put_proxy to_proxy
put_proxy-overrun path ms query rq m = elim (copy_part-cases (group path ms 2) empty_buff) [
  | inl (big, e) ↦ rw e ((λ o. inl big), λ s. refl)
  | inr (small, (host, e, n)) ↦ elim (copy_part-cases (group path ms 3) host) [
    | inl (big, f) ↦ rw (e, f) ((λ o. inr (omega (arith, n))), λ s. refl)
    | inr (small', (port, f, n')) ↦ rw (e, f) ((λ o. absurd cc), λ s. absurd (ground (arith, n)))
  ]
]

-- For an url that names a server, and not by `https`, the handler writes behind the end of its
-- buffer exactly if the name of the host or the port has 256 bytes or more.
pub check_proxy-overrun :
    (regex : Regex) (m : Moment) (rq : Request) (path query : Bytes) (ms : List (ℕ × ℕ))
    → regex proxy_pattern path ≡ some ms
    → length (group path ms 1) == 5 ≡ false
    → (check_proxy regex m rq path query ≡ overrun)
      ↔ ((256 ≤ length (group path ms 2)) ⊎ (256 ≤ length (group path ms 3)))
unfolding check_proxy
check_proxy-overrun regex m rq path query ms e h =
    rw (check_proxy, e) (rw h (put_proxy-overrun path ms query rq m))
