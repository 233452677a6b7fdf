-- ===== src/Dns/Name/Pointers.antt =====
-- Names that parse_name() reaches by a pointer.
use x_wizchip_io_library_dri.Base.{
  ℕ, zero, suc, ◌+◌, ◌-◌, ◌<◌, ◌≤◌, ◌≡◌, refl, sym, ap, ◌∙◌, ◌==◌, ltb, true, false, List, [], ◌∷◌,
  ◌++◌, length, length-append, All, arith,
}
use x_wizchip_io_library_dri.Dns.Name.{
  ok, ◌>>=◌, byte_at, bytes_at, head_at, name_end, parse_loop, parse_name, max_cname,
}
use x_wizchip_io_library_dri.Dns.Name.RoundTrip.{
  IsLabel, wire, dots, room, append_assoc, byte_at_pre, bytes_at_pre, labels-le-room, is_direct,
}

head_at_behind :
    (msg pre post : List ℕ) (k clen : ℕ)
    → msg ≡ pre ++ (k ∷ post)
    → k < 64
    → head_at msg (length pre) clen true
      ≡ ok (record { slen = k; at = length pre + 1; clen = clen; indirect = true })
unfolding head_at
head_at_behind msg pre post k clen e small =
    let here : byte_at msg (length pre) ≡ ok k = rw e (byte_at_pre pre post k) in
    rw (here, ◌>>=◌, is_direct k small) refl

-- Behind a pointer the length of the name stays what it was.
parse_wire_behind :
    (ls : List (List ℕ)) (msg pre post : List ℕ) (n clen nseg len : ℕ)
    → All IsLabel ls
    → msg ≡ pre ++ (wire ls ++ post)
    → room ls ≤ len
    → length ls < n
    → parse_loop n msg (length pre) clen true nseg len
      ≡ ok (clen, dots ls ++ name_end (nseg + length ls))
unfolding parse_loop
parse_wire_behind ls msg pre post zero clen nseg len names e fits fuel = absurd (omega arith)
parse_wire_behind [] msg pre post (suc n) clen nseg len names e fits fuel =
    rw (head_at_behind msg pre post 0 clen e (omega arith)) (ground arith)
parse_wire_behind (l ∷ ls) msg pre post (suc n) clen nseg len ((some_bytes, short, plain), names) e
      fits fuel =
    let rest =
      parse_wire_behind ls msg pre2 post n clen (nseg + 1) (len - (length l + 1)) names at_rest
        (omega arith) (omega arith) in
    let rest' = rw long2 at rest in
    let seg : bytes_at msg (length pre1) (length l) ≡ ok l =
      bytes_at_pre msg pre1 l (wire ls ++ post) at_seg in
    let seg' = rw long1 at seg in
    rw
      (
        head_at_behind msg pre (l ++ (wire ls ++ post)) (length l) clen at_head short,
        not_last,
        enough,
        ◌>>=◌,
        seg',
        rest',
      )
      (ground (arith, append_assoc l (46 ∷ dots ls) (name_end (nseg + 1 + length ls))))
  where
    pre1 : List ℕ
    pre1 = pre ++ (length l ∷ [])

    pre2 : List ℕ
    pre2 = pre1 ++ l

    long1 : length pre1 ≡ length pre + 1
    long1 = ground (arith, length-append pre (length l ∷ []))

    long2 : length pre2 ≡ length pre + 1 + length l
    long2 = ground (arith, long1, length-append pre1 l)

    not_last : (length l == 0) ≡ false
    not_last = ground arith

    enough : ltb len (length l + 1) ≡ false
    enough = ground arith

    at_head : msg ≡ pre ++ (length l ∷ (l ++ (wire ls ++ post)))
    at_head = e ∙ ap (λ xs. pre ++ (length l ∷ xs)) (append_assoc l (wire ls) post)

    at_seg : msg ≡ pre1 ++ (l ++ (wire ls ++ post))
    at_seg = at_head ∙ sym (append_assoc pre (length l ∷ []) (l ++ (wire ls ++ post)))

    at_rest : msg ≡ pre2 ++ (wire ls ++ post)
    at_rest = at_seg ∙ sym (append_assoc pre1 l (wire ls ++ post))

byte_at_pointed :
    (msg pre post : List ℕ) (k : ℕ)
    → msg ≡ pre ++ (k ∷ post)
    → length pre ≡ 12
    → byte_at msg 12 ≡ ok k
byte_at_pointed msg pre post k e at =
    let here : byte_at msg (length pre) ≡ ok k = rw e (byte_at_pre pre post k) in rw at at here

-- The pointer 0xC00C at `cp`: the loop goes on at offset 12, with two bytes counted.
parse_loop-pointer :
    (msg pre post front behind : List ℕ) (k n nseg len : ℕ)
    → msg ≡ pre ++ (192 ∷ 12 ∷ post)
    → msg ≡ front ++ (k ∷ behind)
    → length front ≡ 12
    → k < 64
    → parse_loop (suc n) msg (length pre) 0 false nseg len
      ≡ parse_loop (suc n) msg 12 2 true nseg len
unfolding parse_loop head_at
parse_loop-pointer msg pre post front behind k n nseg len e at_front twelve small =
    let first : byte_at msg (length pre) ≡ ok 192 = rw e (byte_at_pre pre (12 ∷ post) 192) in
    let long : length (pre ++ 192 ∷ []) ≡ length pre + 1 =
      ground (arith, length-append pre (192 ∷ [])) in
    let second : byte_at msg (length (pre ++ 192 ∷ [])) ≡ ok 12 =
      rw (e ∙ sym (append_assoc pre (192 ∷ []) (12 ∷ post)))
        (byte_at_pre (pre ++ 192 ∷ []) post 12) in
    let second' = rw long at second in
    let there = byte_at_pointed msg front behind k at_front twelve in
    rw (first, ◌>>=◌, second', ◌>>=◌, there, ◌>>=◌, is_direct k small) refl

-- A pointer to offset 12 gives the name that stands there.
pub parse_name-pointer :
    (ls : List (List ℕ)) (msg pre post front behind : List ℕ)
    → All IsLabel ls
    → room ls ≤ 24
    → msg ≡ pre ++ (192 ∷ 12 ∷ post)
    → msg ≡ front ++ (wire ls ++ behind)
    → length front ≡ 12
    → parse_name msg (length pre) max_cname ≡ ok (2, dots ls ++ name_end (0 + length ls))
unfolding parse_name
parse_name-pointer [] msg pre post front behind labels fits e there twelve =
    let jump =
      parse_loop-pointer msg pre post front behind 0 24 0 24 e there twelve (omega arith) in
    let read = parse_wire_behind [] msg front behind 25 2 0 24 labels there fits (omega arith) in
    jump ∙ rw twelve at read
parse_name-pointer (l ∷ ls) msg pre post front behind labels fits e there twelve =
    let at_head = there ∙ ap (λ xs. front ++ (length l ∷ xs)) (append_assoc l (wire ls) behind) in
    let jump =
      parse_loop-pointer msg pre post front (l ++ (wire ls ++ behind)) (length l) 24 0 24 e at_head
        twelve labels.0.1 in
    let read =
      parse_wire_behind (l ∷ ls) msg front behind 25 2 0 24 labels there fits
        (omega (arith, labels-le-room ls)) in
    jump ∙ rw twelve at read
