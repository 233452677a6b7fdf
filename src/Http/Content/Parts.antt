-- ===== src/Http/Content/Parts.antt =====
-- The parts of a page that the calls of send_http_response_body() hand over.
use x_wizchip_io_library_dri.Base.{
  ℕ, ◌+◌, ◌-◌, ◌%◌, ◌==◌, ◌<◌, ◌≤◌, ltb, leb, ◌≡◌, refl, ap, subst, ◌∙◌, Bool-cases, inl, inr, Bool,
  true, false, some, List, [], ◌∷◌, ◌++◌, length, get_elem?, take, drop, length-take, length-drop,
  take-append, arith,
}
use x_wizchip_io_library_dri.Http.Content.Lists.{padded_lem, empty_lem, take_all}
use x_wizchip_io_library_dri.Http.Content.{
  WebContent, HttpSocket, codeflash, read_user_reg_web_content, next_part, part_sent, hand_over,
  send_http_response_body, start_of,
}

-- A socket between two responses.
abbrev pub idle_socket : List ℕ → HttpSocket
idle_socket name = record {
  file_name = name;
  file_start = 0;
  file_len = 0;
  file_offset = 0;
  storage_type = codeflash;
}

-- The socket when the bytes from `o` on are still to be sent.
abbrev pub sending : WebContent → ℕ → List ℕ → ℕ → HttpSocket
sending w num name o = record {
  file_name = name;
  file_start = num;
  file_len = length w.content;
  file_offset = o;
  storage_type = codeflash;
}

-- The buffer that the next bytes of the page are read to.
abbrev pub read_to : WebContent → List ℕ → ℕ → ℕ → List ℕ
read_to w buf o n = take n (drop o w.content) ++ 0 ∷ drop (n + 1) buf

module _ (table : List WebContent) (w : WebContent) (num : ℕ) (entry : get_elem? table num ≡ some w)
    (inside : num < length table) (small : length table ≤ 20) where
  read_lem :
      (buf : List ℕ) (o n : ℕ)
      → o + n ≤ length w.content
      → n < 256
      → read_user_reg_web_content table (num % 65536) buf o (n % 65536) ≡ some (read_to w buf o n)
  unfolding read_user_reg_web_content
  read_lem buf o n fits short =
      let same : num % 65536 ≡ num = omega arith in
      let same_n : n % 65536 ≡ n = omega arith in
      let in_table : ltb (length table) num ≡ false = ground arith in
      let in_text : ltb (length w.content) o ≡ false = ground arith in
      let in_buffer : leb 256 n ≡ false = ground arith in
      let whole_part = padded_lem n (drop o w.content) (omega (arith, length-drop o w.content)) in
      rw (same, in_table, entry, in_text, same_n, in_buffer, whole_part, read_user_reg_web_content)
        refl

  taken :
      (buf : List ℕ) (o n : ℕ)
      → o + n ≤ length w.content
      → take n (read_to w buf o n) ≡ take n (drop o w.content)
  taken buf o n fits =
      let part = take n (drop o w.content) in
      let len : length part ≡ n =
        omega (arith, length-take n (drop o w.content), length-drop o w.content) in
      subst (λ k. take k (read_to w buf o n) ≡ part) len (take-append part (0 ∷ drop (n + 1) buf))

  -- Once the part is chosen, its bytes are read and handed over.
  send_lem :
      (uri_name buf : List ℕ) (start len n : ℕ) (ends : Bool) (h h' : HttpSocket)
      → next_part uri_name start len h ≡ some (h', (n, ends))
      → h'.storage_type ≡ codeflash
      → start_of start h' ≡ num
      → h'.file_offset + n ≤ length w.content
      → n < 256
      → send_http_response_body table uri_name buf start len h
        ≡ some (hand_over h' ends n (read_to w buf h'.file_offset n))
  unfolding send_http_response_body
  send_lem uri_name buf start len n ends h h' chosen stored at fits short =
      let flash : (h'.storage_type == codeflash) ≡ true = ap (λ k. k == codeflash) stored in
      rw (chosen, flash, at, read_lem buf h'.file_offset n fits short, send_http_response_body) refl

  next_sending :
      (name : List ℕ) (o : ℕ)
      → o < length w.content
      → length w.content < 4294967296
      → ((o + 255 < length w.content)
          → next_part [] 0 0 (sending w num name o) ≡ some (sending w num name o, (255, false)))
        × ((length w.content ≤ o + 255)
            → next_part [] 0 0 (sending w num name o)
              ≡ some (sending w num name o, (length w.content - o, true)))
  unfolding next_part
  next_sending name o more fits =
      let filled : (length w.content == 0) ≡ false = ground arith in
      let left : (length w.content + 4294967296 - o) % 4294967296 ≡ length w.content - o =
        omega arith in
      (
        λ long.
            let e : ltb 255 (length w.content - o) ≡ true = ground arith in
            rw (filled, left, e, next_part) refl,
        λ short.
            let e : ltb 255 (length w.content - o) ≡ false = ground arith in
            rw (filled, left, e, next_part) refl,
      )

  hand_over_more :
      (buf name : List ℕ) (o : ℕ)
      → o + 255 < length w.content
      → length w.content < 4294967296
      → hand_over (sending w num name o) false 255 (read_to w buf o 255)
        ≡ (sending w num name (o + 255), (read_to w buf o 255, take 255 (drop o w.content)))
  unfolding hand_over part_sent
  hand_over_more buf name o more fits =
      let moved : (o + 255) % 4294967296 ≡ o + 255 = omega arith in
      simp (moved, taken buf o 255 (omega arith))

  hand_over_last :
      (buf name : List ℕ) (o n : ℕ)
      → 0 < n
      → o + n ≡ length w.content
      → hand_over (sending w num name o) true n (read_to w buf o n)
        ≡ (idle_socket name, (read_to w buf o n, take n (drop o w.content)))
  unfolding hand_over part_sent
  hand_over_last buf name o n filled last =
      let e : (n == 0) ≡ false = ground arith in rw (e, taken buf o n (omega arith), hand_over) refl

  start_of-sending :
      (name : List ℕ) (o : ℕ) → 0 < length w.content → start_of 0 (sending w num name o) ≡ num
  start_of-sending name o h =
      let filled : (length w.content == 0) ≡ false = ground arith in rw filled refl

  pub next_more :
      (buf name : List ℕ) (o : ℕ)
      → o + 255 < length w.content
      → length w.content < 4294967296
      → send_http_response_body table [] buf 0 0 (sending w num name o)
        ≡ some (sending w num name (o + 255), (read_to w buf o 255, take 255 (drop o w.content)))
  next_more buf name o more fits =
      send_lem [] buf 0 0 255 false (sending w num name o) (sending w num name o)
        ((next_sending name o (omega arith) fits).0 more) refl
        (start_of-sending name o (omega arith)) (omega arith) (omega arith)
      ∙ ap some (hand_over_more buf name o more fits)

  pub next_last :
      (buf name : List ℕ) (o : ℕ)
      → o < length w.content
      → length w.content ≤ o + 255
      → length w.content < 4294967296
      → send_http_response_body table [] buf 0 0 (sending w num name o)
        ≡ some (
          idle_socket name,
          (read_to w buf o (length w.content - o), take (length w.content - o) (drop o w.content)),
        )
  next_last buf name o more last fits =
      send_lem [] buf 0 0 (length w.content - o) true (sending w num name o) (sending w num name o)
        ((next_sending name o more fits).1 last) refl (start_of-sending name o (omega arith))
        (omega arith) (omega arith)
      ∙ ap some (hand_over_last buf name o (length w.content - o) (omega arith) (omega arith))

  -- A page that the first call sends whole.
  pub sent_short :
      (buf name old : List ℕ)
      → length w.content ≤ 255
      → (h' : HttpSocket) × (h'.file_len ≡ 0)
        × (send_http_response_body table name buf num (length w.content) (idle_socket old)
            ≡ some (h', (read_to w buf 0 (length w.content), w.content)))
  unfolding next_part hand_over part_sent
  sent_short buf name old short =
      let n = length w.content in
      let e : ltb 255 n ≡ false = ground arith in
      let chosen : next_part name num n (idle_socket old) ≡ some (idle_socket old, (n, false)) =
        rw (e, next_part) refl in
      let sent =
        send_lem name buf num n n false (idle_socket old) (idle_socket old) chosen refl refl
          (omega arith) (omega arith) in
      elim (Bool-cases (n == 0)) [
        | inl z ↦
            let none_left : hand_over (idle_socket old) false n (read_to w buf 0 n)
                ≡ (idle_socket old, (read_to w buf 0 n, w.content)) =
              rw (z, empty_lem w.content (ground arith), hand_over) refl in
            (idle_socket old, refl, sent ∙ ap some none_left)
        | inr z ↦
            let all_sent : hand_over (idle_socket old) false n (read_to w buf 0 n)
                ≡ (part_sent (idle_socket old) false n, (read_to w buf 0 n, w.content)) =
              rw (z, taken buf 0 n (omega arith), take_all w.content, hand_over) refl in
            (part_sent (idle_socket old) false n, refl, sent ∙ ap some all_sent)
      ]

  -- The first part of a longer page.
  pub sent_long :
      (buf name old : List ℕ)
      → 255 < length w.content
      → length w.content < 4294967296
      → length name < 128
      → send_http_response_body table name buf num (length w.content) (idle_socket old)
        ≡ some (sending w num name 255, (read_to w buf 0 255, take 255 w.content))
  unfolding next_part
  sent_long buf name old long fits fits_name =
      let n = length w.content in
      let e : ltb 255 n ≡ true = ground arith in
      let f : leb 128 (length name) ≡ false = ground arith in
      let chosen : next_part name num n (idle_socket old)
          ≡ some (sending w num name 0, (255, false)) =
        rw (e, f, next_part) refl in
      let filled : (n == 0) ≡ false = ground arith in
      let at : start_of num (sending w num name 0) ≡ num = rw filled refl in
      let sent =
        send_lem name buf num n 255 false (idle_socket old) (sending w num name 0) chosen refl at
          (omega arith) (omega arith) in
      sent ∙ ap some (hand_over_more buf name 0 (omega arith) fits)
