-- ===== src/Dns/Message/Records.antt =====
-- dns_question() and dns_answer() on the records of a reply, one behind the other.
use x_wizchip_io_library_dri.Base.{
  ℕ, ◌+◌, ◌*◌, ◌%◌, ◌≡◌, refl, sym, ap, ◌∙◌, Option, none, some, List, [], ◌∷◌, ◌++◌, length,
  length-append, All, arith,
}
use x_wizchip_io_library_dri.Dns.Name.{
  ok, ◌>>=◌, byte_at, bytes_at, get16, parse_name, name_end, max_cname,
}
use x_wizchip_io_library_dri.Dns.Name.RoundTrip.{
  wire, dots, append_assoc, byte_at_pre, bytes_at_pre, parse_wire, labels-le-room,
}
use x_wizchip_io_library_dri.Dns.Message.{
  dns_question, skip_name, record_type, answer_data, dns_answer, questions, answers,
}
use x_wizchip_io_library_dri.Dns.Name.Pointers.{parse_name-pointer}
use x_wizchip_io_library_dri.Dns.Message.Layout.{
  Spelling, in_full, pointed, spelt, IsSpelled, IsName, Asked, IsAsked, asked_text, asked_texts,
  Answer, host, alias, IsAnswer, answer_text, answer_texts, last_address,
}

name_at :
    (ls : List (List ℕ)) (msg pre post : List ℕ) (cp : ℕ)
    → IsName ls
    → msg ≡ pre ++ (wire ls ++ post)
    → cp ≡ length pre
    → parse_name msg cp max_cname ≡ ok (length (wire ls), dots ls ++ name_end (length ls))
unfolding parse_name
name_at ls msg pre post cp (labels, fits) e at =
    let read =
      parse_wire ls msg pre post 25 0 0 24 labels e fits (omega (arith, labels-le-room ls)) in
    rw at (read ∙ ground arith)

get16_at :
    (msg pre post : List ℕ) (hi lo cp : ℕ)
    → msg ≡ pre ++ (hi ∷ lo ∷ post)
    → cp ≡ length pre
    → get16 msg cp ≡ ok ((hi * 256 + lo) % 65536)
unfolding get16
get16_at msg pre post hi lo cp e at =
    let first : byte_at msg (length pre) ≡ ok hi = rw e (byte_at_pre pre (lo ∷ post) hi) in
    let long : length (pre ++ hi ∷ []) ≡ length pre + 1 =
      ground (arith, length-append pre (hi ∷ [])) in
    let second : byte_at msg (length (pre ++ hi ∷ [])) ≡ ok lo =
      rw (e ∙ sym (append_assoc pre (hi ∷ []) (lo ∷ post)))
        (byte_at_pre (pre ++ hi ∷ []) post lo) in
    let second' = rw long at second in rw (at, first, ◌>>=◌, second') refl

bytes_at_next :
    (msg pre mid seg post : List ℕ) (cp n : ℕ)
    → msg ≡ pre ++ (mid ++ (seg ++ post))
    → cp ≡ length pre + length mid
    → length seg ≡ n
    → bytes_at msg cp n ≡ ok seg
bytes_at_next msg pre mid seg post cp n e at long =
    let at' : cp ≡ length (pre ++ mid) = omega (arith, length-append pre mid) in
    rw (at', sym long)
      (bytes_at_pre msg (pre ++ mid) seg post (e ∙ sym (append_assoc pre mid (seg ++ post))))

dns_question_at :
    (q : Asked) (msg pre post : List ℕ) (cp : ℕ)
    → IsAsked q
    → msg ≡ pre ++ (asked_text q ++ post)
    → cp ≡ length pre
    → dns_question msg cp ≡ ok (length (pre ++ asked_text q))
unfolding dns_question
dns_question_at q msg pre post cp (named, four) e at =
    let name =
      name_at q.name msg pre (q.fixed ++ post) cp named
        (e ∙ ap (λ xs. pre ++ xs) (append_assoc (wire q.name) q.fixed post)) at in
    rw name
      (ap ok (omega (arith, length-append pre (asked_text q), length-append (wire q.name) q.fixed)))

pub questions_at :
    (qs : List Asked) (msg pre post : List ℕ) (cp : ℕ)
    → All IsAsked qs
    → msg ≡ pre ++ (asked_texts qs ++ post)
    → cp ≡ length pre
    → questions (length qs) msg cp ≡ ok (length (pre ++ asked_texts qs))
unfolding questions
questions_at [] msg pre post cp h e at = ap ok (omega (arith, length-append pre []))
questions_at (q ∷ qs) msg pre post cp (h, hs) e at =
    let e' = e ∙ ap (λ xs. pre ++ xs) (append_assoc (asked_text q) (asked_texts qs) post) in
    let first = dns_question_at q msg pre (asked_texts qs ++ post) cp h e' at in
    let rest =
      questions_at qs msg (pre ++ asked_text q) post (length (pre ++ asked_text q)) hs
        (e' ∙ sym (append_assoc pre (asked_text q) (asked_texts qs ++ post))) refl in
    rw (first, ◌>>=◌, rest)
      (ap (λ xs. ok (length xs)) (append_assoc pre (asked_text q) (asked_texts qs)))

last-step :
    (r : Answer) (rs : List Answer) (ip : Option (List ℕ))
    → last_address (elim (last_address none (r ∷ [])) [ none ↦ ip | some new ↦ some new ]) rs
      ≡ last_address ip (r ∷ rs)
last-step (host ls fixed new) rs ip = refl
last-step (alias ls fixed target) rs ip = refl

pointed_at :
    (qs : List Asked)
    → All IsAsked qs
    → (msg front body pre post : List ℕ) (cp : ℕ) → msg ≡ front ++ (asked_texts qs ++ body)
    → length front ≡ 12
    → IsSpelled qs pointed
    → msg ≡ pre ++ (192 ∷ 12 ∷ post)
    → cp ≡ length pre
    → (buf : List ℕ) × (parse_name msg cp max_cname ≡ ok (2, buf))
pointed_at [] asked msg front body pre post cp laid twelve named e at = elim named [ ]
pointed_at (q ∷ qs) (((labels, fits), four), asked) msg front body pre post cp laid twelve named e
      at =
    let behind = q.fixed ++ (asked_texts qs ++ body) in
    let there =
      laid
      ∙ ap (λ xs. front ++ xs)
          (append_assoc (asked_text q) (asked_texts qs) body
            ∙ append_assoc (wire q.name) q.fixed (asked_texts qs ++ body)) in
    (
      dots q.name ++ name_end (0 + length q.name),
      rw at (parse_name-pointer q.name msg pre post front behind labels fits e there twelve),
    )

module _ (qs : List Asked) (asked : All IsAsked qs) (msg front body : List ℕ)
    (laid : msg ≡ front ++ (asked_texts qs ++ body)) (twelve : length front ≡ 12) where
  -- A name in an answer is read, whichever way it is spelled.
  spelt_at :
      (s : Spelling) (pre post : List ℕ) (cp : ℕ)
      → IsSpelled qs s
      → msg ≡ pre ++ (spelt s ++ post)
      → cp ≡ length pre
      → (buf : List ℕ) × (parse_name msg cp max_cname ≡ ok (length (spelt s), buf))
  spelt_at (in_full ls) pre post cp named e at = (_, name_at ls msg pre post cp named e at)
  spelt_at pointed pre post cp named e at =
      pointed_at qs asked msg front body pre post cp laid twelve named e at

  dns_answer_at :
      (r : Answer) (pre post : List ℕ) (cp : ℕ)
      → IsAnswer qs r
      → msg ≡ pre ++ (answer_text r ++ post)
      → cp ≡ length pre
      → dns_answer msg cp ≡ ok (length (pre ++ answer_text r), last_address none (r ∷ []))
  unfolding dns_answer answer_data record_type skip_name
  dns_answer_at (host s fixed new) pre post cp (named, eight, four) e at =
      let e1 = e ∙ ap (λ xs. pre ++ xs) (append_assoc (spelt s) (0 ∷ 1 ∷ (fixed ++ new)) post) in
      let e2 = e1 ∙ sym (append_assoc pre (spelt s) (0 ∷ 1 ∷ ((fixed ++ new) ++ post))) in
      let (buf, name) = spelt_at s pre (0 ∷ 1 ∷ ((fixed ++ new) ++ post)) cp named e1 at in
      let type =
        get16_at msg (pre ++ spelt s) ((fixed ++ new) ++ post) 0 1 (cp + length (spelt s)) e2
          (omega (arith, length-append pre (spelt s))) in
      let data_at =
        bytes_at_next msg (pre ++ spelt s) (0 ∷ 1 ∷ fixed) new post
          (cp + length (spelt s) + 2 + 2 + 4 + 2) 4
          (e2 ∙ ap (λ xs. (pre ++ spelt s) ++ (0 ∷ 1 ∷ xs)) (append_assoc fixed new post))
          (omega (arith, length-append pre (spelt s), eight)) four in
      rw (name, ◌>>=◌, type, ◌>>=◌, data_at, ◌>>=◌)
        (ap (λ n. ok (n, some new))
          (omega (
            arith,
            length-append pre (spelt s ++ (0 ∷ 1 ∷ (fixed ++ new))),
            length-append (spelt s) (0 ∷ 1 ∷ (fixed ++ new)),
            length-append fixed new,
          )))
  dns_answer_at (alias s fixed target) pre post cp (named, eight, targeted) e at =
      let e1 =
        e ∙ ap (λ xs. pre ++ xs) (append_assoc (spelt s) (0 ∷ 5 ∷ (fixed ++ spelt target)) post) in
      let e2 = e1 ∙ sym (append_assoc pre (spelt s) (0 ∷ 5 ∷ ((fixed ++ spelt target) ++ post))) in
      let e3 =
        e2 ∙ ap (λ xs. (pre ++ spelt s) ++ (0 ∷ 5 ∷ xs)) (append_assoc fixed (spelt target) post) in
      let (buf, name) = spelt_at s pre (0 ∷ 5 ∷ ((fixed ++ spelt target) ++ post)) cp named e1 at in
      let type =
        get16_at msg (pre ++ spelt s) ((fixed ++ spelt target) ++ post) 0 5 (cp + length (spelt s))
          e2 (omega (arith, length-append pre (spelt s))) in
      let (buf', skipped) =
        spelt_at target ((pre ++ spelt s) ++ (0 ∷ 5 ∷ fixed)) post
          (cp + length (spelt s) + 2 + 2 + 4 + 2) targeted
          (e3 ∙ sym (append_assoc (pre ++ spelt s) (0 ∷ 5 ∷ fixed) (spelt target ++ post)))
          (omega (
            arith,
            length-append pre (spelt s),
            length-append (pre ++ spelt s) (0 ∷ 5 ∷ fixed),
            eight,
          )) in
      rw (name, ◌>>=◌, type, ◌>>=◌, skipped, ◌>>=◌)
        (ap (λ n. ok (n, none))
          (omega (
            arith,
            length-append pre (spelt s ++ (0 ∷ 5 ∷ (fixed ++ spelt target))),
            length-append (spelt s) (0 ∷ 5 ∷ (fixed ++ spelt target)),
            length-append fixed (spelt target),
          )))

  pub answers_at :
      (rs : List Answer) (pre post : List ℕ) (cp : ℕ) (ip : Option (List ℕ))
      → All (IsAnswer qs) rs
      → msg ≡ pre ++ (answer_texts rs ++ post)
      → cp ≡ length pre
      → answers (length rs) msg cp ip ≡ ok (last_address ip rs)
  unfolding answers
  answers_at [] pre post cp ip h e at = refl
  answers_at (r ∷ rs) pre post cp ip (h, hs) e at =
      let e' = e ∙ ap (λ xs. pre ++ xs) (append_assoc (answer_text r) (answer_texts rs) post) in
      let first = dns_answer_at r pre (answer_texts rs ++ post) cp h e' at in
      let next : Option (List ℕ) = elim (last_address none (r ∷ [])) [
        | none ↦ ip
        | some new ↦ some new
      ] in
      let rest =
        answers_at rs (pre ++ answer_text r) post (length (pre ++ answer_text r)) next hs
          (e' ∙ sym (append_assoc pre (answer_text r) (answer_texts rs ++ post))) refl in
      rw (first, ◌>>=◌) (rest ∙ ap ok (last-step r rs ip))
