-- ===== src/Http/Content/Transfer.antt =====
-- How a page goes out in parts.
use x_wizchip_io_library_dri.Base.{
  ℕ, zero, suc, ◌+◌, ◌-◌, ◌==◌, ◌<◌, ◌≤◌, ltb, ◌≡◌, refl, sym, ap, subst, ◌∙◌, Bool-cases, inl, inr,
  false, Option, some, List, [], ◌++◌, length, get_elem?, take, drop, take-append-drop, arith,
}
use mathlib.Core.List.{append-nil}
use x_wizchip_io_library_dri.Http.Content.Lists.{drop_more, drop_end}
use x_wizchip_io_library_dri.Http.Content.Parts.{
  idle_socket, sending, read_to, next_more, next_last, sent_short, sent_long,
}
use x_wizchip_io_library_dri.Http.Content.{WebContent, HttpSocket, send_http_response_body}

-- What the passes of httpServer_run() in STATE_HTTP_RES_INPROC send, until `file_len` is 0.
pub data Runs : List WebContent → List ℕ → HttpSocket → List ℕ → Type 0 where
  finished :
      {table : List WebContent} (buf : List ℕ) (h : HttpSocket)
      → h.file_len ≡ 0
      → Runs table buf h []
  pass :
      {table : List WebContent} {buf : List ℕ} {h : HttpSocket} (h' : HttpSocket)
      (buf' sent rest : List ℕ)
      → (h.file_len == 0) ≡ false
      → send_http_response_body table [] buf 0 0 h ≡ some (h', (buf', sent))
      → Runs table buf' h' rest
      → Runs table buf h (sent ++ rest)

-- The first part and those of the passes behind it are the page.
abbrev pub Delivers :
    List WebContent → WebContent → Option (HttpSocket × (List ℕ × List ℕ)) → Type 0
Delivers table w result =
    (h' : HttpSocket) × (buf' : List ℕ) × (first : List ℕ) × (rest : List ℕ) × (result
      ≡ some (h', (buf', first)))
    × Runs table buf' h' rest
    × (first ++ rest ≡ w.content)

module _ (table : List WebContent) (w : WebContent) (num : ℕ) (entry : get_elem? table num ≡ some w)
    (inside : num < length table) (small : length table ≤ 20) where
  -- The passes send the page from `o` on; `k` bounds their number.
  runs_lem :
      (k : ℕ) (buf name : List ℕ) (o : ℕ)
      → length w.content - o ≤ k
      → o < length w.content
      → length w.content < 4294967296
      → Runs table buf (sending w num name o) (drop o w.content)
  runs_lem zero buf name o enough more fits = let no : ⊥ = omega arith in elim no [ ]
  runs_lem (suc k) buf name o enough more fits =
      let filled : (length w.content == 0) ≡ false = ground arith in
      elim (Bool-cases (ltb (o + 255) (length w.content))) [
        | inl e ↦ subst (Runs table buf (sending w num name o)) (sym (drop_more o 255 w.content)) (
            pass (sending w num name (o + 255)) (read_to w buf o 255) (take 255 (drop o w.content))
              (drop (o + 255) w.content) filled
              (next_more table w num entry inside small buf name o (ground arith) fits)
              (runs_lem k (read_to w buf o 255) name (o + 255) (omega arith) (ground arith) fits))
        | inr e ↦
            let n = length w.content - o in
            subst (Runs table buf (sending w num name o))
              (sym (
                drop_more o n w.content
                ∙ ap (λ r. take n (drop o w.content) ++ r)
                    (drop_end (o + n) w.content (omega arith))))
              (pass (idle_socket name) (read_to w buf o n) (take n (drop o w.content)) [] filled
                (next_last table w num entry inside small buf name o more (ground arith) fits)
                (finished (read_to w buf o n) (idle_socket name) refl))
      ]

-- For page number `num` of the table, whose stored length is right and below 2 ^ 32, a name of
-- less than 128 bytes and a socket between two responses, send_http_response_body() hands the first part
-- to send(), and passes in STATE_HTTP_RES_INPROC hand over the others until `file_len` is 0; together
-- the parts are the page.
pub send_http_response_body-Delivers :
    (table : List WebContent) (w : WebContent) (num : ℕ) (buf name old : List ℕ)
    → get_elem? table num ≡ some w
    → num < length table
    → length table ≤ 20
    → w.content_len ≡ length w.content
    → length w.content < 4294967296
    → length name < 128
    → Delivers table w (send_http_response_body table name buf num w.content_len (idle_socket old))
send_http_response_body-Delivers table w num buf name old entry inside small len fits fits_name =
    rw len (elim (Bool-cases (ltb 255 (length w.content))) [
      | inl e ↦ (
        sending w num name 255,
        read_to w buf 0 255,
        take 255 w.content,
        drop 255 w.content,
        sent_long table w num entry inside small buf name old (ground arith) fits fits_name,
        runs_lem table w num entry inside small (length w.content) (read_to w buf 0 255) name 255
            (omega arith) (ground arith) fits,
        take-append-drop 255 w.content,
      )
      | inr e ↦
          let (h', over, sent) =
            sent_short table w num entry inside small buf name old (ground arith) in
          (
            h',
            read_to w buf 0 (length w.content),
            w.content,
            [],
            sent,
            finished (read_to w buf 0 (length w.content)) h' over,
            append-nil w.content,
          )
    ])
