-- ===== src/Http/Server/Requests.antt =====
-- A page that is requested, from the request to the end of the connection.
use x_wizchip_io_library_dri.Base.{
  ℕ, ◌==◌, ◌<◌, ltb, leb, ◌||◌, ◌≡◌, refl, sym, ap, subst, ◌∙◌, Bool-cases, inl, inr, true, false,
  Option, some, List, [], ◌∷◌, ◌++◌, length, get_elem?, take, drop, take-append-drop, All, arith,
}
use mathlib.Core.List.{append-nil, append_assoc}
use x_wizchip_io_library_dri.Services.{established}
use x_wizchip_io_library_dri.Http.Text.{same_text}
use x_wizchip_io_library_dri.Http.Text.Tokens.{IsFree}
use x_wizchip_io_library_dri.Http.Numbers.Values.{text_of, value, IsDigit}
use x_wizchip_io_library_dri.Http.Pages.{
  ptype_cgi, ptype_xml, find_http_uri_type, response_head, make_http_response_head,
}
use x_wizchip_io_library_dri.Http.Pages.Heads.{written_digits}
use x_wizchip_io_library_dri.Http.Request.{method_get, method_head, c_string, parse_http_request}
use x_wizchip_io_library_dri.Http.Request.Parsing.{
  Asks, get, get_lower, head, head_lower, stored, parse-Asks, page_of, page_end, no_spaces,
}
use x_wizchip_io_library_dri.Http.Content.{
  WebContent, HttpSocket, find_user_reg_web_content, send_http_response_body,
}
use x_wizchip_io_library_dri.Http.Content.Parts.{
  idle_socket, sending, read_to, sent_short, sent_long,
}
use x_wizchip_io_library_dri.Http.Content.Table.{
  IsTable, find_user_reg_web_content-Holds, get_elem?-All,
}
use x_wizchip_io_library_dri.Http.Response.{send_http_response_header}
use x_wizchip_io_library_dri.Http.Server.{
  await_sent, Server, state_http_idle, state_http_res_inproc, sends_of, put_slot, named_page,
  send_page, answer_get, answer, http_process_handler, run_idle, run_established, bytes, Pass,
}
use x_wizchip_io_library_dri.Http.Server.Passes.{
  sent_bytes, ends_count, At, put_slot-At, IsQuiet, slot_of, status_after, after_part_lem,
  sent_bytes-append, ends_count-append, sent_bytes-sends_of, ends_count-sends_of, fresh, Serves,
  Serves-pass,
}
use x_wizchip_io_library_dri.Http.Server.Serving.{done-Serves, sending-Serves}

requested_page :
    (word : List ℕ) (method : ℕ)
    → Asks word method
    → (method == method_get || method == method_head) ≡ true
requested_page word method get = refl
requested_page word method get_lower = refl
requested_page word method head = refl
requested_page word method head_lower = refl

-- A request for a page that the table has.
pub record Wanted (table : List WebContent) (page : List ℕ) (num len : ℕ) (head_text : List ℕ)
    : Type 0 where
  pub is_listed : find_user_reg_web_content page table ≡ some (num, len)
  pub no_cgi : (find_http_uri_type page == ptype_cgi) ≡ false
  pub no_xml : (find_http_uri_type page == ptype_xml) ≡ false
  pub has_head : response_head (find_http_uri_type page) ≡ some head_text
  pub is_short : len < 1000000000
  pub fits_name : length page < 128

module _ (table : List WebContent) (name : List ℕ) (num len : ℕ) (head_text : List ℕ)
    (wanted : Wanted table (named_page (page_of name)) num len head_text) (word : List ℕ)
    (method : ℕ) (asks : Asks word method) (named : All (IsFree (32 ∷ 63 ∷ [])) name)
    (short_name : length name < 511) where
  abbrev page : List ℕ
  page = named_page (page_of name)

  abbrev whole_head : List ℕ → List ℕ
  whole_head ds = head_text ++ text_of ds ++ 13 ∷ 10 ∷ 13 ∷ 10 ∷ []

  answer_lem :
      (buf old buf' part ds : List ℕ) (storage : ℕ) (h' : HttpSocket)
      → make_http_response_head (find_http_uri_type page) len ≡ some (whole_head ds)
      → send_http_response_body table page buf num len (idle_socket old) ≡ some (h', (buf', part))
      → answer table (record { method = method; uri = some (47 ∷ name) }) buf (fresh old storage)
        ≡ some (h', sends_of (whole_head ds) ++ sends_of part)
  unfolding answer answer_get send_page send_http_response_header
  answer_lem buf old buf' part ds storage h' made sent =
      rw
        (
          requested_page word method asks,
          page_end name named,
          wanted.no_cgi,
          wanted.is_listed,
          wanted.no_cgi,
          wanted.no_xml,
          made,
          sent,
          answer,
          answer_get,
          send_page,
          send_http_response_header,
        )
        refl

  -- The file of the entry behind the handler, and what the whole pass leaves.
  run_idle_lem :
      (i s : ℕ) (xs rest buf old buf' part ds : List ℕ) (storage : ℕ) (h' : HttpSocket)
      (server : Server)
      → c_string xs ≡ word ++ 32 ∷ ((47 ∷ name) ++ 32 ∷ rest)
      → At i s (slot_of state_http_idle (fresh old storage)) server
      → make_http_response_head (find_http_uri_type page) len ≡ some (whole_head ds)
      → send_http_response_body table page buf num len (idle_socket old) ≡ some (h', (buf', part))
      → run_idle table i s (bytes xs) buf server
        ≡ some (
          put_slot i
              (slot_of (status_after state_http_res_inproc h') h')
              (put_slot i (slot_of state_http_idle h') server),
          (sends_of (whole_head ds) ++ sends_of part) ++ (await_sent ∷ []),
        )
  unfolding run_idle http_process_handler
  run_idle_lem i s xs rest buf old buf' part ds storage h' server text (num_at, seq, inside, at)
        made sent =
      let fits : leb 512 (length (47 ∷ name)) ≡ false = ground arith in
      let parsed : parse_http_request (c_string xs) ≡ stored method (47 ∷ name) =
        ap parse_http_request text
        ∙ parse-Asks word (47 ∷ name) rest method asks (refl, no_spaces name named) in
      let was = slot_of state_http_idle (fresh old storage) in
      let mid = slot_of state_http_idle h' in
      let server1 = put_slot i mid server in
      let at1 = put_slot-At i s was mid server (num_at, seq, inside, at) in
      let answered = answer_lem buf old buf' part ds storage h' made sent in
      let after = after_part_lem i s state_http_res_inproc state_http_idle h' server1 at1 in
      rw (parsed, fits, seq, at, answered, after, run_idle, http_process_handler) refl

  -- The request and the passes behind it, once the first part is known.
  request-Serves :
      (i s : ℕ) (p : Pass) (ps : List Pass) (xs rest old buf' part more ds : List ℕ) (storage : ℕ)
      (h' : HttpSocket) (server : Server)
      → p.sr ≡ established
      → p.received ≡ bytes xs
      → c_string xs ≡ word ++ 32 ∷ ((47 ∷ name) ++ 32 ∷ rest)
      → At i s (slot_of state_http_idle (fresh old storage)) server
      → make_http_response_head (find_http_uri_type page) len ≡ some (whole_head ds)
      → send_http_response_body table page p.buf num len (idle_socket old) ≡ some (h', (buf', part))
      → ((server' : Server)
          → At i s (slot_of (status_after state_http_res_inproc h') h') server'
          → Serves table i s ps server' more 1)
      → Serves table i s (p ∷ ps) server ((whole_head ds ++ part) ++ more) 1
  unfolding run_established
  request-Serves i s p ps xs rest old buf' part more ds storage h' server up arrived text at made
        sent go_on =
      let was = slot_of state_http_idle (fresh old storage) in
      let mid = slot_of state_http_idle h' in
      let now = slot_of (status_after state_http_res_inproc h') h' in
      let server1 = put_slot i mid server in
      let at2 = put_slot-At i s mid now server1 (put_slot-At i s was mid server at) in
      let calls = (sends_of (whole_head ds) ++ sends_of part) ++ (await_sent ∷ []) in
      let ran : run_established table i s p was server ≡ some (put_slot i now server1, calls) =
        rw (arrived, run_established)
          (run_idle_lem i s xs rest p.buf old buf' part ds storage h' server text at made sent) in
      let bytes_of : sent_bytes calls ≡ whole_head ds ++ part =
        sent_bytes-append (sends_of (whole_head ds) ++ sends_of part) (await_sent ∷ [])
        ∙ append-nil (sent_bytes (sends_of (whole_head ds) ++ sends_of part))
        ∙ sent_bytes-append (sends_of (whole_head ds)) (sends_of part)
        ∙ ap (λ r. r ++ sent_bytes (sends_of part)) (sent_bytes-sends_of (whole_head ds))
        ∙ ap (λ r. whole_head ds ++ r) (sent_bytes-sends_of part) in
      let none_ended : ends_count calls ≡ 0 = omega (
        arith,
        ends_count-append (sends_of (whole_head ds) ++ sends_of part) (await_sent ∷ []),
        ends_count-append (sends_of (whole_head ds)) (sends_of part),
        ends_count-sends_of (whole_head ds),
        ends_count-sends_of part,
      ) in
      Serves-pass table i s p ps was server (put_slot i now server1) (whole_head ds ++ part) more 0
        1 calls up at ran bytes_of none_ended (go_on (put_slot i now server1) at2)

-- The page goes out behind its head.
abbrev pub IsServed : List WebContent → List ℕ → ℕ → List ℕ → ℕ → ℕ → List Pass → Server → Type 0
IsServed table page num head_text i s ps server =
    (w : WebContent) × (ds : List ℕ) × (get_elem? table num ≡ some w)
    × (same_text page w.content_name ≡ true)
    × All IsDigit ds
    × (value 0 ds ≡ length w.content)
    × Serves table i s ps server ((head_text ++ text_of ds ++ 13 ∷ 10 ∷ 13 ∷ 10 ∷ []) ++ w.content)
        1

-- On a table whose lengths are right, with an entry between two requests: when GET or HEAD asks, in
-- capitals or in small letters, for the path of a listed page, a path without space and ? and below
-- 511 bytes, and the page is no CGI and no XML, has a type with a head, less than 10 ^ 9 bytes and
-- a name below 128, the pass of httpServer_run() that receives the request and more passes than the
-- page has bytes, in which nothing else arrives, send the head, the digits of the length, an empty
-- line and the page of that name, end the connection once, and leave the entry between two
-- requests.
pub http_server_run-IsServed :
    (table : List WebContent) (name : List ℕ) (num len : ℕ) (head_text word : List ℕ) (method : ℕ)
    (i s : ℕ) (p : Pass) (ps : List Pass) (xs rest old : List ℕ) (storage : ℕ) (server : Server)
    → IsTable table
    → Wanted table (named_page (page_of name)) num len head_text
    → Asks word method
    → All (IsFree (32 ∷ 63 ∷ [])) name
    → length name < 511
    → p.sr ≡ established
    → p.received ≡ bytes xs
    → c_string xs ≡ word ++ 32 ∷ ((47 ∷ name) ++ 32 ∷ rest)
    → At i s (slot_of state_http_idle (fresh old storage)) server
    → All IsQuiet ps
    → len < length ps
    → IsServed table (named_page (page_of name)) num head_text i s (p ∷ ps) server
http_server_run-IsServed table name num len head_text word method i s p ps xs rest old storage
      server (few, pages) wanted asks named short_name up arrived text at quiet enough =
    let page = named_page (page_of name) in
    let (w, entry, inside, len_of, called) =
      find_user_reg_web_content-Holds table page num len wanted.is_listed in
    let (stored_len, fits) = get_elem?-All table num w pages entry in
    let same : len ≡ length w.content = sym len_of ∙ stored_len in
    let (ds, digits, is_len, made) =
      written_digits (find_http_uri_type page) len head_text wanted.has_head wanted.is_short in
    let text_head = head_text ++ text_of ds ++ 13 ∷ 10 ∷ 13 ∷ 10 ∷ [] in
    let to_len = λ (r : Option (HttpSocket × (List ℕ × List ℕ))) (k : ℕ).
      send_http_response_body table page p.buf num k (idle_socket old) ≡ r in
    let served : Serves table i s (p ∷ ps) server (text_head ++ w.content) 1 =
      elim (Bool-cases (ltb 255 (length w.content))) [
        | inl e ↦
            let sent =
              sent_long table w num entry inside few p.buf page old (ground arith) fits
                wanted.fits_name in
            let filled : (length w.content == 0) ≡ false = ground arith in
            subst (λ r. Serves table i s (p ∷ ps) server r 1)
              (append_assoc text_head (take 255 w.content) (drop 255 w.content)
                ∙ ap (λ r. text_head ++ r) (take-append-drop 255 w.content))
              (request-Serves table name num len head_text wanted word method asks named short_name
                i s p ps xs rest old (read_to w p.buf 0 255) (take 255 w.content)
                (drop 255 w.content) ds storage (sending w num page 255) server up arrived text at
                made
                (subst
                  (to_len
                    (some (sending w num page 255, (read_to w p.buf 0 255, take 255 w.content))))
                  (sym same) sent)
                (λ server' at'.
                  sending-Serves table w num entry inside few fits i s page ps 255 server' quiet
                    (ground arith) (omega (arith, same)) (rw filled at at')))
        | inr e ↦
            let (h', over, sent) =
              sent_short table w num entry inside few p.buf page old (ground arith) in
            let none_left : (h'.file_len == 0) ≡ true = ap (λ k. k == 0) over in
            subst (λ r. Serves table i s (p ∷ ps) server r 1) (append-nil (text_head ++ w.content))
              (request-Serves table name num len head_text wanted word method asks named short_name
                i s p ps xs rest old (read_to w p.buf 0 (length w.content)) w.content [] ds storage
                h' server up arrived text at made
                (subst (to_len (some (h', (read_to w p.buf 0 (length w.content), w.content))))
                  (sym same) sent)
                (λ server' at'.
                  done-Serves table i s h' ps server' quiet (omega arith) (simp none_left at at')))
      ] in
    (w, ds, entry, called, digits, is_len ∙ same, served)
