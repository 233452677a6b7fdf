-- ===== src/Http/Server/Serving.antt =====
-- A page that is requested, from the request to the end of the connection.
use x_wizchip_io_library_dri.Base.{
  ℕ, ◌+◌, ◌-◌, ◌==◌, ◌<◌, ◌≤◌, ltb, ◌≡◌, refl, sym, ap, subst, ◌∙◌, Bool-cases, inl, inr, false,
  some, List, [], ◌∷◌, ◌++◌, length, get_elem?, take, drop, All, arith,
}
use x_wizchip_io_library_dri.Http.Content.{WebContent, HttpSocket, send_http_response_body}
use x_wizchip_io_library_dri.Http.Content.Lists.{drop_more, drop_end}
use x_wizchip_io_library_dri.Http.Content.Parts.{
  idle_socket, sending, read_to, next_more, next_last,
}
use x_wizchip_io_library_dri.Http.Server.{
  http_disconnect, Server, state_http_idle, state_http_res_inproc, state_http_res_done, sends_of,
  put_slot, run_idle, run_done, run_established, Pass,
}
use x_wizchip_io_library_dri.Http.Server.Passes.{
  At, put_slot-At, IsQuiet, slot_of, status_after, run_inproc_lem, sent_bytes-sends_of,
  ends_count-sends_of, fresh, Serves, Serves-pass,
}

-- While nothing arrives, an idle entry stays idle.
idle-Serves :
    (table : List WebContent) (i s storage : ℕ) (name : List ℕ) (ps : List Pass) (server : Server)
    → All IsQuiet ps
    → At i s (slot_of state_http_idle (fresh name storage)) server
    → Serves table i s ps server [] 0
unfolding run_established run_idle
idle-Serves table i s storage name [] server quiet at =
    (server, [], name, storage, refl, refl, refl, at)
idle-Serves table i s storage name (p ∷ ps) server ((up, silent), quiet) at =
    let slot = slot_of state_http_idle (fresh name storage) in
    let ran : run_established table i s p slot server ≡ some (server, []) =
      rw (silent, run_established, run_idle) refl in
    Serves-pass table i s p ps slot server server [] [] 0 0 [] up at ran refl refl
      (idle-Serves table i s storage name ps server quiet at)

-- The pass that ends the connection.
pub done-Serves :
    (table : List WebContent) (i s : ℕ) (h : HttpSocket) (ps : List Pass) (server : Server)
    → All IsQuiet ps
    → 0 < length ps
    → At i s (slot_of state_http_res_done h) server
    → Serves table i s ps server [] 1
unfolding run_established run_done
done-Serves table i s h [] server quiet some_left at = let no : ⊥ = omega arith in elim no [ ]
done-Serves table i s h (p ∷ ps) server ((up, silent), quiet) some_left at =
    let h' = fresh h.file_name h.storage_type in
    let server' = put_slot i (slot_of state_http_idle h') server in
    let at' =
      put_slot-At i s (slot_of state_http_res_done h) (slot_of state_http_idle h') server at in
    Serves-pass table i s p ps (slot_of state_http_res_done h) server server' [] [] 1 0
      (http_disconnect ∷ []) up at refl refl refl
      (idle-Serves table i s h.storage_type h.file_name ps server' quiet at')

module _ (table : List WebContent) (w : WebContent) (num : ℕ) (entry : get_elem? table num ≡ some w)
    (inside : num < length table) (small : length table ≤ 20)
    (fits : length w.content < 4294967296) where
  -- One pass in STATE_HTTP_RES_INPROC in front of others.
  inproc-Serves :
      (i s : ℕ) (p : Pass) (ps : List Pass) (server : Server) (h h' : HttpSocket)
      (buf' part xs : List ℕ)
      → IsQuiet p
      → At i s (slot_of state_http_res_inproc h) server
      → send_http_response_body table [] p.buf 0 0 h ≡ some (h', (buf', part))
      → ((server' : Server)
          → At i s (slot_of (status_after state_http_res_inproc h') h') server'
          → Serves table i s ps server' xs 1)
      → Serves table i s (p ∷ ps) server (part ++ xs) 1
  unfolding run_established
  inproc-Serves i s p ps server h h' buf' part xs (up, silent) at sent go_on =
      let was = slot_of state_http_res_inproc h in
      let mid = slot_of state_http_res_inproc h' in
      let now = slot_of (status_after state_http_res_inproc h') h' in
      let server1 = put_slot i mid server in
      let at1 = put_slot-At i s was mid server at in
      let at2 = put_slot-At i s mid now server1 at1 in
      Serves-pass table i s p ps was server (put_slot i now server1) part xs 0 1 (sends_of part) up
        at (run_inproc_lem table i s p.buf buf' part h h' server at sent) (sent_bytes-sends_of part)
        (ends_count-sends_of part) (go_on (put_slot i now server1) at2)

  -- The passes send the page from `o` on and end the connection.
  pub sending-Serves :
      (i s : ℕ) (name : List ℕ) (ps : List Pass) (o : ℕ) (server : Server)
      → All IsQuiet ps
      → o < length w.content
      → length w.content < o + length ps
      → At i s (slot_of state_http_res_inproc (sending w num name o)) server
      → Serves table i s ps server (drop o w.content) 1
  sending-Serves i s name [] o server quiet more enough at = let no : ⊥ = omega arith in elim no [ ]
  sending-Serves i s name (p ∷ ps) o server (calm, quiet) more enough at =
      elim (Bool-cases (ltb (o + 255) (length w.content))) [
        | inl e ↦
            let filled : (length w.content == 0) ≡ false = ground arith in
            subst (λ xs. Serves table i s (p ∷ ps) server xs 1) (sym (drop_more o 255 w.content))
              (inproc-Serves i s p ps server (sending w num name o) (sending w num name (o + 255))
                (read_to w p.buf o 255) (take 255 (drop o w.content)) (drop (o + 255) w.content)
                calm at (next_more table w num entry inside small p.buf name o (ground arith) fits)
                (λ server' at'.
                  sending-Serves i s name ps (o + 255) server' quiet (ground arith) (omega arith)
                    (rw filled at at')))
        | inr e ↦
            let n = length w.content - o in
            subst (λ xs. Serves table i s (p ∷ ps) server xs 1)
              (sym (
                drop_more o n w.content
                ∙ ap (λ r. take n (drop o w.content) ++ r)
                    (drop_end (o + n) w.content (omega arith))))
              (inproc-Serves i s p ps server (sending w num name o) (idle_socket name)
                (read_to w p.buf o n) (take n (drop o w.content)) [] calm at
                (next_last table w num entry inside small p.buf name o more (ground arith) fits)
                (λ server' at'.
                  done-Serves table i s (idle_socket name) ps server' quiet (omega arith) at'))
      ]
