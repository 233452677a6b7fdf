-- ===== src/Http/Server/Passes.antt =====
-- Single passes of httpServer_run(), and passes in a row.
use x_wizchip_io_library_dri.Base.{
  ℕ, ◌+◌, ◌==◌, ◌<◌, ◌≡◌, refl, sym, ap, ◌∙◌, Bool, true, false, if◌then◌else◌, none, some, List,
  [], ◌∷◌, ◌++◌, length, get_elem?, length-set, get_elem?-set_self, arith,
}
use mathlib.Core.List.{append-nil, append_assoc}
use x_wizchip_io_library_dri.Services.{established}
use x_wizchip_io_library_dri.Http.Content.{WebContent, HttpSocket, send_http_response_body}
use x_wizchip_io_library_dri.Http.Server.{
  HttpCall, sends, clear_con, await_sent, http_disconnect, call_disconnect, open_socket,
  call_listen, Slot, Server, state_http_idle, state_http_res_inproc, state_http_res_done,
  get_http_sequence_num, sends_of, Run, put_slot, after_part, send_rest, run_inproc,
  run_established, behind_call, http_server_run, no_data, Pass,
}

-- What is sent.
abbrev pub sent_bytes : List HttpCall → List ℕ
sent_bytes [] = []
sent_bytes (sends xs ∷ calls) = xs ++ sent_bytes calls
sent_bytes (clear_con ∷ calls) = sent_bytes calls
sent_bytes (await_sent ∷ calls) = sent_bytes calls
sent_bytes (http_disconnect ∷ calls) = sent_bytes calls
sent_bytes (call_disconnect ∷ calls) = sent_bytes calls
sent_bytes (open_socket ∷ calls) = sent_bytes calls
sent_bytes (call_listen ∷ calls) = sent_bytes calls

-- How often the connection is ended.
abbrev pub ends_count : List HttpCall → ℕ
ends_count [] = 0
ends_count (sends xs ∷ calls) = ends_count calls
ends_count (clear_con ∷ calls) = ends_count calls
ends_count (await_sent ∷ calls) = ends_count calls
ends_count (http_disconnect ∷ calls) = 1 + ends_count calls
ends_count (call_disconnect ∷ calls) = ends_count calls
ends_count (open_socket ∷ calls) = ends_count calls
ends_count (call_listen ∷ calls) = ends_count calls

-- Entry `i` belongs to socket `s` and is the first of it.
abbrev pub At : ℕ → ℕ → Slot → Server → Type 0
At i s slot server =
    (get_elem? server.sock_num i ≡ some s)
    × (get_http_sequence_num s server.sock_num ≡ some i)
    × (i < length server.slots)
    × (get_elem? server.slots i ≡ some slot)

pub put_slot-At :
    (i s : ℕ) (slot slot' : Slot) (server : Server)
    → At i s slot server
    → At i s slot' (put_slot i slot' server)
put_slot-At i s slot slot' server (num, seq, inside, at) = (
  num,
  seq,
  (let len = length-set server.slots i slot' in omega (arith, len)),
  get_elem?-set_self server.slots i slot' inside,
)

abbrev pub clears : Bool → List HttpCall
clears con = if con then clear_con ∷ [] else []

-- A pass in which nothing new has arrived.
abbrev pub IsQuiet : Pass → Type 0
IsQuiet p = (p.sr ≡ established) × (p.received ≡ no_data)

pub run_lem :
    (table : List WebContent) (i s : ℕ) (p : Pass) (slot : Slot) (server : Server)
    → p.sr ≡ established
    → At i s slot server
    → http_server_run table i p server
      ≡ behind_call (clears p.con) (run_established table i s p slot server)
unfolding http_server_run
run_lem table i s p slot server up (num, seq, inside, at) = simp (num, at, up, http_server_run) refl

abbrev pub slot_of : ℕ → HttpSocket → Slot
slot_of status h = record { sock_status = status; file = h }

-- The status behind a part that leaves the file `h`.
abbrev pub status_after : ℕ → HttpSocket → ℕ
status_after more h = if h.file_len == 0 then state_http_res_done else more

pub after_part_lem :
    (i s more : ℕ) (status : ℕ) (h : HttpSocket) (server : Server)
    → At i s (slot_of status h) server
    → after_part i more server ≡ some (put_slot i (slot_of (status_after more h) h) server)
after_part_lem i s more status h server (num, seq, inside, at) = rw (at, after_part) refl

pub run_inproc_lem :
    (table : List WebContent) (i s : ℕ) (buf buf' part : List ℕ) (h h' : HttpSocket)
    (server : Server)
    → At i s (slot_of state_http_res_inproc h) server
    → send_http_response_body table [] buf 0 0 h ≡ some (h', (buf', part))
    → run_inproc table i s buf server
      ≡ some (
        put_slot i
            (slot_of (status_after state_http_res_inproc h') h')
            (put_slot i (slot_of state_http_res_inproc h') server),
        sends_of part,
      )
unfolding run_inproc send_rest
run_inproc_lem table i s buf buf' part h h' server (num, seq, inside, at) sent =
    let server' = put_slot i (slot_of state_http_res_inproc h') server in
    let there =
      put_slot-At i s (slot_of state_http_res_inproc h) (slot_of state_http_res_inproc h') server
        (num, seq, inside, at) in
    let after = after_part_lem i s state_http_res_inproc state_http_res_inproc h' server' there in
    rw (seq, at, sent, after, run_inproc, send_rest) refl

pub sent_bytes-append :
    (xs ys : List HttpCall) → sent_bytes (xs ++ ys) ≡ sent_bytes xs ++ sent_bytes ys
sent_bytes-append [] ys = refl
sent_bytes-append (sends x ∷ xs) ys =
    ap (λ r. x ++ r) (sent_bytes-append xs ys)
    ∙ sym (append_assoc x (sent_bytes xs) (sent_bytes ys))
sent_bytes-append (clear_con ∷ xs) ys = sent_bytes-append xs ys
sent_bytes-append (await_sent ∷ xs) ys = sent_bytes-append xs ys
sent_bytes-append (http_disconnect ∷ xs) ys = sent_bytes-append xs ys
sent_bytes-append (call_disconnect ∷ xs) ys = sent_bytes-append xs ys
sent_bytes-append (open_socket ∷ xs) ys = sent_bytes-append xs ys
sent_bytes-append (call_listen ∷ xs) ys = sent_bytes-append xs ys

pub ends_count-append :
    (xs ys : List HttpCall) → ends_count (xs ++ ys) ≡ ends_count xs + ends_count ys
ends_count-append [] ys = omega arith
ends_count-append (sends x ∷ xs) ys = ends_count-append xs ys
ends_count-append (clear_con ∷ xs) ys = ends_count-append xs ys
ends_count-append (await_sent ∷ xs) ys = ends_count-append xs ys
ends_count-append (http_disconnect ∷ xs) ys = let e = ends_count-append xs ys in omega (arith, e)
ends_count-append (call_disconnect ∷ xs) ys = ends_count-append xs ys
ends_count-append (open_socket ∷ xs) ys = ends_count-append xs ys
ends_count-append (call_listen ∷ xs) ys = ends_count-append xs ys

pub sent_bytes-sends_of : (xs : List ℕ) → sent_bytes (sends_of xs) ≡ xs
sent_bytes-sends_of [] = refl
sent_bytes-sends_of (x ∷ xs) = append-nil (x ∷ xs)

pub ends_count-sends_of : (xs : List ℕ) → ends_count (sends_of xs) ≡ 0
ends_count-sends_of [] = refl
ends_count-sends_of (x ∷ xs) = refl

clears_quiet : (con : Bool) → (sent_bytes (clears con) ≡ []) × (ends_count (clears con) ≡ 0)
clears_quiet false = (refl, refl)
clears_quiet true = (refl, refl)

-- httpServer_run() in a row.
abbrev pub run_all : List WebContent → ℕ → List Pass → Server → Run
run_all table i [] server = some (server, [])
run_all table i (p ∷ ps) server = elim (http_server_run table i p server) [
  | none ↦ none
  | some (server', calls) ↦ behind_call calls (run_all table i ps server')
]

-- The file of an entry between two requests.
abbrev pub fresh : List ℕ → ℕ → HttpSocket
fresh name storage = record {
  file_name = name;
  file_start = 0;
  file_len = 0;
  file_offset = 0;
  storage_type = storage;
}

-- The passes end with the entry idle and its file as between two requests, have sent `xs`, and have ended the connection `n` times.
abbrev pub Serves : List WebContent → ℕ → ℕ → List Pass → Server → List ℕ → ℕ → Type 0
Serves table i s ps server xs n =
    (server' : Server) × (calls : List HttpCall) × (name : List ℕ) × (storage : ℕ) × (run_all table
        i ps server
      ≡ some (server', calls))
    × (sent_bytes calls ≡ xs)
    × (ends_count calls ≡ n)
    × At i s (slot_of state_http_idle (fresh name storage)) server'

-- A pass in front of others.
pub Serves-pass :
    (table : List WebContent) (i s : ℕ) (p : Pass) (ps : List Pass) (slot : Slot)
    (server server' : Server) (part xs : List ℕ) (here n : ℕ) (calls : List HttpCall)
    → p.sr ≡ established
    → At i s slot server
    → run_established table i s p slot server ≡ some (server', calls)
    → sent_bytes calls ≡ part
    → ends_count calls ≡ here
    → Serves table i s ps server' xs n
    → Serves table i s (p ∷ ps) server (part ++ xs) (here + n)
Serves-pass table i s p ps slot server server' part xs here n calls up at ran sent ended
      (server'', more, name, storage, rest, bytes_of, count, at') =
    let (silent, none_ended) = clears_quiet p.con in
    let whole_run = run_lem table i s p slot server up at ∙ ap (behind_call (clears p.con)) ran in
    let sent_all : sent_bytes (clears p.con ++ calls) ≡ part =
      sent_bytes-append (clears p.con) calls ∙ ap (λ r. r ++ sent_bytes calls) silent ∙ sent in
    let ended_all : ends_count (clears p.con ++ calls) ≡ here =
      let e = ends_count-append (clears p.con) calls in omega (arith, e, none_ended, ended) in
    (
      server'',
      (clears p.con ++ calls) ++ more,
      name,
      storage,
      rw (whole_run, rest, run_all) refl,
      sent_bytes-append (clears p.con ++ calls) more
          ∙ ap (λ r. r ++ sent_bytes more) sent_all
          ∙ ap (λ r. part ++ r) bytes_of,
      (let e = ends_count-append (clears p.con ++ calls) more in
          omega (arith, e, ended_all, count)),
      at',
    )
