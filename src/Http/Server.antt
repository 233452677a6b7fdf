-- ===== src/Http/Server.antt =====
-- httpServer.c: http_process_handler() and httpServer_run().
pub mod Passes
pub mod Requests
pub mod Serving
pub mod Start
use x_wizchip_io_library_dri.Base.{
  ℕ, zero, suc, ◌+◌, ◌==◌, ltb, ◌||◌, Bool, true, false, if◌then◌else◌, Option, none, some, List,
  [], ◌∷◌, ◌++◌, get_elem?, set,
}
use x_wizchip_io_library_dri.Services.{SocketState, established, close_wait, closed, init, other}
use x_wizchip_io_library_dri.Http.Text.{same_text}
use x_wizchip_io_library_dri.Http.Url.{get_http_uri_name}
use x_wizchip_io_library_dri.Http.Pages.{ptype_cgi, find_http_uri_type}
use x_wizchip_io_library_dri.Http.Request.{
  HttpRequest, method_get, method_head, method_post, c_string, mid, parse_http_request,
}
use x_wizchip_io_library_dri.Http.Content.{
  WebContent, HttpSocket, codeflash, find_user_reg_web_content, send_http_response_body,
}
use x_wizchip_io_library_dri.Http.Response.{
  status_ok, status_bad_req, status_not_found, error_html_page, send_http_response_header,
  http_get_cgi_handler, http_post_cgi_handler, answer_cgi,
}

-- The calls that leave the server: send() with its bytes, the end of the wait for an empty transmit
-- buffer, the command DISCON of http_disconnect(), disconnect(), socket() and listen(), and the
-- clearing of Sn_IR_CON.
pub data HttpCall : Type 0 where
  sends : List ℕ → HttpCall
  clear_con await_sent http_disconnect call_disconnect open_socket call_listen : HttpCall

-- The sock_status of an entry of HTTPSock_Status, and the rest of it.
pub record Slot : Type 0 where
  pub sock_status : ℕ
  pub file : HttpSocket

-- HTTPSock_Num and HTTPSock_Status
pub record Server : Type 0 where
  pub sock_num : List ℕ
  pub slots : List Slot

abbrev pub state_http_idle : ℕ
state_http_idle = 0

abbrev pub state_http_res_inproc : ℕ
state_http_res_inproc = 3

abbrev pub state_http_res_done : ℕ
state_http_res_done = 4

abbrev pub sequence_from : ℕ → ℕ → List ℕ → Option ℕ
sequence_from i s [] = none
sequence_from i s (n ∷ ns) =
    let later = sequence_from (suc i) s ns in if n == s then some i else later

-- getHTTPSequenceNum(), with `none` for -1
unfoldable pub get_http_sequence_num : ℕ → List ℕ → Option ℕ
get_http_sequence_num s nums = sequence_from zero s nums

-- The texts that stand for pages: "/", "m" and "mobile".
unfoldable pub named_page : List ℕ → List ℕ
named_page name =
    if same_text name (47 ∷ [])
    then 105 ∷ 110 ∷ 100 ∷ 101 ∷ 120 ∷ 46 ∷ 104 ∷ 116 ∷ 109 ∷ 108 ∷ []
    else if same_text name (109 ∷ [])
    then 109 ∷ 47 ∷ 105 ∷ 110 ∷ 100 ∷ 101 ∷ 120 ∷ 46 ∷ 104 ∷ 116 ∷ 109 ∷ 108 ∷ []
    else if same_text name (109 ∷ 111 ∷ 98 ∷ 105 ∷ 108 ∷ 101 ∷ [])
    then 109 ∷ 111 ∷ 98 ∷ 105 ∷ 108 ∷ 101 ∷ 47 ∷ 105 ∷ 110 ∷ 100 ∷ 101 ∷ 120 ∷ 46 ∷ 104 ∷ 116 ∷ 109
      ∷ 108 ∷ []
    else name

-- What is sent, and the file of the socket.
abbrev pub Answer : Type 0
Answer = Option (HttpSocket × List HttpCall)

abbrev pub sends_of : List ℕ → List HttpCall
sends_of [] = []
sends_of (x ∷ xs) = sends (x ∷ xs) ∷ []

-- A page that is found, with its number and its length.
unfoldable pub send_page : List WebContent → List ℕ → List ℕ → ℕ → ℕ → HttpSocket → Answer
send_page table name buf num len h =
    elim (send_http_response_header (find_http_uri_type name) len status_ok) [
      | none ↦ none
      | some head ↦
          elim (send_http_response_body table name buf num len
            (record h { storage_type = codeflash })) [
              | none ↦ none
              | some (h', (buf', part)) ↦ some (h', sends_of head ++ sends_of part)
            ]
    ]

-- GET and HEAD. `text` is the C string that stands in pHTTP_TX: the parsed request.
unfoldable pub answer_get : List WebContent → List ℕ → List ℕ → List ℕ → HttpSocket → Answer
answer_get table name text buf h =
    if find_http_uri_type name == ptype_cgi
    then some (h, sends (answer_cgi (http_get_cgi_handler name text)) ∷ [])
    else elim (find_user_reg_web_content name table) [
      | none ↦ some (h, sends error_html_page ∷ [])
      | some (num, len) ↦ send_page table name buf num len h
    ]

unfoldable pub answer_post : List ℕ → HttpSocket → Answer
answer_post name h =
    if find_http_uri_type name == ptype_cgi
    then some (h, sends (answer_cgi (http_post_cgi_handler name)) ∷ [])
    else some (h, sends error_html_page ∷ [])

-- The switch over the method, with the URI; `none` where it is not set.
unfoldable pub answer : List WebContent → HttpRequest → List ℕ → HttpSocket → Answer
answer table request buf h =
    if request.method == method_get || request.method == method_head
    then elim request.uri [
      | none ↦ none
      | some uri ↦ elim (get_http_uri_name uri) [
        | none ↦ none
        | some page ↦ answer_get table (named_page page) (request.method ∷ ptype_cgi ∷ uri) buf h
      ]
    ]
    else if request.method == method_post
    then elim request.uri [
      | none ↦ none
      | some uri ↦ elim (mid uri (47 ∷ []) (32 ∷ 72 ∷ 84 ∷ 84 ∷ 80 ∷ [])) [
        | none ↦ none
        | some name ↦ answer_post name h
      ]
    ]
    else some (
      h,
      (let page = send_http_response_header 0 0 status_bad_req in
          elim page [ none ↦ [] | some text ↦ sends_of text ]),
    )

-- http_process_handler() on socket `s`, whose entry it looks up; `buf` is what stands in pHTTP_RX.
unfoldable pub http_process_handler :
    List WebContent → ℕ → HttpRequest → List ℕ → Server → Option (Server × List HttpCall)
http_process_handler table s request buf server = elim (get_http_sequence_num s server.sock_num) [
  | none ↦ some (server, [])
  | some i ↦ elim (get_elem? server.slots i) [
    | none ↦ none
    | some slot ↦ elim (answer table request buf slot.file) [
      | none ↦ none
      | some (h, calls) ↦
          some (record server { slots = set server.slots i (record slot { file = h }) }, calls)
    ]
  ]
]

-- What recv() gives: Sn_RX_RSR is 0, the bytes, or an error.
pub data Received : Type 0 where
  no_data : Received
  bytes : List ℕ → Received
  failed : Received

-- What a pass finds: Sn_SR, Sn_IR_CON, what is received, and what stands in pHTTP_RX when a part of a
-- page is read to it.
pub record Pass : Type 0 where
  pub sr : SocketState
  pub con : Bool
  pub received : Received
  pub buf : List ℕ

abbrev pub Run : Type 0
Run = Option (Server × List HttpCall)

abbrev pub put_slot : ℕ → Slot → Server → Server
put_slot i slot server = record server { slots = set server.slots i slot }

-- The status behind a response or a part of it.
abbrev pub after_part : ℕ → ℕ → Server → Option Server
after_part i more server = elim (get_elem? server.slots i) [
  | none ↦ none
  | some slot ↦ some (
      put_slot i
        (record slot {
          sock_status = if slot.file.file_len == 0 then state_http_res_done else more;
        })
        server)
]

-- STATE_HTTP_IDLE. What arrived is what recv() gave, so at most the DATA_BUF_SIZE bytes that it is asked
-- for. The buffer for it is the caller's, of a size that the source leaves open: it is taken to have
-- room for the 0 behind the bytes.
unfoldable pub run_idle : List WebContent → ℕ → ℕ → Received → List ℕ → Server → Run
run_idle table i s no_data buf server = some (server, [])
run_idle table i s failed buf server = none
run_idle table i s (bytes xs) buf server = elim (parse_http_request (c_string xs)) [
  | none ↦ none
  | some request ↦ elim (http_process_handler table s request buf server) [
    | none ↦ none
    | some (server', calls) ↦ elim (after_part i state_http_res_inproc server') [
      | none ↦ none
      | some server'' ↦ some (server'', calls ++ (await_sent ∷ []))
    ]
  ]
]

-- send_http_response_body() with the entry of socket `s`, which it looks up
unfoldable pub send_rest : List WebContent → ℕ → List ℕ → Server → Run
send_rest table s buf server = elim (get_http_sequence_num s server.sock_num) [
  | none ↦ some (server, [])
  | some i ↦ elim (get_elem? server.slots i) [
    | none ↦ none
    | some slot ↦ elim (send_http_response_body table [] buf 0 0 slot.file) [
      | none ↦ none
      | some (h, (buf', part)) ↦ some (put_slot i (record slot { file = h }) server, sends_of part)
    ]
  ]
]

-- STATE_HTTP_RES_INPROC
unfoldable pub run_inproc : List WebContent → ℕ → ℕ → List ℕ → Server → Run
run_inproc table i s buf server = elim (send_rest table s buf server) [
  | none ↦ none
  | some (server', calls) ↦ elim (after_part i state_http_res_inproc server') [
    | none ↦ none
    | some server'' ↦ some (server'', calls)
  ]
]

-- STATE_HTTP_RES_DONE
unfoldable pub run_done : ℕ → Slot → Server → Run
run_done i slot server = some (
  put_slot i
      (record {
        sock_status = state_http_idle;
        file = record slot.file { file_len = 0; file_offset = 0; file_start = 0 };
      })
      server,
  http_disconnect ∷ [],
)

-- The inner switch; the other states do nothing.
unfoldable pub run_established : List WebContent → ℕ → ℕ → Pass → Slot → Server → Run
run_established table i s pass slot server =
    if slot.sock_status == state_http_idle
    then run_idle table i s pass.received pass.buf server
    else if slot.sock_status == state_http_res_inproc
    then run_inproc table i s pass.buf server
    else if slot.sock_status == state_http_res_done
    then run_done i slot server
    else some (server, [])

abbrev pub behind_call : List HttpCall → Run → Run
behind_call calls none = none
behind_call calls (some (server, more)) = some (server, calls ++ more)

-- httpServer_run(); `none` is a fault.
unfoldable pub http_server_run : List WebContent → ℕ → Pass → Server → Run
http_server_run table i pass server = elim (get_elem? server.sock_num i) [
  | none ↦ none
  | some s ↦ elim (get_elem? server.slots i) [
    | none ↦ none
    | some slot ↦ elim pass.sr [
      | established ↦
          behind_call (if pass.con then clear_con ∷ [] else [])
            (run_established table i s pass slot server)
      | close_wait ↦ some (server, call_disconnect ∷ [])
      | closed ↦ some (server, open_socket ∷ [])
      | init ↦ some (server, call_listen ∷ [])
      | other ↦ some (server, [])
    ]
  ]
]
