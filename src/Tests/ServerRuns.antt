-- ===== src/Tests/ServerRuns.antt =====
-- A server with one page, and a request for it.
use x_wizchip_io_library_dri.Base.{ℕ, refl, true, false, List, [], ◌∷◌, ◌++◌, replicate, arith}
use x_wizchip_io_library_dri.Services.{established}
use x_wizchip_io_library_dri.Http.Text.{strstr, is_prefix, same_text}
use x_wizchip_io_library_dri.Http.Pages.{
  find_http_uri_type, response_head, head_start, length_field,
}
use x_wizchip_io_library_dri.Http.Request.{c_string, method_get}
use x_wizchip_io_library_dri.Http.Request.Parsing.{get, page_of}
use x_wizchip_io_library_dri.Http.Content.{WebContent, find_user_reg_web_content}
use x_wizchip_io_library_dri.Http.Server.{
  Server, state_http_idle, get_http_sequence_num, named_page, bytes, no_data, Pass,
}
use x_wizchip_io_library_dri.Http.Server.Passes.{slot_of, fresh}
use x_wizchip_io_library_dri.Http.Server.Requests.{Wanted, IsServed, http_server_run-IsServed}

-- "a.gif"
abbrev gif_name : List ℕ
gif_name = 97 ∷ 46 ∷ 103 ∷ 105 ∷ 102 ∷ []

abbrev gif_page : WebContent
gif_page = record { content_name = gif_name; content_len = 3; content = 71 ∷ 73 ∷ 70 ∷ [] }

abbrev gif_head : List ℕ
gif_head = head_start ++ (105 ∷ 109 ∷ 97 ∷ 103 ∷ 101 ∷ 47 ∷ 103 ∷ 105 ∷ 102 ∷ [] ++ length_field)

gif_Wanted : Wanted (gif_page ∷ []) (named_page (page_of gif_name)) 0 3 gif_head
unfolding find_user_reg_web_content find_http_uri_type response_head strstr is_prefix same_text
    named_page
gif_Wanted = record {
  is_listed = refl;
  no_cgi = refl;
  no_xml = refl;
  has_head = refl;
  is_short = omega arith;
  fits_name = omega arith;
}

abbrev web_server : Server
web_server = record { sock_num = 2 ∷ []; slots = slot_of state_http_idle (fresh [] 0) ∷ [] }

abbrev quiet_pass : Pass
quiet_pass = record { sr = established; con = false; received = no_data; buf = [] }

-- "GET /a.gif H"
abbrev request_text : List ℕ
request_text = 71 ∷ 69 ∷ 84 ∷ 32 ∷ 47 ∷ 97 ∷ 46 ∷ 103 ∷ 105 ∷ 102 ∷ 32 ∷ 72 ∷ []

abbrev asking_pass : Pass
asking_pass = record { sr = established; con = true; received = bytes request_text; buf = [] }

http_server_run-IsServed_example :
    IsServed
      (gif_page ∷ [])
      (named_page gif_name)
      0
      gif_head
      0
      2
      (asking_pass ∷ replicate 4 quiet_pass)
      web_server
unfolding c_string get_http_sequence_num
http_server_run-IsServed_example =
    http_server_run-IsServed (gif_page ∷ []) gif_name 0 3 gif_head (71 ∷ 69 ∷ 84 ∷ []) method_get 0
      2 asking_pass (replicate 4 quiet_pass) request_text (72 ∷ []) [] 0 web_server
      (omega arith, ((refl, omega arith), tt)) gif_Wanted get
      (refl, (refl, (refl, (refl, (refl, tt))))) (omega arith) refl refl refl
      (refl, refl, omega arith, refl)
      ((refl, refl), ((refl, refl), ((refl, refl), ((refl, refl), tt)))) (omega arith)
