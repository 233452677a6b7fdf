-- ===== src/Http/Response.antt =====
-- httpServer.c: the heads and the CGI responses; httpUtil.c: the CGI handlers.
use x_wizchip_io_library_dri.Base.{
  ℕ, ◌+◌, ◌-◌, ◌==◌, leb, not, ◌&&◌, if◌then◌else◌, Option, none, some, List, [], ◌∷◌, ◌++◌, length,
}
use x_wizchip_io_library_dri.Http.Text.{same_text}
use x_wizchip_io_library_dri.Http.Pages.{ptype_cgi, ptype_xml, make_http_response_head, decimal}
use x_wizchip_io_library_dri.Http.Content.{data_buf_size}

-- The statuses that the server answers with.
pub data HttpStatus : Type 0 where
  status_ok status_bad_req status_not_found : HttpStatus

-- ERROR_HTML_PAGE
abbrev pub error_html_page : List ℕ
error_html_page =
    72 ∷ 84 ∷ 84 ∷ 80 ∷ 47 ∷ 49 ∷ 46 ∷ 49 ∷ 32 ∷ 52 ∷ 48 ∷ 52 ∷ 32 ∷ 78 ∷ 111 ∷ 116 ∷ 32 ∷ 70 ∷ 111
    ∷ 117 ∷ 110 ∷ 100 ∷ 13 ∷ 10 ∷ 67 ∷ 111 ∷ 110 ∷ 116 ∷ 101 ∷ 110 ∷ 116 ∷ 45 ∷ 84 ∷ 121 ∷ 112 ∷ 101
    ∷ 58 ∷ 32 ∷ 116 ∷ 101 ∷ 120 ∷ 116 ∷ 47 ∷ 104 ∷ 116 ∷ 109 ∷ 108 ∷ 13 ∷ 10 ∷ 67 ∷ 111 ∷ 110 ∷ 116
    ∷ 101 ∷ 110 ∷ 116 ∷ 45 ∷ 76 ∷ 101 ∷ 110 ∷ 103 ∷ 116 ∷ 104 ∷ 58 ∷ 32 ∷ 55 ∷ 56 ∷ 13 ∷ 10 ∷ 13
    ∷ 10 ∷ 60 ∷ 72 ∷ 84 ∷ 77 ∷ 76 ∷ 62 ∷ 13 ∷ 10 ∷ 60 ∷ 66 ∷ 79 ∷ 68 ∷ 89 ∷ 62 ∷ 13 ∷ 10 ∷ 83 ∷ 111
    ∷ 114 ∷ 114 ∷ 121 ∷ 44 ∷ 32 ∷ 116 ∷ 104 ∷ 101 ∷ 32 ∷ 112 ∷ 97 ∷ 103 ∷ 101 ∷ 32 ∷ 121 ∷ 111 ∷ 117
    ∷ 32 ∷ 114 ∷ 101 ∷ 113 ∷ 117 ∷ 101 ∷ 115 ∷ 116 ∷ 101 ∷ 100 ∷ 32 ∷ 119 ∷ 97 ∷ 115 ∷ 32 ∷ 110
    ∷ 111 ∷ 116 ∷ 32 ∷ 102 ∷ 111 ∷ 117 ∷ 110 ∷ 100 ∷ 46 ∷ 13 ∷ 10 ∷ 60 ∷ 47 ∷ 66 ∷ 79 ∷ 68 ∷ 89 ∷ 62
    ∷ 13 ∷ 10 ∷ 60 ∷ 47 ∷ 72 ∷ 84 ∷ 77 ∷ 76 ∷ 62 ∷ 13 ∷ 10 ∷ []

-- ERROR_REQUEST_PAGE
abbrev pub error_request_page : List ℕ
error_request_page =
    72 ∷ 84 ∷ 84 ∷ 80 ∷ 47 ∷ 49 ∷ 46 ∷ 49 ∷ 32 ∷ 52 ∷ 48 ∷ 48 ∷ 32 ∷ 79 ∷ 75 ∷ 13 ∷ 10 ∷ 67 ∷ 111
    ∷ 110 ∷ 116 ∷ 101 ∷ 110 ∷ 116 ∷ 45 ∷ 84 ∷ 121 ∷ 112 ∷ 101 ∷ 58 ∷ 32 ∷ 116 ∷ 101 ∷ 120 ∷ 116 ∷ 47
    ∷ 104 ∷ 116 ∷ 109 ∷ 108 ∷ 13 ∷ 10 ∷ 67 ∷ 111 ∷ 110 ∷ 116 ∷ 101 ∷ 110 ∷ 116 ∷ 45 ∷ 76 ∷ 101 ∷ 110
    ∷ 103 ∷ 116 ∷ 104 ∷ 58 ∷ 32 ∷ 53 ∷ 48 ∷ 13 ∷ 10 ∷ 13 ∷ 10 ∷ 60 ∷ 72 ∷ 84 ∷ 77 ∷ 76 ∷ 62 ∷ 13
    ∷ 10 ∷ 60 ∷ 66 ∷ 79 ∷ 68 ∷ 89 ∷ 62 ∷ 13 ∷ 10 ∷ 73 ∷ 110 ∷ 118 ∷ 97 ∷ 108 ∷ 105 ∷ 100 ∷ 32 ∷ 114
    ∷ 101 ∷ 113 ∷ 117 ∷ 101 ∷ 115 ∷ 116 ∷ 46 ∷ 13 ∷ 10 ∷ 60 ∷ 47 ∷ 66 ∷ 79 ∷ 68 ∷ 89 ∷ 62 ∷ 13 ∷ 10
    ∷ 60 ∷ 47 ∷ 72 ∷ 84 ∷ 77 ∷ 76 ∷ 62 ∷ 13 ∷ 10 ∷ []

-- RES_CGIHEAD_OK
abbrev pub res_cgihead_ok : List ℕ
res_cgihead_ok =
    72 ∷ 84 ∷ 84 ∷ 80 ∷ 47 ∷ 49 ∷ 46 ∷ 49 ∷ 32 ∷ 50 ∷ 48 ∷ 48 ∷ 32 ∷ 79 ∷ 75 ∷ 13 ∷ 10 ∷ 67 ∷ 111
    ∷ 110 ∷ 116 ∷ 101 ∷ 110 ∷ 116 ∷ 45 ∷ 84 ∷ 121 ∷ 112 ∷ 101 ∷ 58 ∷ 32 ∷ 116 ∷ 101 ∷ 120 ∷ 116 ∷ 47
    ∷ 104 ∷ 116 ∷ 109 ∷ 108 ∷ 13 ∷ 10 ∷ 67 ∷ 111 ∷ 110 ∷ 116 ∷ 101 ∷ 110 ∷ 116 ∷ 45 ∷ 76 ∷ 101 ∷ 110
    ∷ 103 ∷ 116 ∷ 104 ∷ 58 ∷ 32 ∷ []

-- "example.cgi"
abbrev pub example_cgi : List ℕ
example_cgi = 101 ∷ 120 ∷ 97 ∷ 109 ∷ 112 ∷ 108 ∷ 101 ∷ 46 ∷ 99 ∷ 103 ∷ 105 ∷ []

-- What send_http_response_header() sends, the empty text for nothing; `none` is a fault of
-- make_http_response_head().
unfoldable pub send_http_response_header : ℕ → ℕ → HttpStatus → Option (List ℕ)
send_http_response_header type len status_ok =
    if not (type == ptype_cgi) && not (type == ptype_xml)
    then make_http_response_head type len
    else some []
send_http_response_header type len status_bad_req = some error_request_page
send_http_response_header type len status_not_found = some error_html_page

-- The response of send_http_response_cgi(); `len` is of 16 bits.
unfoldable pub send_http_response_cgi : List ℕ → ℕ → List ℕ
send_http_response_cgi body len = res_cgihead_ok ++ (decimal 5 len ++ (13 ∷ 10 ∷ 13 ∷ 10 ∷ body))

-- http_get_cgi_handler(), with predefined_get_cgi_processor(), which finds nothing: the length, and
-- the text in the buffer, which it leaves as it is. `none` for HTTP_FAILED.
unfoldable pub http_get_cgi_handler : List ℕ → List ℕ → Option (List ℕ × ℕ)
http_get_cgi_handler uri_name buf = if same_text uri_name example_cgi then some (buf, 0) else none

-- http_post_cgi_handler(), with predefined_set_cgi_processor(), which finds nothing: the text "1" and
-- its length. The result is HTTP_OK and never HTTP_RESET.
unfoldable pub http_post_cgi_handler : List ℕ → Option (List ℕ × ℕ)
http_post_cgi_handler uri_name = if same_text uri_name example_cgi then some (49 ∷ [], 1) else none

-- The answer to a CGI request.
unfoldable pub answer_cgi : Option (List ℕ × ℕ) → List ℕ
answer_cgi none = error_html_page
answer_cgi (some (body, len)) =
    if leb len (data_buf_size - (length res_cgihead_ok + 8))
    then send_http_response_cgi body len
    else error_html_page
