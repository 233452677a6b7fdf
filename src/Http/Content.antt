-- ===== src/Http/Content.antt =====
-- httpServer.c without _USE_SDCARD_ and _USE_FLASH_: the table of pages and send_http_response_body().
pub mod Lists
pub mod Parts
pub mod Table
pub mod Transfer
use x_wizchip_io_library_dri.Base.{
  ℕ, zero, suc, ◌+◌, ◌-◌, ◌%◌, ◌==◌, ltb, leb, Bool, true, false, if◌then◌else◌, Option, none, some,
  List, [], ◌∷◌, ◌++◌, length, get_elem?, take, drop, set, replicate,
}
use x_wizchip_io_library_dri.Http.Text.{same_text}

abbrev pub max_content_callback : ℕ
max_content_callback = 20

abbrev pub max_content_name_len : ℕ
max_content_name_len = 128

abbrev pub codeflash : ℕ
codeflash = 1

abbrev pub data_buf_size : ℕ
data_buf_size = 256

-- The content is a C string, without its 0.
pub record WebContent : Type 0 where
  pub content_name : List ℕ
  pub content_len : ℕ
  pub content : List ℕ

-- The first total_content_cnt entries of web_content; neither argument is NULL.
unfoldable pub reg_http_server_web_content : List ℕ → List ℕ → List WebContent → List WebContent
reg_http_server_web_content name text table =
    if leb max_content_callback (length table)
    then table
    else table
      ++ (record { content_name = name; content_len = length text % 4294967296; content = text }
          ∷ [])

abbrev pub find_from : ℕ → List ℕ → List WebContent → Option (ℕ × ℕ)
find_from i name [] = none
find_from i name (w ∷ table) =
    let later = find_from (i + 1) name table in
    if same_text name w.content_name then some (i, w.content_len) else later

-- The number and the length of a page, `none` for the result 0.
unfoldable pub find_user_reg_web_content : List ℕ → List WebContent → Option (ℕ × ℕ)
find_user_reg_web_content name table = find_from 0 name table

-- strncpy(): bytes of the text, and 0 from its end on.
abbrev pub padded : ℕ → List ℕ → List ℕ
padded zero xs = []
padded (suc n) [] = 0 ∷ padded n []
padded (suc n) (x ∷ xs) = x ∷ padded n xs

-- What stands in the buffer, which has DATA_BUF_SIZE bytes, or `none` for an access outside of the table, the
-- text or the buffer.
unfoldable pub read_user_reg_web_content : List WebContent → ℕ → List ℕ → ℕ → ℕ → Option (List ℕ)
read_user_reg_web_content table num buf offset size =
    if ltb (length table) num then some buf else elim (get_elem? table num) [
      | none ↦ none
      | some w ↦
          if ltb (length w.content) offset
          then none
          else if leb data_buf_size size
          then none
          else some (padded size (drop offset w.content) ++ 0 ∷ drop (size + 1) buf)
    ]

pub record HttpSocket : Type 0 where
  pub file_name : List ℕ
  pub file_start : ℕ
  pub file_len : ℕ
  pub file_offset : ℕ
  pub storage_type : ℕ

-- The length of the next part, and whether it is marked as the last; `none`: the name is too long.
unfoldable pub next_part : List ℕ → ℕ → ℕ → HttpSocket → Option (HttpSocket × (ℕ × Bool))
next_part uri_name start_addr len h =
    if h.file_len == 0
    then if ltb 255 len
      then if leb max_content_name_len (length uri_name)
        then none
        else some (
          record {
            file_name = uri_name;
            file_start = start_addr;
            file_len = len;
            file_offset = h.file_offset;
            storage_type = h.storage_type;
          },
          (255, false),
        )
      else some (h, (len, false))
    else let left = (h.file_len + 4294967296 - h.file_offset) % 4294967296 in
      some (h, (if ltb 255 left then (255, false) else (left, true)))

abbrev pub start_of : ℕ → HttpSocket → ℕ
start_of start_addr h = if h.file_len == 0 then start_addr else h.file_start

-- The socket after `send_len` bytes, which are the last if `ends`.
unfoldable pub part_sent : HttpSocket → Bool → ℕ → HttpSocket
part_sent h ends send_len =
    if ends
    then record {
      file_name = h.file_name;
      file_start = 0;
      file_len = 0;
      file_offset = 0;
      storage_type = h.storage_type;
    }
    else record {
      file_name = h.file_name;
      file_start = h.file_start;
      file_len = h.file_len;
      file_offset = (h.file_offset + send_len) % 4294967296;
      storage_type = h.storage_type;
    }

-- The end of the function: the socket, the buffer and what send() is given.
unfoldable pub hand_over : HttpSocket → Bool → ℕ → List ℕ → HttpSocket × (List ℕ × List ℕ)
hand_over h ends send_len buf =
    if send_len == 0
    then (part_sent h true 0, (buf, []))
    else (part_sent h ends send_len, (buf, take send_len buf))

-- send_http_response_body() for a socket whose number is in HTTPSock_Num.
unfoldable pub send_http_response_body :
    List WebContent → List ℕ → List ℕ → ℕ → ℕ → HttpSocket → Option (HttpSocket × (List ℕ × List ℕ))
send_http_response_body table uri_name buf start_addr len h =
    elim (next_part uri_name start_addr len h) [
      | none ↦ none
      | some (h', (send_len, ends)) ↦
          if h'.storage_type == codeflash
          then elim (read_user_reg_web_content table (start_of start_addr h' % 65536) buf
              h'.file_offset (send_len % 65536)) [
                | none ↦ none
                | some text ↦ some (hand_over h' ends send_len text)
              ]
          else some (hand_over h' true 0 buf)
    ]
