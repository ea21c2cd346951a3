-- ===== src/Http/Header/Text.antt =====
-- The text of the header that the code writes, from the fields of an answer.
use ens_sysres_proj.Common.{
  ℕ, Option, none, some, [], ◌++◌, Bytes, codes, if◌then◌else◌, is_negative,
}
use ens_sysres_proj.Http.{HttpHeader}
use ens_sysres_proj.Http.Header.{decimal, crlf, first_line}

-- What the code writes for a field, and for the whole header.
unfoldable pub field_text : (name : Bytes) → Option Bytes → Bytes
field_text name none = []
field_text name (some value) = name ++ (value ++ crlf)

unfoldable pub content_length_text : ℕ → Bytes
content_length_text n =
    if is_negative n then [] else codes "Content-Length: " ++ (decimal n ++ crlf)

unfoldable pub option_text : HttpHeader → Bytes
option_text h =
    content_length_text h.content_length
    ++ (field_text (codes "Content-Type: ") h.content_type
        ++ (field_text (codes "Content-Encoding: ") h.content_encoding
            ++ (field_text (codes "Date: ") h.date ++ field_text (codes "Server: ") h.server)))

unfoldable pub header_text : HttpHeader → Bytes
header_text h = first_line h ++ (option_text h ++ crlf)
