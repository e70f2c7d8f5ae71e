-- ===== src/Http/Mime.antt =====
-- srclib/http.c: `get_mime_type`.
use barehttp.Base.{Bool, ◌||◌, none, some, if◌then◌else◌}
use barehttp.CString.{Bytes, codes, str_eq, after_last}

abbrev mime_of_ext : Bytes → Bytes
mime_of_ext ext =
    if str_eq ext (codes "txt")
    then codes "text/plain"
    else (if str_eq ext (codes "html")
        then codes "text/html"
        else (if str_eq ext (codes "gif")
            then codes "image/gif"
            else (if str_eq ext (codes "jpg") || str_eq ext (codes "jpeg")
                then codes "image/jpeg"
                else (if str_eq ext (codes "mpeg") || str_eq ext (codes "mpg")
                    then codes "video/mpeg"
                    else (if str_eq ext (codes "doc") || str_eq ext (codes "docx")
                        then codes "application/msword"
                        else (if str_eq ext (codes "pdf")
                            then codes "application/pdf"
                            else (if str_eq ext (codes "py")
                                then codes "text/x-python"
                                else (if str_eq ext (codes "php")
                                    then codes "text/x-php"
                                    else (if str_eq ext (codes "css")
                                        then codes "text/css"
                                        else codes "text/plain")))))))))

-- The path is a string.
unfoldable pub get_mime_type : Bytes → Bytes
get_mime_type path = elim (after_last b'.' path) [
  | none ↦ codes "text/plain"
  | some ext ↦ mime_of_ext ext
]

-- The test of `process_get` and `process_post` for a script.
unfoldable pub is_script : Bytes → Bool
is_script mime = str_eq mime (codes "text/x-python") || str_eq mime (codes "text/x-php")
