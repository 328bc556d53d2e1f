-- ===== src/Http/FileTypes.antt =====
-- project/http/include/http_file_types.h: the content type of each file extension.
use mohican.Common.{[], ◌∷◌, String}
use mohican.Text.{codes}
use mohican.Http.Headers.{Header, Headers}

abbrev entry : String → String → Header
entry extension content_type = (codes extension, codes content_type)

unfoldable pub types : Headers
types =
    entry "aac" "audio/aac"
    ∷ entry "abw" "application/x-abiword"
    ∷ entry "arc" "application/x-freearc"
    ∷ entry "avi" "video/x-msvideo"
    ∷ entry "azw" "application/vnd.amazon.ebook"
    ∷ entry "bin" "application/octet-stream"
    ∷ entry "bmp" "image/bmp"
    ∷ entry "bz" "application/x-bzip"
    ∷ entry "bz2" "application/x-bzip2"
    ∷ entry "csh" "application/x-csh"
    ∷ entry "css" "text/css"
    ∷ entry "csv" "text/csv"
    ∷ entry "doc" "application/msword"
    ∷ entry "docx" "application/vnd.openxmlformats-officedocument.wordprocessingml.document"
    ∷ entry "eot" "application/vnd.ms-fontobject"
    ∷ entry "epub" "application/epub+zip"
    ∷ entry "gz" "application/gzip"
    ∷ entry "gif" "image/gif"
    ∷ entry "html" "text/html"
    ∷ entry "htm" "text/html"
    ∷ entry "ico" "image/vnd.microsoft.icon"
    ∷ entry "ics" "text/calendar"
    ∷ entry "jar" "application/java-archive"
    ∷ entry "jpg" "image/jpg"
    ∷ entry "jpeg" "image/jpg"
    ∷ entry "js" "text/javascript"
    ∷ entry "json" "application/json"
    ∷ entry "jsonld" "application/ld+json"
    ∷ entry "mid" "audio/x-midi"
    ∷ entry "midi" "audio/midi"
    ∷ entry "mjs" "text/javascript"
    ∷ entry "mp3" "audio/mpeg"
    ∷ entry "mpeg" "video/mpeg"
    ∷ entry "mpkg" "application/vnd.apple.installer+xml"
    ∷ entry "odp" "application/vnd.oasis.opendocument.presentation"
    ∷ entry "ods" "application/vnd.oasis.opendocument.spreadsheet"
    ∷ entry "odt" "application/vnd.oasis.opendocument.text"
    ∷ entry "oga" "audio/ogg"
    ∷ entry "ogv" "video/ogg"
    ∷ entry "ogx" "application/ogg"
    ∷ entry "opus" "audio/opus"
    ∷ entry "otf" "font/otf"
    ∷ entry "png" "image/png"
    ∷ entry "pdf" "application/pdf"
    ∷ entry "php" "application/php"
    ∷ entry "ppt" "application/vnd.ms-powerpoint"
    ∷ entry "pptx" "application/vnd.openxmlformats-officedocument.presentationml.presentation"
    ∷ entry "rar" "application/vnd.rar"
    ∷ entry "rtf" "application/rtf"
    ∷ entry "sh" "application/x-sh"
    ∷ entry "svg" "image/svg+xml"
    ∷ entry "swf" "application/x-shockwave-flash"
    ∷ entry "tar" "application/x-tar"
    ∷ entry "tif" "image/tiff"
    ∷ entry "tiff" "image/tiff"
    ∷ entry "ts" "video/mp2t"
    ∷ entry "ttf" "font/ttf"
    ∷ entry "txt" "text/plain"
    ∷ entry "vsd" "application/vnd.visio"
    ∷ entry "wav" "audio/wav"
    ∷ entry "weba" "audio/webm"
    ∷ entry "webm" "video/webm"
    ∷ entry "webp" "image/webp"
    ∷ entry "woff" "font/woff"
    ∷ entry "woff2" "font/woff2"
    ∷ entry "xhtml" "application/xhtml+xml"
    ∷ entry "xls" "application/vnd.ms-excel"
    ∷ entry "xlsx" "application/vnd.openxmlformats-officedocument.spreadsheetml.sheet"
    ∷ entry "xul" "application/vnd.mozilla.xul+xml"
    ∷ entry "zip" "application/zip"
    ∷ entry "7z" "application/x-7z-compressed"
    ∷ []
