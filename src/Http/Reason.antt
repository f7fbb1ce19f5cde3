-- ===== src/Http/Reason.antt =====
-- src/http.cpp, `http::get_reason`.
use niubix.Base.{ℕ, ◌==◌, List, [], ◌∷◌, leb, ◌&&◌, if◌then◌else◌}
use Prim.Native.String.{String}

-- The cases of the `switch`, and the reason for a status that is none of them.
abbrev pub reasons : List (ℕ × String)
reasons =
    (100, "Continue")
    ∷ (101, "Switching Protocols")
    ∷ (102, "Processing")
    ∷ (200, "OK")
    ∷ (201, "Created")
    ∷ (202, "Accepted")
    ∷ (203, "Non-Authoritative Information")
    ∷ (204, "No Content")
    ∷ (205, "Reset Content")
    ∷ (206, "Partial Content")
    ∷ (207, "Multi-Status")
    ∷ (210, "Content Different")
    ∷ (226, "IM Used")
    ∷ (300, "Multiple Choices")
    ∷ (301, "Moved Permanently")
    ∷ (302, "Found")
    ∷ (303, "See Other")
    ∷ (304, "Not Modified")
    ∷ (305, "Use Proxy")
    ∷ (307, "Temporary Redirect")
    ∷ (308, "Permanent Redirect")
    ∷ (310, "Too many Redirects")
    ∷ (400, "Bad Request")
    ∷ (401, "Unauthorized")
    ∷ (402, "Payment Required")
    ∷ (403, "Forbidden")
    ∷ (404, "Not Found")
    ∷ (405, "Method Not Allowed")
    ∷ (406, "Not Acceptable")
    ∷ (407, "Proxy Authentication Required")
    ∷ (408, "Request Time-out")
    ∷ (409, "Conflict")
    ∷ (410, "Gone")
    ∷ (411, "Length Required")
    ∷ (412, "Precondition Failed")
    ∷ (413, "Request Entity Too Large")
    ∷ (414, "Request-URI Too Long")
    ∷ (415, "Unsupported Media Type")
    ∷ (416, "Requested range unsatisfiable")
    ∷ (417, "Expectation failed")
    ∷ (418, "I'm a teapot")
    ∷ (421, "Misdirected Request")
    ∷ (422, "Unprocessable Content")
    ∷ (423, "Locked")
    ∷ (424, "Method failure")
    ∷ (425, "Too Early")
    ∷ (426, "Upgrade Required")
    ∷ (428, "Precondition Required")
    ∷ (429, "Too Many Requests")
    ∷ (431, "Request Header Fields Too Large")
    ∷ (449, "Retry With")
    ∷ (450, "Blocked by Windows Parental Controls")
    ∷ (451, "Unavailable For Legal Reasons")
    ∷ (456, "Unrecoverable Error")
    ∷ (499, "client has closed connection")
    ∷ (500, "Internal Server Error")
    ∷ (501, "Not Implemented")
    ∷ (502, "Bad Gateway or Proxy Error")
    ∷ (503, "Service Unavailable")
    ∷ (504, "Gateway Time-out")
    ∷ (505, "HTTP Version not supported")
    ∷ (506, "Variant also negotiate")
    ∷ (507, "Insufficient storage")
    ∷ (508, "Loop detected")
    ∷ (509, "Bandwidth Limit Exceeded")
    ∷ (510, "Not extended")
    ∷ (511, "Network authentication required")
    ∷ (520, "Web server is returning an unknown error")
    ∷ []

abbrev pub class_reason : ℕ → String
class_reason status =
    if leb 100 status && leb status 199
    then "Informational"
    else if leb 200 status && leb status 299
    then "Success"
    else if leb 300 status && leb status 399
    then "Redirection"
    else if leb 400 status && leb status 499
    then "Client Error"
    else if leb 500 status && leb status 599
    then "Server Error"
    else "Other"

unfoldable pub find_reason : List (ℕ × String) → ℕ → String
find_reason [] status = class_reason status
find_reason ((code, reason) ∷ rest) status =
    let others = find_reason rest status in if code == status then reason else others

unfoldable pub get_reason : ℕ → String
get_reason status = find_reason reasons status
