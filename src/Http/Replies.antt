-- ===== src/Http/Replies.antt =====
-- src/http.cpp, `http::err_codes` and `http::err_msgs`: the replies that the server makes itself.
-- The index HTTP_ERR_200 and so on of src/http.h is a value of `HttpErr`.
use niubix.Base.{ℕ, List, [], ◌∷◌, ◌++◌, codes}
use Prim.Native.String.{String}

pub data HttpErr : Type 0 where
  err_200 err_400 err_401 err_403 err_404 err_405 err_407 err_408 err_410 err_411 err_413 err_414
        err_421 err_422 err_425 err_429 err_500 err_501 err_502 err_503 err_504 err_505 :
      HttpErr

unfoldable pub err_code : HttpErr → ℕ
err_code err_200 = 200
err_code err_400 = 400
err_code err_401 = 401
err_code err_403 = 403
err_code err_404 = 404
err_code err_405 = 405
err_code err_407 = 407
err_code err_408 = 408
err_code err_410 = 410
err_code err_411 = 411
err_code err_413 = 413
err_code err_414 = 414
err_code err_421 = 421
err_code err_422 = 422
err_code err_425 = 425
err_code err_429 = 429
err_code err_500 = 500
err_code err_501 = 501
err_code err_502 = 502
err_code err_503 = 503
err_code err_504 = 504
err_code err_505 = 505

-- Literals that stand side by side.
abbrev pub joined : List String → List ℕ
joined [] = []
joined (s ∷ ss) = codes s ++ joined ss

unfoldable pub err_msg : HttpErr → List ℕ
err_msg err_200 = joined (
    "HTTP/1.1 200 OK\r\n" ∷ "Content-length: 58\r\n" ∷ "Cache-Control: no-cache\r\n"
    ∷ "Content-Type: text/html\r\n" ∷ "\r\n"
    ∷ "<html><body><h1>200 OK</h1>\nService ready.\n</body></html>\n" ∷ [])
err_msg err_400 = joined (
    "HTTP/1.1 400 Bad request\r\n" ∷ "Content-length: 90\r\n" ∷ "Cache-Control: no-cache\r\n"
    ∷ "Connection: close\r\n" ∷ "Content-Type: text/html\r\n" ∷ "\r\n"
    ∷ "<html><body><h1>400 Bad request</h1>\nYour browser sent an invalid request.\n</body></html>\n"
    ∷ [])
err_msg err_401 = joined (
    "HTTP/1.1 401 Unauthorized\r\n" ∷ "Content-length: 112\r\n" ∷ "Cache-Control: no-cache\r\n"
    ∷ "Content-Type: text/html\r\n" ∷ "\r\n"
    ∷ "<html><body><h1>401 Unauthorized</h1>\nYou need a valid user and password to access this content.\n</body></html>\n"
    ∷ [])
err_msg err_403 = joined (
    "HTTP/1.1 403 Forbidden\r\n" ∷ "Content-length: 93\r\n" ∷ "Cache-Control: no-cache\r\n"
    ∷ "Content-Type: text/html\r\n" ∷ "\r\n"
    ∷ "<html><body><h1>403 Forbidden</h1>\nRequest forbidden by administrative rules.\n</body></html>\n"
    ∷ [])
err_msg err_404 = joined (
    "HTTP/1.1 404 Not Found\r\n" ∷ "Content-length: 83\r\n" ∷ "Cache-Control: no-cache\r\n"
    ∷ "Content-Type: text/html\r\n" ∷ "\r\n"
    ∷ "<html><body><h1>404 Not Found</h1>\nThe resource could not be found.\n</body></html>\n" ∷ [])
err_msg err_405 = joined (
    "HTTP/1.1 405 Method Not Allowed\r\n" ∷ "Content-length: 146\r\n"
    ∷ "Cache-Control: no-cache\r\n" ∷ "Content-Type: text/html\r\n" ∷ "\r\n"
    ∷ "<html><body><h1>405 Method Not Allowed</h1>\nA request was made of a resource using a request method not supported by that resource\n</body></html>\n"
    ∷ [])
err_msg err_407 = joined (
    "HTTP/1.1 407 Unauthorized\r\n" ∷ "Content-length: 112\r\n" ∷ "Cache-Control: no-cache\r\n"
    ∷ "Content-Type: text/html\r\n" ∷ "\r\n"
    ∷ "<html><body><h1>407 Unauthorized</h1>\nYou need a valid user and password to access this content.\n</body></html>\n"
    ∷ [])
err_msg err_408 = joined (
    "HTTP/1.1 408 Request Time-out\r\n" ∷ "Content-length: 110\r\n" ∷ "Cache-Control: no-cache\r\n"
    ∷ "Connection: close\r\n" ∷ "Content-Type: text/html\r\n" ∷ "\r\n"
    ∷ "<html><body><h1>408 Request Time-out</h1>\nYour browser didn't send a complete request in time.\n</body></html>\n"
    ∷ [])
err_msg err_410 = joined (
    "HTTP/1.1 410 Gone\r\n" ∷ "Content-length: 114\r\n" ∷ "Cache-Control: no-cache\r\n"
    ∷ "Content-Type: text/html\r\n" ∷ "\r\n"
    ∷ "<html><body><h1>410 Gone</h1>\nThe resource is no longer available and will not be available again.\n</body></html>\n"
    ∷ [])
err_msg err_411 = joined (
    "HTTP/1.1 411 Length Required\r\n" ∷ "Content-length: 199\r\n" ∷ "Cache-Control: no-cache\r\n"
    ∷ "Content-Type: text/html\r\n" ∷ "\r\n"
    ∷ "<html><body><h1>411 Length Required</h1>\nThe Content-Length header is omitted and at the beginning of each chunk you need to add the length of the current chunk in hexadecimal format.\n</body></html>\n"
    ∷ [])
err_msg err_413 = joined (
    "HTTP/1.1 413 Payload Too Large\r\n" ∷ "Content-length: 106\r\n" ∷ "Cache-Control: no-cache\r\n"
    ∷ "Content-Type: text/html\r\n" ∷ "\r\n"
    ∷ "<html><body><h1>413 Payload Too Large</h1>\nThe request entity exceeds the maximum allowed.\n</body></html>\n"
    ∷ [])
err_msg err_414 = joined (
    "HTTP/1.1 414 Request-URI Too Long\r\n" ∷ "Content-length: 132\r\n"
    ∷ "Cache-Control: no-cache\r\n" ∷ "Content-Type: text/html\r\n" ∷ "\r\n"
    ∷ "<html><body><h1>414 Request-URI Too Long</h1>\nThe requested URL's length exceeds the capacity limit for this server.\n</body></html>\n"
    ∷ [])
err_msg err_421 = joined (
    "HTTP/1.1 421 Misdirected Request\r\n" ∷ "Content-length: 104\r\n"
    ∷ "Cache-Control: no-cache\r\n" ∷ "Content-Type: text/html\r\n" ∷ "\r\n"
    ∷ "<html><body><h1>421 Misdirected Request</h1>\nRequest sent to a non-authoritative server.\n</body></html>\n"
    ∷ [])
err_msg err_422 = joined (
    "HTTP/1.1 422 Unprocessable Content\r\n" ∷ "Content-length: 116\r\n"
    ∷ "Cache-Control: no-cache\r\n" ∷ "Content-Type: text/html\r\n" ∷ "\r\n"
    ∷ "<html><body><h1>422 Unprocessable Content</h1>\nThe server cannot process the contained instructions.\n</body></html>\n"
    ∷ [])
err_msg err_425 = joined (
    "HTTP/1.1 425 Too Early\r\n" ∷ "Content-length: 80\r\n" ∷ "Cache-Control: no-cache\r\n"
    ∷ "Content-Type: text/html\r\n" ∷ "\r\n"
    ∷ "<html><body><h1>425 Too Early</h1>\nYour browser sent early data.\n</body></html>\n" ∷ [])
err_msg err_429 = joined (
    "HTTP/1.1 429 Too Many Requests\r\n" ∷ "Content-length: 117\r\n" ∷ "Cache-Control: no-cache\r\n"
    ∷ "Content-Type: text/html\r\n" ∷ "\r\n"
    ∷ "<html><body><h1>429 Too Many Requests</h1>\nYou have sent too many requests in a given amount of time.\n</body></html>\n"
    ∷ [])
err_msg err_500 = joined (
    "HTTP/1.1 500 Internal Server Error\r\n" ∷ "Content-length: 97\r\n"
    ∷ "Cache-Control: no-cache\r\n" ∷ "Content-Type: text/html\r\n" ∷ "\r\n"
    ∷ "<html><body><h1>500 Internal Server Error</h1>\nAn internal server error occurred.\n</body></html>\n"
    ∷ [])
err_msg err_501 = joined (
    "HTTP/1.1 501 Not Implemented\r\n" ∷ "Content-length: 136\r\n" ∷ "Cache-Control: no-cache\r\n"
    ∷ "Content-Type: text/html\r\n" ∷ "\r\n"
    ∷ "<html><body><h1>501 Not Implemented</h1>\n.The server does not support the functionality required to fulfill the request.\n</body></html>\n"
    ∷ [])
err_msg err_502 = joined (
    "HTTP/1.1 502 Bad Gateway\r\n" ∷ "Content-length: 107\r\n" ∷ "Cache-Control: no-cache\r\n"
    ∷ "Content-Type: text/html\r\n" ∷ "\r\n"
    ∷ "<html><body><h1>502 Bad Gateway</h1>\nThe server returned an invalid or incomplete response.\n</body></html>\n"
    ∷ [])
err_msg err_503 = joined (
    "HTTP/1.1 503 Service Unavailable\r\n" ∷ "Content-length: 107\r\n"
    ∷ "Cache-Control: no-cache\r\n" ∷ "Content-Type: text/html\r\n" ∷ "\r\n"
    ∷ "<html><body><h1>503 Service Unavailable</h1>\nNo server is available to handle this request.\n</body></html>\n"
    ∷ [])
err_msg err_504 = joined (
    "HTTP/1.1 504 Gateway Time-out\r\n" ∷ "Content-length: 92\r\n" ∷ "Cache-Control: no-cache\r\n"
    ∷ "Content-Type: text/html\r\n" ∷ "\r\n"
    ∷ "<html><body><h1>504 Gateway Time-out</h1>\nThe server didn't respond in time.\n</body></html>\n"
    ∷ [])
err_msg err_505 = joined (
    "HTTP/1.1 505 HTTP Version Not Supported\r\n" ∷ "Content-length: 67\r\n"
    ∷ "Cache-Control: no-cache\r\n" ∷ "Content-Type: text/html\r\n" ∷ "\r\n"
    ∷ "<html><body><h1>505 HTTP Version Not Supported</h1>\n</body></html>\n" ∷ [])
