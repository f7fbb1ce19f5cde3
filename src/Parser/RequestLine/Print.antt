-- ===== src/Parser/RequestLine/Print.antt =====
-- src/http_parser.cpp, `parse_request_line` on the request lines that a client writes.
use niubix.Base.{
  ℕ, zero, suc, ◌+◌, ◌-◌, ◌≤◌, ◌<◌, List, [], ◌∷◌, ◌++◌, some, ◌≡◌, ◌≢◌, refl, ◌∙◌, ap, drop,
  length, replicate, ge→ltb, add_suc, ne→==_false,
}
use niubix.Base.Int.{ℤ, pos, ◌+ℤ◌}
use niubix.Parser.{Method, Ret, Parser, index}
use niubix.Parser.RequestLine.{
  Line, LineState, line_loop, line_next, line_go, line_step, method_of, end_method,
  parse_request_line,
}
use native.Mathlib.Omega.{arith}
use native.Mathlib.Numerals.{unary_clauses}

abbrev pub name : Method → List ℕ
name Method.http_unknown = []
name Method.http_get = 71 ∷ 69 ∷ 84 ∷ []
name Method.http_post = 80 ∷ 79 ∷ 83 ∷ 84 ∷ []
name Method.http_put = 80 ∷ 85 ∷ 84 ∷ []
name Method.http_delete = 68 ∷ 69 ∷ 76 ∷ 69 ∷ 84 ∷ 69 ∷ []
name Method.http_head = 72 ∷ 69 ∷ 65 ∷ 68 ∷ []

abbrev line_in : LineState → ℕ → ℤ → Parser → Line
line_in st i mv p = record { state = st; space_before_uri_pos = i; mv = mv; parser = p }

add-sub_cancel : (a b : ℕ) → a + b - a ≡ b
add-sub_cancel a b = omega arith

-- The sum of the characters of a method's name.
abbrev sum_of : Method → ℕ
sum_of Method.http_unknown = 0
sum_of Method.http_get = 224
sum_of Method.http_post = 326
sum_of Method.http_put = 249
sum_of Method.http_delete = 435
sum_of Method.http_head = 274

method_lem :
    (m : Method) (rest : List ℕ) (i : ℕ) (p : Parser)
    → m ≢ Method.http_unknown
    → line_loop (name m ++ 32 ∷ rest) i (line_in LineState.st_start 0 (pos 0) p)
      ≡ line_loop rest (suc (i + length (name m))) (
          line_in LineState.st_spaces_before_uri
            (i + length (name m))
            (pos (sum_of m))
            (record p { method = m; req_start = some i }))
unfolding line_loop line_next line_go line_step method_of end_method ◌+ℤ◌
method_lem Method.http_unknown rest i p h = absurd (h refl)
method_lem Method.http_get rest i p h = simp unary_clauses refl
method_lem Method.http_post rest i p h = simp unary_clauses refl
method_lem Method.http_put rest i p h = simp unary_clauses refl
method_lem Method.http_delete rest i p h = simp unary_clauses refl
method_lem Method.http_head rest i p h = simp unary_clauses refl

spaces_lem :
    (n : ℕ) (rest : List ℕ) (i sp : ℕ) (z : ℤ) (p : Parser)
    → i + n ≤ sp + 9
    → line_loop (replicate n 32 ++ 47 ∷ rest) i (line_in LineState.st_spaces_before_uri sp z p)
      ≡ line_loop rest
          (suc (i + n))
          (line_in LineState.st_after_slash_in_uri sp z (record p { uri_start = some (i + n) }))
unfolding line_loop line_next line_go line_step
spaces_lem zero rest i sp z p h = simp unary_clauses refl
spaces_lem (suc n) rest i sp z p h =
    rw (ge→ltb 8 (i - sp) (omega (arith, h)), add_suc i n)
      (spaces_lem n rest (suc i) sp z p (omega (arith, h)))

-- A character of a URI is neither a space nor a carriage return.
abbrev pub IsUri : List ℕ → Type 0
IsUri [] = Unit {0}
IsUri (c ∷ cs) = (c ≢ 32) × (c ≢ 13) × IsUri cs

uri_lem :
    (cs rest : List ℕ) (i sp : ℕ) (z : ℤ) (p : Parser)
    → IsUri cs
    → i + length cs ≤ index p.uri_start + 2049
    → line_loop (cs ++ 32 ∷ rest) i (line_in LineState.st_after_slash_in_uri sp z p)
      ≡ line_loop rest
          (suc (i + length cs))
          (line_in LineState.st_http_09 sp z (record p { uri_end = some (i + length cs) }))
unfolding line_loop line_next line_go line_step
uri_lem [] rest i sp z p c h = simp unary_clauses refl
uri_lem (c ∷ cs) rest i sp z p (n32, n13, all) h =
    rw
      (
        ne→==_false c 32 n32,
        ne→==_false c 13 n13,
        ge→ltb 2048 (i - index p.uri_start) (omega (arith, h)),
        add_suc i (length cs),
      )
      (uri_lem cs rest (suc i) sp z p all (omega (arith, h)))

spaces_after_lem :
    (n : ℕ) (rest : List ℕ) (i sp : ℕ) (z : ℤ) (p : Parser)
    → i + n ≤ index p.uri_end + 9
    → line_loop (replicate n 32 ++ 72 ∷ rest) i (line_in LineState.st_http_09 sp z p)
      ≡ line_loop rest (suc (i + n)) (line_in LineState.st_http_h sp z p)
unfolding line_loop line_next line_go line_step
spaces_after_lem zero rest i sp z p h = simp unary_clauses refl
spaces_after_lem (suc n) rest i sp z p h =
    rw (ge→ltb 8 (i - index p.uri_end) (omega (arith, h)), add_suc i n)
      (spaces_after_lem n rest (suc i) sp z p (omega (arith, h)))

-- What follows `H`.
abbrev version : ℕ → ℕ → List ℕ → List ℕ
version major minor rest = 84 ∷ 84 ∷ 80 ∷ 47 ∷ (48 + major) ∷ 46 ∷ (48 + minor) ∷ 13 ∷ 10 ∷ rest

version_lem :
    (major minor : ℕ) (rest : List ℕ) (i sp : ℕ) (z : ℤ) (p : Parser)
    → 0 < major
    → major < 3
    → minor < 10
    → line_loop (version major minor rest) i (line_in LineState.st_http_h sp z p)
      ≡ (Ret.parse_ok, record p { http_major = major; http_minor = minor; start = i + 9 })
unfolding line_loop line_next line_go line_step
version_lem major minor rest i sp z p a b c =
    rw
      (
        ge→ltb (48 + major) 49 (omega (arith, a)),
        ge→ltb 57 (48 + major) (omega (arith, b)),
        add-sub_cancel 48 major,
        ge→ltb 2 major (omega (arith, b)),
        ge→ltb (48 + minor) 48 (omega arith),
        ge→ltb 57 (48 + minor) (omega (arith, c)),
        add-sub_cancel 48 minor,
      )
      (ap (λ j. (Ret.parse_ok, record p { http_major = major; http_minor = minor; start = j }))
        (omega arith))

-- The parts of a request line: the method, the spaces behind the one that ends it, the URI behind
-- its slash, the spaces behind the one that ends it, and the version.
pub record Request : Type 0 where
  pub method : Method
  pub spaces : ℕ
  pub path : List ℕ
  pub spaces_after : ℕ
  pub major : ℕ
  pub minor : ℕ

-- The line, in front of what follows it.
abbrev pub print : Request → List ℕ → List ℕ
print r rest =
    name r.method
    ++ 32
      ∷ (replicate r.spaces 32
          ++ 47
            ∷ (r.path ++ 32 ∷ (replicate r.spaces_after 32 ++ 72 ∷ version r.major r.minor rest)))

pub record IsRequest (r : Request) : Type 0 where
  pub known : r.method ≢ Method.http_unknown
  pub spaces : r.spaces ≤ 8
  pub path : IsUri r.path
  pub path_len : length r.path ≤ 2048
  pub spaces_after : r.spaces_after ≤ 8
  pub major : 0 < r.major
  pub major_le : r.major < 3
  pub minor : r.minor < 10

-- Where the URI starts and ends in a line that starts at `i`.
abbrev pub uri_at : Request → ℕ → ℕ
uri_at r i = suc (i + length (name r.method)) + r.spaces

abbrev pub uri_end_at : Request → ℕ → ℕ
uri_end_at r i = suc (uri_at r i) + length r.path

-- If the buffer holds a request line with a known method, at most eight spaces more than needed in
-- either place, a URI of at most 2048 characters behind its slash and a version of two digits, then
-- `parse_request_line` accepts it whatever follows: it records the method, the version, and where
-- the line and its URI start and end, and stops behind the line.
pub parse-print :
    (buf rest : List ℕ) (p : Parser) (r : Request)
    → IsRequest r
    → drop p.start buf ≡ print r rest
    → parse_request_line buf p ≡ (
      Ret.parse_ok,
      record p {
        http_major = r.major;
        http_minor = r.minor;
        method = r.method;
        start = uri_end_at r p.start + r.spaces_after + 11;
        req_start = some p.start;
        uri_start = some (uri_at r p.start);
        uri_end = some (uri_end_at r p.start);
      },
    )
unfolding parse_request_line
parse-print buf rest p r ok h =
    let i = p.start in
    let p1 = record p { method = r.method; req_start = some i } in
    let p2 = record p1 { uri_start = some (uri_at r i) } in
    let p3 = record p2 { uri_end = some (uri_end_at r i) } in
    let z = pos (sum_of r.method) in
    let sp = i + length (name r.method) in
    ap (λ cs. line_loop cs i (line_in LineState.st_start 0 (pos 0) p)) h
    ∙ method_lem r.method _ i p ok.known
    ∙ spaces_lem r.spaces _ (suc sp) sp z p1 (omega (arith, ok.spaces))
    ∙ uri_lem r.path _ (suc (uri_at r i)) sp z p2 ok.path (omega (arith, ok.path_len))
    ∙ spaces_after_lem r.spaces_after _ (suc (uri_end_at r i)) sp z p3
        (omega (arith, ok.spaces_after))
    ∙ version_lem r.major r.minor rest _ sp z p3 ok.major ok.major_le ok.minor
    ∙ ap (λ j. (Ret.parse_ok, record p3 { http_major = r.major; http_minor = r.minor; start = j }))
        (omega arith)
