-- ===== src/Parser/Uri/Print.antt =====
-- src/http_parser.cpp, `parse_uri` on URIs with a query.
use niubix.Base.{
  ℕ, suc, ◌+◌, ◌-◌, List, [], ◌∷◌, ◌++◌, none, some, ◌==◌, ◌≡◌, refl, ◌∙◌, false, drop, take,
  length, add_suc,
}
use niubix.Parser.{Ret, Parser, index}
use niubix.Parser.Uri.{Uri, UriState, uri_loop, uri_next, uri_go, uri_step, end_query, parse_uri}
use native.Mathlib.Numerals.{unary_clauses}

-- Characters none of which is the given one.
abbrev pub IsFree : ℕ → List ℕ → Type 0
IsFree stop [] = Unit {0}
IsFree stop (c ∷ cs) = ((c == stop) ≡ false) × IsFree stop cs

path_lem :
    (cs rest : List ℕ) (i : ℕ) (u : Uri)
    → IsFree 63 cs
    → uri_loop (cs ++ 63 ∷ rest) i UriState.st_path u
      ≡ uri_loop rest
          (suc (i + length cs))
          UriState.st_query
          (record u { path_end = some (i + length cs) })
unfolding uri_loop uri_next uri_go uri_step
path_lem [] rest i u h = simp unary_clauses refl
path_lem (c ∷ cs) rest i u (e, h) = rw (e, add_suc i (length cs)) (path_lem cs rest (suc i) u h)

fragment_lem :
    (cs rest : List ℕ) (i s : ℕ) (u : Uri)
    → IsFree 35 cs
    → u.query_start ≡ some s
    → uri_loop (cs ++ 35 ∷ rest) i UriState.st_check_fragment u
      ≡ (Ret.http_err_200, record u { query_end = some (i + length cs) })
unfolding uri_loop uri_next uri_go uri_step end_query
fragment_lem [] rest i s u h q = simp (q, unary_clauses) refl
fragment_lem (c ∷ cs) rest i s u (e, h) q =
    rw (e, add_suc i (length cs)) (fragment_lem cs rest (suc i) s u h q)

no_fragment_lem :
    (cs : List ℕ) (i s : ℕ) (u : Uri)
    → IsFree 35 cs
    → u.query_start ≡ some s
    → u.query_end ≡ none
    → uri_loop cs i UriState.st_check_fragment u
      ≡ (Ret.http_err_200, record u { query_end = some (i + length cs + 1) })
unfolding uri_loop uri_next uri_go uri_step end_query
no_fragment_lem [] i s u h q z = simp (q, z, unary_clauses) refl
no_fragment_lem (c ∷ cs) i s u (e, h) q z =
    rw (e, add_suc i (length cs)) (no_fragment_lem cs (suc i) s u h q z)

query_lem :
    (q : ℕ) (rest : List ℕ) (i : ℕ) (u : Uri)
    → (q == 35) ≡ false
    → uri_loop (q ∷ rest) i UriState.st_query u
      ≡ uri_loop rest (suc i) UriState.st_check_fragment (record u { query_start = some i })
unfolding uri_loop uri_next uri_go uri_step
query_lem q rest i u b = rw b refl

-- The characters of the URI.
abbrev pub uri_of : List ℕ → Parser → List ℕ
uri_of buf p = take (index p.uri_end - index p.uri_start) (drop (index p.uri_start) buf)

-- In a URI `/path?query#fragment`, whose query is not empty, `parse_uri` finds the end of the path,
-- and the start and the end of the query.
pub parse_uri-fragment :
    (buf path : List ℕ) (q : ℕ) (query fragment : List ℕ) (p : Parser) (u : Uri)
    → IsFree 63 path
    → IsFree 35 (q ∷ query)
    → uri_of buf p ≡ 47 ∷ (path ++ 63 ∷ q ∷ (query ++ 35 ∷ fragment))
    → let path_end = index p.uri_start + 1 + length path in
      parse_uri buf p u ≡ (
        Ret.http_err_200,
        record {
          path_end = some path_end;
          query_start = some (path_end + 1);
          query_end = some (path_end + 2 + length query);
        },
      )
unfolding parse_uri uri_loop uri_next uri_go uri_step
parse_uri-fragment buf path q query fragment p u a (b, c) e =
    let s = index p.uri_start in
    let n = suc s + length path in
    let u0 = record u { path_end = none; query_start = none } in
    let u1 = record u0 { path_end = some n } in
    rw e (
      path_lem path (q ∷ (query ++ 35 ∷ fragment)) (suc s) u0 a
      ∙ query_lem q (query ++ 35 ∷ fragment) (suc n) u1 b
      ∙ fragment_lem query fragment (suc (suc n)) (suc n) (record u1 { query_start = some (suc n) })
          c refl
      ∙ simp unary_clauses refl)

-- In a URI `/path?query` without a fragment, whose query is not empty, when the caller has no
-- `query_end` yet, the `query_end` that `parse_uri` gives is one past the end of the query.
pub parse_uri-no_fragment :
    (buf path : List ℕ) (q : ℕ) (query : List ℕ) (p : Parser) (u : Uri)
    → IsFree 63 path
    → IsFree 35 (q ∷ query)
    → u.query_end ≡ none
    → uri_of buf p ≡ 47 ∷ (path ++ 63 ∷ q ∷ query)
    → let path_end = index p.uri_start + 1 + length path in
      parse_uri buf p u ≡ (
        Ret.http_err_200,
        record {
          path_end = some path_end;
          query_start = some (path_end + 1);
          query_end = some (path_end + 2 + length query + 1);
        },
      )
unfolding parse_uri uri_loop uri_next uri_go uri_step
parse_uri-no_fragment buf path q query p u a (b, c) z e =
    let s = index p.uri_start in
    let n = suc s + length path in
    let u0 = record u { path_end = none; query_start = none } in
    let u1 = record u0 { path_end = some n } in
    rw e (
      path_lem path (q ∷ query) (suc s) u0 a
      ∙ query_lem q query (suc n) u1 b
      ∙ no_fragment_lem query (suc (suc n)) (suc n) (record u1 { query_start = some (suc n) }) c
          refl z
      ∙ simp unary_clauses refl)
