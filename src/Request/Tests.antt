-- ===== src/Request/Tests.antt =====
-- Requests on which the frontend runs.
use niubix.Base.{ℕ, ◌≡◌, ◌≤◌, refl, true, false, List, [], ◌∷◌, ◌++◌, none, some, length}
use niubix.Parser.{Parser, new_parser}
use niubix.Request.State.{Conf, Frontend, ParseReqResult, no_result, sub_64}
use niubix.Request.Complete.{
  a_complete_req, complete_for, forward_req, with_forwarded_for, with_real_ip, the_hbuf, crlf,
  hbuf_size, payload_of,
}
use niubix.Request.Handle.{Env, null_host, Outcome, undefined, to_match_app_by_host, handle_data}
use niubix.Request.Ends.{Returns, handle_data_ends}
use niubix.Request.Body.{receive, receive-body, passed}
use niubix.Request.Partial.{Buffers, handle_data-partial}
use niubix.Request.Rewrite.{added, new_real_ip, cut_short, complete-forwards}
use niubix.Request.Room.{hbuf-fits}
use native.Mathlib.Omega.{arith}

abbrev conf : Conf
conf = record { with_x_real_ip = true; with_x_forwarded_for = true }

abbrev env : Env
env = record { match_app_by_host = λ host. some conf; connects = true; beyond = 0 }

-- A frontend whose backend is connected.
abbrev active : Frontend
active = record {
  partial_buf = [];
  content_length = 3;
  matched_app = some conf;
  host = some (97 ∷ []);
  received_data_before_match_app = [];
  local_addr = 49 ∷ [];
  remote_addr = 50 ∷ [];
  has_backend = true;
  range_error = false;
  forwarded = [];
  responses = [];
}

receive-body_example :
    receive env ((1 ∷ 2 ∷ []) ∷ (3 ∷ []) ∷ []) active ≡ some (passed (1 ∷ 2 ∷ 3 ∷ []) active)
receive-body_example =
    receive-body env ((1 ∷ 2 ∷ []) ∷ (3 ∷ []) ∷ []) active refl refl
      (omega arith, (omega arith, tt)) (omega arith)

-- `GET / HTTP/1.1` without its line end, which comes next.
abbrev get_line : List ℕ
get_line = 71 ∷ 69 ∷ 84 ∷ 32 ∷ 47 ∷ 32 ∷ 72 ∷ 84 ∷ 84 ∷ 80 ∷ 47 ∷ 49 ∷ 46 ∷ 49 ∷ []

abbrev kept : Frontend
kept = record active { partial_buf = get_line; content_length = 0 }

handle_data_ends_example :
    (r : Outcome) × (handle_data env get_line active ≡ some r) × Returns active r
handle_data_ends_example = handle_data_ends env get_line active

handle_data-partial_example :
    (r : Outcome) × (handle_data env (13 ∷ 10 ∷ 13 ∷ 10 ∷ []) kept ≡ some r)
    × Buffers (get_line ++ 13 ∷ 10 ∷ 13 ∷ 10 ∷ []) kept r
handle_data-partial_example = handle_data-partial env (13 ∷ 10 ∷ 13 ∷ 10 ∷ []) kept refl

-- No header was taken for the host.
no_host : to_match_app_by_host env (record active { host = none }) ≡ undefined null_host
unfolding to_match_app_by_host
no_host = refl

-- A header of the bytes 1 to 4, with its line ends, and a payload of two bytes.
abbrev lines : List ℕ
lines = 1 ∷ 2 ∷ 13 ∷ 10 ∷ []

abbrev behind : List ℕ
behind = 13 ∷ 10 ∷ 7 ∷ 8 ∷ []

abbrev buf : List ℕ
buf = [] ++ (lines ++ behind)

abbrev parsed : Parser
parsed = record (new_parser 6) { req_start = some 0; req_end = some 4; req_end_with_crlf = some 6 }

-- The first two bytes are those up to the end of its `X-Forwarded-For`.
abbrev result : ParseReqResult
result = record no_result {
  payload = some 6;
  payload_len = 2;
  xff_start = some 0;
  xff_end = some 2;
}

abbrev rewritten : List ℕ
rewritten = (1 ∷ 2 ∷ []) ++ added (44 ∷ 32 ∷ []) active.local_addr

complete-forwards_example :
    a_complete_req buf parsed result active
    ≡ some (record active {
      forwarded =
          active.forwarded
          ++ (((rewritten ++ new_real_ip result active conf) ++ crlf) ++ payload_of buf result);
      content_length = sub_64 active.content_length (length (payload_of buf result));
    })
complete-forwards_example =
    complete-forwards [] lines behind rewritten parsed result active conf refl refl
      (cut_short (1 ∷ 2 ∷ []) (13 ∷ 10 ∷ []) refl refl refl refl) refl refl refl

-- The `X-Forwarded-For` has no value, nor has a header before it.
bad_length : a_complete_req buf parsed (record result { xff_end = none }) active ≡ none
unfolding a_complete_req complete_for forward_req with_forwarded_for
bad_length = refl

abbrev in_hbuf : List ℕ
in_hbuf = rewritten ++ new_real_ip result active conf

in_hbuf-is : the_hbuf buf parsed result active conf ≡ some in_hbuf
unfolding with_forwarded_for with_real_ip
in_hbuf-is = refl

hbuf-fits_example : length (in_hbuf ++ crlf) ≤ hbuf_size
hbuf-fits_example =
    hbuf-fits buf parsed result active conf in_hbuf (omega arith) (omega arith) (omega arith)
      (omega arith) in_hbuf-is
