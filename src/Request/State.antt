-- ===== src/Request/State.antt =====
-- The members of `http_frontend` that the handling of a request uses, and its smaller methods.
use niubix.Base.{
  ℕ, ◌+◌, ◌-◌, ◌^◌, Bool, true, false, List, [], ◌∷◌, ◌++◌, Option, none, some, leb, if◌then◌else◌,
  drop, take,
}
use niubix.Parser.{Ret}

-- The two settings of `app::conf` that the code reads.
pub record Conf : Type 0 where
  pub with_x_real_ip : Bool
  pub with_x_forwarded_for : Bool

-- An error that is answered: one of the parser's, or HTTP_ERR_411 or HTTP_ERR_501.
pub data Err : Type 0 where
  parser_err : Ret → Err
  http_err_411 http_err_501 : Err

-- Buffers are lists of bytes, with their length. `has_backend` is `backend_conn != nullptr`;
-- `forwarded` is what was passed to the backend's `send`, and `responses` the errors that were sent to
-- the client. `range_error` is `errno == ERANGE`.
pub record Frontend : Type 0 where
  pub partial_buf : List ℕ
  pub content_length : ℕ
  pub matched_app : Option Conf
  pub host : Option (List ℕ)
  pub received_data_before_match_app : List ℕ
  pub local_addr : List ℕ
  pub remote_addr : List ℕ
  pub has_backend : Bool
  pub range_error : Bool
  pub forwarded : List ℕ
  pub responses : List Err

-- `parse_req_result`.
pub record ParseReqResult : Type 0 where
  pub x_real_ip_exist : Bool
  pub xff_start : Option ℕ
  pub xff_end : Option ℕ
  pub payload : Option ℕ
  pub payload_len : ℕ

abbrev pub no_result : ParseReqResult
no_result = record {
  x_real_ip_exist = false;
  xff_start = none;
  xff_end = none;
  payload = none;
  payload_len = 0;
}

-- The bytes between two pointers.
abbrev pub slice : List ℕ → ℕ → ℕ → List ℕ
slice buf from to = take (to - from) (drop from buf)

abbrev pub is_null : {A : Type 0} → Option A → Bool
is_null o = elim o as (λ _. Bool) [ none ↦ true | some a ↦ false ]

abbrev pub is_empty : List ℕ → Bool
is_empty bytes = elim bytes as (λ _. Bool) [ [] ↦ true | b ∷ bs ↦ false ]

-- `x - y` of `uint64_t`.
unfoldable pub sub_64 : ℕ → ℕ → ℕ
sub_64 x y = if leb y x then x - y else x + 2 ^ 64 - y

unfoldable pub forward_to_backend : List ℕ → Frontend → Frontend
forward_to_backend bytes s =
    if s.has_backend then record s { forwarded = s.forwarded ++ bytes } else s

-- It returns false, so that the poller closes the connection.
unfoldable pub response_err_and_close : Err → Frontend → Bool × Frontend
response_err_and_close err s = (false, record s { responses = s.responses ++ err ∷ [] })

unfoldable pub handle_partial_req : List ℕ → Frontend → Frontend
handle_partial_req bytes s = if is_empty s.partial_buf then record s { partial_buf = bytes } else s

unfoldable pub save_received_data_before_match_app : List ℕ → Frontend → Frontend
save_received_data_before_match_app bytes s =
    if is_null s.matched_app
    then record s { received_data_before_match_app = s.received_data_before_match_app ++ bytes }
    else s
