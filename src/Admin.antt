-- ===== src/Admin.antt =====
-- src/admin.h and src/admin.cpp: the administrator's connection. It is a state record: the apps that its
-- commands change, the signals it sends, and the texts it has passed to `send`. JSON objects are
-- association lists with the last assignment first; printing one is the JSON library's.
pub mod Query
pub mod Commands
pub mod Requests
pub mod Reply
mod Tests
use niubix.Base.{
  ℕ, zero, suc, ◌+◌, ◌-◌, ◌/◌, ◌%◌, Bool, true, false, List, [], ◌∷◌, ◌++◌, if◌then◌else◌, ltb, leb,
  length, take, same_bytes, codes,
}
use niubix.Base.Int.{ℤ, pos}
use niubix.App.{Backend}
use niubix.Http.Replies.{HttpErr, err_code}

-- What an app has that the commands read.
pub record App : Type 0 where
  pub name : List ℕ
  pub backends : List Backend

pub data Value : Type 0 where
  number : ℤ → Value
  text : List ℕ → Value

abbrev pub Json : Type 0
Json = List (List ℕ × Value)

-- `dump` is the JSON library's; the rest are settings: the version of the configuration, the white list of
-- addresses, and the size of the worker's buffer.
pub record Env : Type 0 where
  pub dump : Json → List ℕ
  pub version : List ℕ
  pub admin_ip_white_set : List (List ℕ)
  pub wio_buf_size : ℕ

-- `reloads` counts the signals that `reload` sends, `shutdowns` the calls of `let_worker_shutdown`.
pub record Admin : Type 0 where
  pub remote_addr : List ℕ
  pub alls : List App
  pub reloads : ℕ
  pub shutdowns : ℕ
  pub sent : List (List ℕ)

-- "%lu"; a number has at most as many digits as its value, and one.
pub digits : ℕ → ℕ → List ℕ
digits zero n = []
digits (suc k) n =
    let rest = digits k (n / 10) in if ltb n 10 then (48 + n) ∷ [] else rest ++ (48 + n % 10) ∷ []

unfoldable pub decimal : ℕ → List ℕ
decimal n = digits (suc n) n

-- What `snprintf` would print.
unfoldable pub reply_text : List ℕ → List ℕ
reply_text body =
    codes "HTTP/1.1 200 OK\r\nContent-length: "
    ++ (decimal (length body) ++ (codes "\r\nContent-Type: application/json\r\n\r\n" ++ body))

-- `snprintf` keeps one byte of the buffer for its NUL.
unfoldable pub response_json : Env → Json → Admin → Admin
response_json env resp s =
    let reply = reply_text (env.dump resp) in
    let kept =
      if leb env.wio_buf_size (length reply) then take (env.wio_buf_size - 1) reply else reply in
    record s { sent = s.sent ++ kept ∷ [] }

unfoldable pub response_error : Env → HttpErr → List ℕ → Admin → Admin
response_error env code msg =
    response_json env
      ((codes "msg", Value.text msg) ∷ (codes "code", Value.number (pos (err_code code))) ∷ [])

-- `std::set::count`.
unfoldable pub is_in : List ℕ → List (List ℕ) → Bool
is_in addr [] = false
is_in addr (a ∷ addrs) = let rest = is_in addr addrs in if same_bytes a addr then true else rest

-- `add_ok`: `add_ev` succeeds.
unfoldable pub on_open : Env → Bool → Admin → Bool × Admin
on_open env add_ok s =
    let refused : Bool × Admin =
      (false, response_error env HttpErr.err_403 (codes "Forbidden") s) in
    elim env.admin_ip_white_set as (λ _. Bool × Admin) [
      | [] ↦ (add_ok, s)
      | a ∷ addrs ↦ if is_in s.remote_addr (a ∷ addrs) then (add_ok, s) else refused
    ]
