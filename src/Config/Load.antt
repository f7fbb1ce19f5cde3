-- ===== src/Config/Load.antt =====
-- `app::load_conf`, in the order of its checks.
use niubix.Base.{
  ℕ, ◌==◌, Bool, true, false, not, ◌&&◌, ◌||◌, List, [], ◌∷◌, Option, none, some, ltb,
  if◌then◌else◌, length, same_bytes,
}
use niubix.Base.Int.{ℤ, pos, ltb_ℤ, ◌+ℤ◌}
use niubix.Config.Addr.{parse_v4_addr}

pub data Protocol : Type 0 where
  http_protocol https_protocol tcp_protocol : Protocol

pub data Policy : Type 0 where
  roundrobin random iphash : Policy

pub record BackendJson : Type 0 where
  pub weight : ℤ
  pub down : Bool
  pub host : List ℕ
  pub health_check_period : ℤ
  pub health_check_timeout : ℤ
  pub health_check_uri : List ℕ

-- `backends` is empty when the value is not an array.
pub record AppJson : Type 0 where
  pub name : List ℕ
  pub listen : List ℕ
  pub protocol : List ℕ
  pub http_host : List ℕ
  pub balance_policy : List ℕ
  pub connect_backend_timeout : ℤ
  pub frontend_a_complete_req_timeout : ℤ
  pub frontend_idle_timeout : ℤ
  pub x_forwarded_for : Bool
  pub x_real_ip : Bool
  pub backend_protocol : List ℕ
  pub backends : List BackendJson

-- `app::backend` as it is configured.
pub record BackendConf : Type 0 where
  pub weight : ℤ
  pub down : Bool
  pub host : List ℕ
  pub health_check_period : ℤ
  pub health_check_timeout : ℤ
  pub health_check_uri : List ℕ

pub record AppConf : Type 0 where
  pub name : List ℕ
  pub listen : List ℕ
  pub protocol : Protocol
  pub http_host : List ℕ
  pub is_default : Bool
  pub balance_policy : Policy
  pub connect_backend_timeout : ℤ
  pub frontend_a_complete_req_timeout : ℤ
  pub frontend_idle_timeout : ℤ
  pub with_x_forwarded_for : Bool
  pub with_x_real_ip : Bool
  pub backend_protocol : Protocol
  pub backend_list : List BackendConf

-- The sets and maps of the function, newest entry first, and the members `alls` and `app_map_by_port`,
-- in the order of their vectors.
pub record Loaded : Type 0 where
  pub names : List (List ℕ)
  pub hosts : List (List ℕ)
  pub default_apps : List ℤ
  pub bound : List (ℤ × List ℕ)
  pub listen_set : List (List ℕ × Protocol)
  pub alls : List AppConf
  pub app_map_by_port : ℤ → List AppConf

abbrev pub empty_conf : Loaded
empty_conf = record {
  names = [];
  hosts = [];
  default_apps = [];
  bound = [];
  listen_set = [];
  alls = [];
  app_map_by_port = λ port. [];
}

unfoldable pub has : List ℕ → List (List ℕ) → Bool
has s [] = false
has s (t ∷ ts) = same_bytes s t || has s ts

abbrev pub same_ℤ : ℤ → ℤ → Bool
same_ℤ a b = not (ltb_ℤ a b) && not (ltb_ℤ b a)

unfoldable pub has_port : ℤ → List ℤ → Bool
has_port p [] = false
has_port p (q ∷ ports) = same_ℤ p q || has_port p ports

-- `port_bind_protocol_map[port]`, empty for a new port.
unfoldable pub bound_to : ℤ → List (ℤ × List ℕ) → List ℕ
bound_to p [] = []
bound_to p ((q, s) ∷ rest) = let others = bound_to p rest in if same_ℤ p q then s else others

-- `http`, `https`, `tcp`, `roundrobin`, `random`, `iphash` and `default`.
abbrev pub http_text : List ℕ
http_text = 104 ∷ 116 ∷ 116 ∷ 112 ∷ []

abbrev pub https_text : List ℕ
https_text = 104 ∷ 116 ∷ 116 ∷ 112 ∷ 115 ∷ []

abbrev pub tcp_text : List ℕ
tcp_text = 116 ∷ 99 ∷ 112 ∷ []

abbrev pub roundrobin_text : List ℕ
roundrobin_text = 114 ∷ 111 ∷ 117 ∷ 110 ∷ 100 ∷ 114 ∷ 111 ∷ 98 ∷ 105 ∷ 110 ∷ []

abbrev pub random_text : List ℕ
random_text = 114 ∷ 97 ∷ 110 ∷ 100 ∷ 111 ∷ 109 ∷ []

abbrev pub iphash_text : List ℕ
iphash_text = 105 ∷ 112 ∷ 104 ∷ 97 ∷ 115 ∷ 104 ∷ []

abbrev pub default_text : List ℕ
default_text = 100 ∷ 101 ∷ 102 ∷ 97 ∷ 117 ∷ 108 ∷ 116 ∷ []

unfoldable pub protocol_of : List ℕ → Option Protocol
protocol_of s =
    if same_bytes s http_text
    then some http_protocol
    else if same_bytes s https_text
    then some https_protocol
    else if same_bytes s tcp_text
    then some tcp_protocol
    else none

unfoldable pub parse_balance_policy : List ℕ → Option Policy
parse_balance_policy s =
    if same_bytes s roundrobin_text
    then some roundrobin
    else if same_bytes s random_text
    then some random
    else if same_bytes s iphash_text
    then some iphash
    else none

unfoldable pub backend_protocol_of : List ℕ → Option Protocol
backend_protocol_of s =
    if same_bytes s http_text
    then some http_protocol
    else if same_bytes s tcp_text
    then some tcp_protocol
    else none

abbrev pub is_http : Protocol → Bool
is_http Protocol.http_protocol = true
is_http _ = false

abbrev pub is_tcp : Protocol → Bool
is_tcp Protocol.tcp_protocol = true
is_tcp _ = false

abbrev pub is_roundrobin : Policy → Bool
is_roundrobin Policy.roundrobin = true
is_roundrobin _ = false

abbrev pub is_slash : List ℕ → Bool
is_slash s = elim s as (λ _. Bool) [ [] ↦ false | c ∷ chars ↦ c == 47 ]

abbrev pub below : ℤ → ℤ → Bool
below n x = ltb_ℤ x n

-- The checks of a health check: asked for by a positive period.
unfoldable pub good_check : Protocol → BackendJson → Bool
good_check protocol b =
    not (below (pos 1) b.health_check_timeout)
    && ltb 0 (length b.health_check_uri)
    && (not (is_http protocol)
        || (is_slash b.health_check_uri && not (ltb 512 (length b.health_check_uri))))

unfoldable pub good_backend : Policy → Protocol → BackendJson → Bool
good_backend policy protocol b =
    (not (is_roundrobin policy) || not (below (pos 0) b.weight))
    && (ltb 0 (length b.host) && parse_v4_addr b.host)
    && (not (ltb_ℤ (pos 0) b.health_check_period) || good_check protocol b)

-- A weight is read for round robin only, the other values of a check if there is one.
unfoldable pub backend_conf : Policy → BackendJson → BackendConf
backend_conf policy b =
    let checked = ltb_ℤ (pos 0) b.health_check_period in
    record {
      weight = if is_roundrobin policy then b.weight else pos 0;
      down = b.down;
      host = b.host;
      health_check_period = b.health_check_period;
      health_check_timeout = if checked then b.health_check_timeout else pos 0;
      health_check_uri = if checked then b.health_check_uri else [];
    }

-- The loop over the backends.
unfoldable pub push_backend : Option (List BackendConf) → BackendConf → Option (List BackendConf)
push_backend none b = none
push_backend (some bs) b = some (b ∷ bs)

unfoldable pub load_backends : Policy → Protocol → List BackendJson → Option (List BackendConf)
load_backends policy protocol [] = some []
load_backends policy protocol (b ∷ bs) =
    let rest = load_backends policy protocol bs in
    if good_backend policy protocol b then push_backend rest (backend_conf policy b) else none

unfoldable pub total_weight : List BackendConf → ℤ
total_weight [] = pos 0
total_weight (b ∷ bs) = b.weight +ℤ total_weight bs
