-- ===== src/Config/Apps.antt =====
-- `app::load_conf` for one app and for all.
use niubix.Base.{
  same_bytes, ℕ, Bool, false, not, ◌&&◌, ◌||◌, List, [], ◌∷◌, ◌++◌, Option, none, some, ltb,
  if◌then◌else◌, length,
}
use niubix.Base.Int.{ℤ, pos}
use niubix.Config.Addr.{parse_ip_port}
use niubix.Config.Load.{
  Protocol, Policy, BackendConf, AppJson, AppConf, Loaded, has, same_ℤ, has_port, bound_to,
  default_text, protocol_of, parse_balance_policy, backend_protocol_of, is_tcp, is_roundrobin,
  below, load_backends, total_weight,
}

-- A check that fails ends the function.
unfoldable pub and_then : {A B : Type 0} → Option A → (A → Option B) → Option B
and_then none f = none
and_then (some a) f = f a

unfoldable pub named : AppJson → Loaded → Option Loaded
named j l =
    if not (ltb 0 (length j.name)) || has j.name l.names
    then none
    else some (record l { names = j.name ∷ l.names })

unfoldable pub bind_port : AppJson → ℤ → Protocol → Loaded → Option Loaded
bind_port j port protocol l =
    if same_bytes (bound_to port l.bound) j.protocol
    then none
    else some (record l {
      bound = (port, j.protocol) ∷ l.bound;
      listen_set = (j.listen, protocol) ∷ l.listen_set;
    })

-- `http_host` and `is_default`; an app for TCP has no host.
unfoldable pub host_of : AppJson → ℤ → Protocol → Loaded → Option ((List ℕ × Bool) × Loaded)
host_of j port protocol l =
    let is_default = same_bytes j.http_host default_text in
    let host = if is_default then [] else j.http_host in
    let l' = if is_default then record l { default_apps = port ∷ l.default_apps } else l in
    if is_tcp protocol
    then some (([], false), l)
    else if not (ltb 0 (length j.http_host))
        || (is_default && has_port port l.default_apps)
        || has host l.hosts
    then none
    else some ((host, is_default), l')

unfoldable pub good_times : AppJson → Bool
good_times j =
    not (below (pos 1) j.connect_backend_timeout)
    && (not (below (pos 1) j.frontend_a_complete_req_timeout)
        && not (below (pos 1) j.frontend_idle_timeout))

abbrev pub app_conf :
    AppJson → Protocol → List ℕ × Bool → Policy → Protocol → List BackendConf → AppConf
app_conf j protocol (host, is_default) policy backend_protocol backend_list = record {
  name = j.name;
  listen = j.listen;
  protocol = protocol;
  http_host = host;
  is_default = is_default;
  balance_policy = policy;
  connect_backend_timeout = j.connect_backend_timeout;
  frontend_a_complete_req_timeout = j.frontend_a_complete_req_timeout;
  frontend_idle_timeout = j.frontend_idle_timeout;
  with_x_forwarded_for = j.x_forwarded_for;
  with_x_real_ip = j.x_real_ip;
  backend_protocol = backend_protocol;
  backend_list = backend_list;
}

-- The total weight of round robin is not 0.
unfoldable pub weighed : AppConf → Option AppConf
weighed cf =
    if is_roundrobin cf.balance_policy && same_ℤ (total_weight cf.backend_list) (pos 0)
    then none
    else some cf

-- The checks behind the host: the policy, the times, the protocol of the backends, and the backends.
unfoldable pub build : AppJson → Protocol → List ℕ × Bool → Option AppConf
build j protocol host = and_then (parse_balance_policy j.balance_policy) (λ policy.
    if not (good_times j)
    then none
    else and_then (backend_protocol_of j.backend_protocol) (λ backend_protocol.
      if not (ltb 0 (length j.backends))
      then none
      else and_then (load_backends policy backend_protocol j.backends) (λ backend_list.
        weighed (app_conf j protocol host policy backend_protocol backend_list))))

abbrev pub add_at : ℤ → AppConf → (ℤ → List AppConf) → ℤ → List AppConf
add_at port cf m p = if same_ℤ port p then m p ++ cf ∷ [] else m p

unfoldable pub push_app : ℤ → AppConf → Loaded → Loaded
push_app port cf l = record l {
  alls = l.alls ++ cf ∷ [];
  hosts = cf.http_host ∷ l.hosts;
  app_map_by_port = add_at port cf l.app_map_by_port;
}

-- One round of the loop over the apps.
unfoldable pub load_app : AppJson → Loaded → Option Loaded
load_app j l = and_then (named j l) (λ l1. and_then (parse_ip_port j.listen) (λ addr.
    and_then (protocol_of j.protocol) (λ protocol. and_then (bind_port j addr.1 protocol l1) (λ l2.
      and_then (host_of j addr.1 protocol l2)
        (λ host. and_then (build j protocol host.0) (λ cf. some (push_app addr.1 cf host.1)))))))

unfoldable pub load_conf : List AppJson → Loaded → Option Loaded
load_conf [] l = some l
load_conf (j ∷ js) l = and_then (load_app j l) (load_conf js)
