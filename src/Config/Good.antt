-- ===== src/Config/Good.antt =====
-- What holds of one app that `load_conf` accepts, and of results that may fail.
use niubix.Base.{
  ℕ, suc, ◌≡◌, refl, ap, Bool, true, false, not, ◌&&◌, ◌||◌, List, [], ◌∷◌, Option, none, some, ltb,
  if◌then◌else◌, length, Bool-cases, inl, inr,
}
use niubix.Base.Int.{pos, ltb_ℤ}
use niubix.Config.Load.{
  Protocol, Policy, BackendConf, BackendJson, AppJson, AppConf, same_ℤ, parse_balance_policy,
  backend_protocol_of, is_roundrobin, below, load_backends, total_weight, good_backend, good_check,
  backend_conf, push_backend, is_http, is_slash,
}
use niubix.Config.Apps.{and_then, good_times, app_conf, weighed, build}
use native.Mathlib.Omega.{arith}

-- A result, if there is one, has a property.
abbrev pub Ensures : {A : Type 0} → (A → Type 0) → Option A → Type 0
Ensures P none = Unit {0}
Ensures P (some a) = P a

pub any : {A : Type 0} (o : Option A) → Ensures (λ a. Unit {0}) o
any none = tt
any (some a) = tt

pub and_then-Ensures :
    {A B : Type 0} (Q : A → Type 0) (P : B → Type 0) (o : Option A) (f : A → Option B)
    → Ensures Q o
    → ((a : A) → Q a → Ensures P (f a))
    → Ensures P (and_then o f)
unfolding and_then
and_then-Ensures Q P none f q h = tt
and_then-Ensures Q P (some a) f q h = h a q

pub else-Ensures :
    {A : Type 0} (P : A → Type 0) (c : Bool) (o : Option A)
    → (c ≡ false → Ensures P o)
    → Ensures P (if c then none else o)
else-Ensures P true o h = tt
else-Ensures P false o h = h refl

-- A backend that was accepted: its weight is not negative, and a check that is asked for has a time
-- limit and a text, which for HTTP starts with a slash and has at most 512 bytes.
abbrev pub is_good_backend : Protocol → BackendConf → Bool
is_good_backend protocol b =
    not (below (pos 0) b.weight)
    && (ltb 0 (length b.host)
        && (not (ltb_ℤ (pos 0) b.health_check_period)
            || (not (below (pos 1) b.health_check_timeout)
                && ltb 0 (length b.health_check_uri)
                && (not (is_http protocol)
                    || (is_slash b.health_check_uri
                        && not (ltb 512 (length b.health_check_uri)))))))

abbrev pub AllGood : Protocol → List BackendConf → Type 0
AllGood protocol [] = Unit {0}
AllGood protocol (b ∷ bs) = (is_good_backend protocol b ≡ true) × AllGood protocol bs

-- An app that was accepted.
abbrev pub IsGood : AppConf → Type 0
IsGood cf =
    (ltb 0 (length cf.name) ≡ true)
    × (below (pos 1) cf.connect_backend_timeout ≡ false)
    × (below (pos 1) cf.frontend_a_complete_req_timeout ≡ false)
    × (below (pos 1) cf.frontend_idle_timeout ≡ false)
    × (ltb 0 (length cf.backend_list) ≡ true)
    × ((is_roundrobin cf.balance_policy && same_ℤ (total_weight cf.backend_list) (pos 0)) ≡ false)
    × AllGood cf.backend_protocol cf.backend_list

pub good_backend-conf :
    (policy : Policy) (protocol : Protocol) (b : BackendJson)
    → good_backend policy protocol b ≡ true
    → is_good_backend protocol (backend_conf policy b) ≡ true
unfolding good_backend good_check backend_conf
good_backend-conf policy protocol b g = ground arith

pub pushed-AllGood :
    (protocol : Protocol) (c : BackendConf) (n : ℕ) (o : Option (List BackendConf))
    → is_good_backend protocol c ≡ true
    → Ensures (λ cs. AllGood protocol cs × (length cs ≡ n)) o
    → Ensures (λ cs. AllGood protocol cs × (length cs ≡ suc n)) (push_backend o c)
unfolding push_backend
pushed-AllGood protocol c n none g h = tt
pushed-AllGood protocol c n (some cs) g (all, e) = ((g, all), ap suc e)

pub not-false : (x : Bool) → not x ≡ false → x ≡ true
not-false true h = refl
not-false false h = cc h

pub three_false :
    (x y z : Bool)
    → not (not x && (not y && not z)) ≡ false
    → (x ≡ false) × (y ≡ false) × (z ≡ false)
three_false false false false h = (refl, refl, refl)
three_false true y z h = cc h
three_false false true z h = cc h
three_false false false true h = cc h

pub times_of :
    (j : AppJson)
    → not (good_times j) ≡ false
    → (below (pos 1) j.connect_backend_timeout ≡ false)
      × (below (pos 1) j.frontend_a_complete_req_timeout ≡ false)
      × (below (pos 1) j.frontend_idle_timeout ≡ false)
unfolding good_times
times_of j h = three_false _ _ _ h

pub load_backends-AllGood :
    (policy : Policy) (protocol : Protocol) (bs : List BackendJson)
    → Ensures
        (λ cs. AllGood protocol cs × (length cs ≡ length bs))
        (load_backends policy protocol bs)
unfolding load_backends
load_backends-AllGood policy protocol [] = (tt, refl)
load_backends-AllGood policy protocol (b ∷ bs) =
    elim (Bool-cases (good_backend policy protocol b)) [
      | inl g ↦ rw g (
          pushed-AllGood protocol (backend_conf policy b) (length bs)
            (load_backends policy protocol bs) (good_backend-conf policy protocol b g)
            (load_backends-AllGood policy protocol bs))
      | inr g ↦ rw g tt
    ]

pub build-IsGood :
    (j : AppJson) (protocol : Protocol) (host : List ℕ × Bool)
    → ltb 0 (length j.name) ≡ true
    → Ensures (λ cf. IsGood cf × (cf.name ≡ j.name)) (build j protocol host)
unfolding build weighed
build-IsGood j protocol host n =
    let P : AppConf → Type 0 = λ cf. IsGood cf × (cf.name ≡ j.name) in
    and_then-Ensures (λ policy. Unit {0}) P (parse_balance_policy j.balance_policy) _ (any _)
      (λ policy u. else-Ensures P (not (good_times j)) _ (λ times.
        and_then-Ensures (λ bp. Unit {0}) P (backend_protocol_of j.backend_protocol) _ (any _)
          (λ bp u'. else-Ensures P (not (ltb 0 (length j.backends))) _ (λ there.
            and_then-Ensures (λ cs. AllGood bp cs × (length cs ≡ length j.backends)) P
              (load_backends policy bp j.backends) _ (load_backends-AllGood policy bp j.backends)
              (λ cs good.
                else-Ensures P (is_roundrobin policy && same_ℤ (total_weight cs) (pos 0))
                  (some (app_conf j protocol host policy bp cs))
                  (λ weight. (
                    (
                      n,
                      (times_of j times).0,
                      (times_of j times).1,
                      (times_of j times).2,
                      rw (good.1) (not-false _ there),
                      weight,
                      good.0,
                    ),
                    refl,
                  )))))))
