-- ===== src/Config/Process.antt =====
-- src/conf.h and src/conf.cpp: `conf::load`, the configuration of the process. What `value` of the JSON library
-- gives for a key is an input, and so is what the machine says; `none` is the result -1.
pub mod Accepted
use niubix.Base.{
  ℕ, ◌-◌, ◌*◌, ◌%◌, ◌==◌, ◌^◌, Bool, true, false, not, ◌||◌, List, [], ◌∷◌, ◌++◌, Option, none,
  some, if◌then◌else◌, leb, ltb, length, take,
}
use niubix.Base.Int.{ℤ, pos, negsuc, ltb_ℤ}
use niubix.Request.Text.{before}
use niubix.Config.Load.{AppJson, AppConf, Loaded, empty_conf, same_ℤ}
use niubix.Config.Apps.{and_then, load_conf}

-- `apps` is empty when the value is not an array.
pub record ProcessJson : Type 0 where
  pub version : List ℕ
  pub master_log : List ℕ
  pub pid_file : List ℕ
  pub max_fds : ℤ
  pub worker_num : ℤ
  pub io_buf_size : ℤ
  pub log_dir : List ℕ
  pub log_level : List ℕ
  pub admin_listen : List ℕ
  pub admin_ip_white_list : List ℕ
  pub apps : List AppJson

-- `getrlimit`, none for -1, and `std::thread::hardware_concurrency`.
pub record Machine : Type 0 where
  pub rlim_cur : Option ℕ
  pub hardware_concurrency : ℕ

pub record ProcessConf : Type 0 where
  pub version : List ℕ
  pub master_log : List ℕ
  pub pid_file : List ℕ
  pub max_fds : ℤ
  pub worker_num : ℤ
  pub worker_io_buf_size : ℤ
  pub log_dir : List ℕ
  pub log_level : List ℕ
  pub admin_listen : List ℕ
  pub admin_ip_white_set : List (List ℕ)
  pub loaded : Loaded

-- MAX_FILE_NAME_LENGTH, the size of the arrays.
abbrev pub max_file_name_length : ℕ
max_file_name_length = 255

-- `strncpy` into such an array, and the NUL behind it.
unfoldable pub copied : List ℕ → List ℕ
copied s = before 0 (take (max_file_name_length - 1) s)

-- An unsigned number that is stored in an `int`.
unfoldable pub to_int : ℕ → ℤ
to_int n = let m = n % 2 ^ 32 in if ltb m (2 ^ 31) then pos m else negsuc (2 ^ 32 - 1 - m)

-- `is_zero`: no limit is asked for.
unfoldable pub limit_of : Option ℕ → ℤ → Bool → Option ℤ
limit_of rlim n false = some n
limit_of none n true = none
limit_of (some r) n true = some (to_int r)

unfoldable pub max_fds_of : Machine → ℤ → Option ℤ
max_fds_of machine n =
    if ltb_ℤ n (pos 0) then none else limit_of machine.rlim_cur n (same_ℤ n (pos 0))

-- `strtok_r` with ",": the bytes `token` are those of the token so far.
unfoldable pub push_token : List ℕ → List (List ℕ) → List (List ℕ)
push_token [] rest = rest
push_token (b ∷ token) rest = (b ∷ token) ∷ rest

unfoldable pub addresses : List ℕ → List ℕ → List (List ℕ)
addresses token [] = push_token token []
addresses token (b ∷ bytes) =
    let ended = push_token token (addresses [] bytes) in
    let longer = addresses (token ++ b ∷ []) bytes in if b == 44 then ended else longer

unfoldable pub is_missing : List ℕ → Bool
is_missing s = ltb (length (copied s)) 1

-- The members, from the values that passed the checks.
unfoldable pub process_conf : Machine → ProcessJson → ℤ → Loaded → ProcessConf
process_conf machine j fds l = record {
  version = copied j.version;
  master_log = copied j.master_log;
  pid_file = copied j.pid_file;
  max_fds = fds;
  worker_num =
      if same_ℤ j.worker_num (pos 0) then to_int machine.hardware_concurrency else j.worker_num;
  worker_io_buf_size = if ltb_ℤ j.io_buf_size (pos 1) then pos (32 * 1024) else j.io_buf_size;
  log_dir = copied j.log_dir;
  log_level = copied j.log_level;
  admin_listen = copied j.admin_listen;
  admin_ip_white_set = addresses [] (before 0 j.admin_ip_white_list);
  loaded = l;
}

-- The checks in their order; `load_rest` are those behind the limit of descriptors.
unfoldable pub load_rest : Machine → ProcessJson → ℤ → Option ProcessConf
load_rest machine j fds =
    if is_missing j.log_dir || (is_missing j.log_level || ltb (length j.apps) 1)
    then none
    else and_then (load_conf j.apps empty_conf) (λ l. some (process_conf machine j fds l))

unfoldable pub load : Machine → ProcessJson → Option ProcessConf
load machine j =
    if leb max_file_name_length (length j.version)
      || (is_missing j.master_log || is_missing j.pid_file)
    then none
    else and_then (max_fds_of machine j.max_fds) (load_rest machine j)
