-- ===== src/Tests/Server.antt =====
-- A server that keeps the memberships that the log has granted.
use terraform_provider_postg.Tests.Quoted.{quote_identifier, is_whole, grants, revokes}
use terraform_provider_postg.Base.{
  List, [], ◌∷◌, none, some, ℕ, String, Bool, true, false, if◌then◌else◌, ◌==◌, ◌&&◌,
}
use terraform_provider_postg.Effect.{
  Env, ok, Log, Handle, Arg, Scan, no_rows, row, rows, value, begin, commit, exec, query, rollback,
  str,
}

abbrev pub is_granted : Log → String → String → Bool
is_granted [] r m = false
is_granted (exec h sql args none ∷ log) r m =
    let before = is_granted log r m in
    let whole = is_whole r && is_whole m in
    if whole && sql == grants r m
    then true
    else if whole && sql == revokes r m
    then false
    else before
is_granted (exec h sql args (some e) ∷ log) r m = is_granted log r m
is_granted (begin _ _ ∷ log) r m = is_granted log r m
is_granted (query _ _ _ ∷ log) r m = is_granted log r m
is_granted (commit _ _ ∷ log) r m = is_granted log r m
is_granted (rollback _ ∷ log) r m = is_granted log r m

abbrev pub found_if : Bool → Scan ℕ
found_if true = row 1
found_if false = no_rows

abbrev pub membership_answer : Log → Handle → String → List Arg → Scan ℕ
membership_answer log h sql (str r ∷ str m ∷ []) = found_if (is_granted log r m)
membership_answer log h sql _ = no_rows

abbrev pub server : Env
server = record {
  is_print = λ n. true;
  quote_identifier = quote_identifier;
  new_set = λ xs. xs;
  set_equal = λ xs ys. true;
  acl_create = 512;
  acl_usage = 256;
  acl_merge = λ a b. a;
  acl_grants = λ a s. [];
  acl_revokes = λ a s. [];
  acl_parse = λ s. value (record { role = s; granted_by = ""; privileges = 0; grant_options = 0 });
  acl_new_schema = λ a. value a;
  md5_hex = λ s. s;
  map_order = λ log ks. ks;
  supported = λ f. true;
  version = "14.0.0";
  client_database = "postgres";
  database_username = "admin";
  config_superuser = true;
  connect_result = λ log db. ok tt;
  begin_error = λ log db. none;
  exec_error = λ log h sql args. none;
  commit_error = λ log t. none;
  scan_string = λ log h sql args. row "admin";
  scan_two = λ log h sql args. no_rows;
  scan_bool = λ log h sql args. row false;
  scan_nat = membership_answer;
  scan_list = λ log h sql args. no_rows;
  scan_owner_acl = λ log h sql args. no_rows;
  scan_membership = λ log h sql args. no_rows;
  scan_role = λ log h sql args. no_rows;
  scan_database = λ log h sql args. no_rows;
  rows_string = λ log h sql args. rows [];
  rows_acl = λ log h sql args. rows [];
}
