-- ===== src/Connection/Params/Preserved.antt =====
-- The connection string of postgresql/config.go keeps the invariants of connecting.
use terraform_provider_postg.Base.{List, Option, String, none, some}
use terraform_provider_postg.Connection.{Error, CommandOutcome, Outside, Process}
use terraform_provider_postg.Connection.Params.{
  cached_or_fetched, conn_params, command_result, fetch_password, conn_str, get_cached_password,
  get_command_output, password_of,
}
use terraform_provider_postg.Connection.Stable.{PasswordsFree, Stable, deed-Preserves}
use terraform_provider_postg.Effect.{modify}
use terraform_provider_postg.Effect.Preserves.{preserves_rules, Preserves, Preserves-modify}
use terraform_provider_postg.Map.{put}

module _ {Version : Type 0} (I : Process Version → Type 0) (stable : Stable I)
    (free : PasswordsFree I) (out : Outside Version) where
  result-Preserves :
      (command : String) (args : List String) (o : CommandOutcome) (e : Option Error)
      → Preserves I (command_result out command args o e)
  unfolding command_result
  result-Preserves command args o none = search preserves_rules
  result-Preserves command args o (some e) = search preserves_rules

  put_password :
      (key password : String)
      → Preserves I (modify (λ q. record q { password_cache = put key password q.password_cache }))
  put_password key password = Preserves-modify I _ (λ p i. free p _ i)

  fetch-Preserves : (key : String) → Preserves I (fetch_password out key)
  unfolding fetch_password get_command_output
  fetch-Preserves key =
      search (preserves_rules, deed-Preserves I stable, result-Preserves, put_password) depth 12

  cached-Preserves : (key : String) (o : Option String) → Preserves I (cached_or_fetched out key o)
  unfolding cached_or_fetched
  cached-Preserves key (some password) = search preserves_rules
  cached-Preserves key none = fetch-Preserves key

  pub conn_str-Preserves : (database : String) → Preserves I (conn_str out database)
  unfolding conn_str conn_params password_of get_cached_password
  conn_str-Preserves database =
      search (preserves_rules, cached-Preserves, deed-Preserves I stable) depth 16
