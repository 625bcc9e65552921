-- ===== src/Connection/Configure.antt =====
-- `providerConfigure` and `validateExpectedVersion` of postgresql/provider.go, and `NewClient` of
-- config.go.
use Prim.Native.String.{◌++◌}
use terraform_provider_postg.Base.{
  Bool, List, Option, String, [], none, some, false, if◌then◌else◌, ℕ, ◌∷◌,
}
use terraform_provider_postg.Connection.{Process, Config, Outside, ClientCertificateConfig}
use terraform_provider_postg.Connection.Tunnel.{get_random_port}
use terraform_provider_postg.Text.Format.{format_quoted}
use terraform_provider_postg.Effect.{Error, M, modify, wrapped, ◌>>=◌}
use terraform_provider_postg.Text.{nonempty}
use terraform_provider_postg.Text.Decimal.{ℤ, format_nat}

-- The attributes of the provider. An element of `clientcert` is `none` if it is an empty block.
pub record ProviderAttrs : Type 0 where
  pub attr_scheme : String
  pub attr_host : String
  pub attr_port : ℕ
  pub attr_database : String
  pub attr_username : String
  pub attr_password : String
  pub attr_password_command : String
  pub attr_database_username : String
  pub attr_superuser : Bool
  pub attr_sslmode : String
  pub attr_ssl_mode : String
  pub clientcert : List (Option ClientCertificateConfig)
  pub attr_sslrootcert : String
  pub attr_connect_timeout : ℤ
  pub attr_max_connections : ℤ
  pub attr_expected_version : String
  pub attr_jumphost : String

abbrev pub first_certificate :
    List (Option ClientCertificateConfig) → Option ClientCertificateConfig
first_certificate [] = none
first_certificate (cert ∷ rest) = cert

abbrev pub chosen_ssl_mode : ProviderAttrs → String
chosen_ssl_mode d = if nonempty d.attr_sslmode then d.attr_sslmode else d.attr_ssl_mode

module _ {Version : Type 0} where
  -- The goroutine that closes the connections when the context ends is `close_connections`.
  unfoldable pub new_client : Config Version → String → M (Process Version) (Unit {0})
  new_client config database =
      modify λ p. record p { config = config; database_name = database; db_registry = [] }

  unfoldable pub config_of : Version → ℕ → ProviderAttrs → Config Version
  config_of version port d = record {
    scheme = d.attr_scheme;
    host = d.attr_host;
    port = d.attr_port;
    username = d.attr_username;
    password = d.attr_password;
    config_database_username = d.attr_database_username;
    superuser = d.attr_superuser;
    ssl_mode = chosen_ssl_mode d;
    application_name = "Terraform provider";
    connect_timeout_sec = d.attr_connect_timeout;
    max_conns = d.attr_max_connections;
    expected_version = version;
    ssl_client_cert = first_certificate d.clientcert;
    ssl_root_cert_path = d.attr_sslrootcert;
    jump_host = d.attr_jumphost;
    tunneled_port = port;
    password_command = d.attr_password_command;
    fallback_to_static_password = false;
  }

module _ {Version : Type 0} (out : Outside Version) where
  abbrev validated : String → Option Error → List Error
  validated v none = []
  validated v (some e) =
      wrapped ("invalid version (" ++ (format_quoted out.is_print v ++ ")")) e ∷ []

  unfoldable pub validate_expected_version : String → List Error
  validate_expected_version v = validated v (out.parse_tolerant v).1

  -- An error of the version is dropped here.
  unfoldable pub provider_configure : ProviderAttrs → M (Process Version) (Unit {0})
  unfolding config_of new_client
  provider_configure d = do
    let (version, e) = out.parse_tolerant d.attr_expected_version
    port ← get_random_port out (d.attr_host ++ format_nat d.attr_port)
    new_client (config_of version port d) d.attr_database
