-- ===== src/Connection/Tunnel.antt =====
-- postgresql/jumphost.go: the tunnel through the jump host, and its port.
pub mod Ports
pub mod Preserved
pub mod Tries
use Prim.Native.String.{◌++◌}
use terraform_provider_postg.Base.{
  Bool, List, Option, String, [], none, some, true, false, if◌then◌else◌, ℕ, zero, suc, ◌+◌, ◌-◌,
  ◌=ℕ◌, ◌∷◌,
}
use terraform_provider_postg.Connection.{
  Process, Outside, Config, started_ssh, waited, dialled, drew, record_deed,
}
use terraform_provider_postg.Effect.{
  Error, M, current, fail, modify, pure, text, wrap, wrapped_between, or_fail, ◌>>=◌, ◌>>◌,
}
use terraform_provider_postg.Map.{get, put}
use terraform_provider_postg.Text.Decimal.{format_nat}

abbrev pub maximum_port : ℕ
maximum_port = 60000

abbrev pub minimum_port : ℕ
minimum_port = 10000

abbrev pub is_running : ℕ → List ℕ → Bool
is_running port [] = false
is_running port (p ∷ ports) = let rest = is_running port ports in if p =ℕ port then true else rest

module _ {Version : Type 0} where
  ssh_args : Config Version → List String
  ssh_args c =
      c.jump_host
      ∷ "-o"
      ∷ "UserKnownHostsFile=/dev/null"
      ∷ "-o"
      ∷ "StrictHostKeyChecking=no"
      ∷ "-L"
      ∷ ("127.0.0.1:"
          ++ (format_nat c.tunneled_port ++ (":" ++ (c.host ++ (":" ++ format_nat c.port)))))
      ∷ "-N"
      ∷ []

module _ {Version : Type 0} (out : Outside Version) where
  -- ssh ended before the 100 milliseconds were over
  when_exited : Option Error → M (Process Version) (Unit {0}) → M (Process Version) (Unit {0})
  when_exited none rest = rest
  when_exited (some e) rest = do
    p ← current
    fail (wrapped_between "ssh exited" e (out.ssh_output p.deeds))

  -- The connection of a dial that succeeds is not closed.
  dial : ℕ → M (Process Version) (Option Error)
  dial port = do p ← current; record_deed (dialled port); pure (out.dial_error p.deeds port)

  when_dialled : ℕ → M (Process Version) (Unit {0}) → Option Error → M (Process Version) (Unit {0})
  when_dialled port rest none =
      modify (λ p. record p { running_commands = port ∷ p.running_commands })
  when_dialled port rest (some e) = do record_deed (waited 1); rest

  -- The loop of at most `tries` rounds.
  unfoldable pub try_tunnel : (tries : ℕ) → M (Process Version) (Unit {0})
  unfolding when_exited dial when_dialled
  try_tunnel zero = do
    p ← current
    fail (text ("ssh failed to connect: " ++ out.ssh_output p.deeds))
  try_tunnel (suc tries) = do
    p ← current
    when_exited (out.ssh_exit p.deeds)
        (dial p.config.tunneled_port >>= when_dialled p.config.tunneled_port (try_tunnel tries))

  start_ssh : M (Process Version) (Unit {0})
  unfolding ssh_args
  start_ssh = do
    p ← current
    record_deed (started_ssh (ssh_args p.config))
    wrap "failed to start ssh tunnel" (or_fail (out.start_error p.deeds (ssh_args p.config)))

  unfoldable pub connect_to_jump_host : M (Process Version) (Unit {0})
  unfolding start_ssh try_tunnel
  connect_to_jump_host = do
    p ← current
    if is_running p.config.tunneled_port p.running_commands
        then pure tt
        else (do start_ssh; try_tunnel 10)

  draw_port : String → M (Process Version) ℕ
  draw_port cache_key = do
    p ← current
    record_deed (drew (maximum_port - minimum_port))
    let port = out.intn p.deeds (maximum_port - minimum_port) + minimum_port
    modify (λ q. record q { random_port_cache = put cache_key port q.random_port_cache })
    pure port

  cached_or_drawn : String → Option ℕ → M (Process Version) ℕ
  unfolding draw_port
  cached_or_drawn cache_key (some port) = pure port
  cached_or_drawn cache_key none = draw_port cache_key

  unfoldable pub get_random_port : String → M (Process Version) ℕ
  unfolding cached_or_drawn
  get_random_port cache_key = do
    p ← current
    cached_or_drawn cache_key (get cache_key p.random_port_cache)
