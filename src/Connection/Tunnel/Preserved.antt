-- ===== src/Connection/Tunnel/Preserved.antt =====
-- The tunnel of postgresql/jumphost.go keeps the invariants of connecting.
use terraform_provider_postg.Base.{Option, none, some, suc, zero, ℕ}
use terraform_provider_postg.Connection.{Outside, Process}
use terraform_provider_postg.Connection.Stable.{Stable, deed-Preserves}
use terraform_provider_postg.Connection.Tunnel.{
  dial, start_ssh, when_dialled, when_exited, connect_to_jump_host, try_tunnel,
}
use terraform_provider_postg.Effect.{Error, M}
use terraform_provider_postg.Effect.Preserves.{
  preserves_rules, Preserves, Preserves-modify, Preserves-bind, Preserves-current,
}

module _ {Version : Type 0} (I : Process Version → Type 0) (stable : Stable I)
    (out : Outside Version) where
  exited-Preserves :
      (o : Option Error) (rest : M (Process Version) (Unit {0}))
      → Preserves I rest
      → Preserves I (when_exited out o rest)
  unfolding when_exited
  exited-Preserves none rest h = h
  exited-Preserves (some e) rest h = search preserves_rules

  dialled-Preserves :
      (port : ℕ) (rest : M (Process Version) (Unit {0})) (o : Option Error)
      → Preserves I rest
      → Preserves I (when_dialled out port rest o)
  unfolding when_dialled
  dialled-Preserves port rest none h = Preserves-modify I _ (λ p i. stable.tunnels_ok p _ i)
  dialled-Preserves port rest (some e) h =
      search (preserves_rules, deed-Preserves I stable) depth 12

  dial-Preserves : (port : ℕ) → Preserves I (dial out port)
  unfolding dial
  dial-Preserves port = search (preserves_rules, deed-Preserves I stable) depth 12

  try-Preserves : (n : ℕ) → Preserves I (try_tunnel out n)
  unfolding try_tunnel
  try-Preserves zero = search preserves_rules depth 12
  try-Preserves (suc n) = Preserves-bind I _ _ (Preserves-current I) λ p.
      exited-Preserves (out.ssh_exit p.deeds) _ (
        Preserves-bind I (dial out p.config.tunneled_port) _ (dial-Preserves p.config.tunneled_port)
          λ o. dialled-Preserves p.config.tunneled_port (try_tunnel out n) o (try-Preserves n))

  pub connect_to_jump_host-Preserves : Preserves I (connect_to_jump_host out)
  unfolding connect_to_jump_host start_ssh
  connect_to_jump_host-Preserves =
      search (preserves_rules, deed-Preserves I stable, try-Preserves) depth 16
