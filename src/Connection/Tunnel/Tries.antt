-- ===== src/Connection/Tunnel/Tries.antt =====
-- How often postgresql/jumphost.go tries its tunnel, and what it has then.
use terraform_provider_postg.Base.{
  Bool-cases, List, Option, [], none, some, true, arith, inl, inr, refl, ℕ, zero, suc, ◌+◌, ◌≡◌,
  ◌≤◌, ◌∷◌,
}
use terraform_provider_postg.Connection.{
  Config, Deed, Process, Outside, opened, pinged, ran, reused, closed, set_max_open_conns,
  asked_version, drew, waited, dialled, ranged, started_ssh, record_deed,
}
use terraform_provider_postg.Connection.Tunnel.{
  is_running, try_tunnel, connect_to_jump_host, start_ssh, when_exited, dial, when_dialled,
}
use terraform_provider_postg.Effect.{
  Env, Error, M, Session, Result, ok, err, panic, or_fail, wrap, ◌>>=◌,
}

abbrev pub count_dialled : List Deed → ℕ
count_dialled [] = 0
count_dialled (dialled n ∷ ds) = suc (count_dialled ds)
count_dialled (opened dsn ∷ ds) = count_dialled ds
count_dialled (ran command args ∷ ds) = count_dialled ds
count_dialled (pinged dsn ∷ ds) = count_dialled ds
count_dialled (reused dsn ∷ ds) = count_dialled ds
count_dialled (closed dsn ∷ ds) = count_dialled ds
count_dialled (set_max_open_conns dsn n ∷ ds) = count_dialled ds
count_dialled (asked_version dsn ∷ ds) = count_dialled ds
count_dialled (drew n ∷ ds) = count_dialled ds
count_dialled (waited n ∷ ds) = count_dialled ds
count_dialled (started_ssh args ∷ ds) = count_dialled ds
count_dialled (ranged ∷ ds) = count_dialled ds

module _ {Version : Type 0} where
  -- Well: the tunnel's port is one of those that run. In an error: what runs is as before. The
  -- configuration stays, and no more dials were made than so many.
  abbrev pub TunnelEnds :
      Config Version → List ℕ → ℕ → Result (Unit {0}) × Session (Process Version) → Type 0
  TunnelEnds c ports n (ok u, s) =
      (is_running c.tunneled_port s.res.running_commands ≡ true)
      × (s.res.config ≡ c)
      × (count_dialled s.res.deeds ≤ n)
  TunnelEnds c ports n (err e, s) =
      (s.res.running_commands ≡ ports) × (s.res.config ≡ c) × (count_dialled s.res.deeds ≤ n)
  TunnelEnds c ports n (panic, s) = ⊥

  TunnelEnds-weaken :
      (c : Config Version) (ports : List ℕ) (m n : ℕ)
      (o : Result (Unit {0}) × Session (Process Version))
      → m ≤ n
      → TunnelEnds c ports m o
      → TunnelEnds c ports n o
  TunnelEnds-weaken c ports m n (ok u, s) le (a, b, h) = (a, b, omega (arith, h, le))
  TunnelEnds-weaken c ports m n (err e, s) le (a, b, h) = (a, b, omega (arith, h, le))
  TunnelEnds-weaken c ports m n (panic, s) le u = u

first_is_running : (port : ℕ) (ports : List ℕ) → is_running port (port ∷ ports) ≡ true
first_is_running port ports = ground arith

module _ {Version : Type 0} (out : Outside Version) (env : Env) where
  when_dialled-TunnelEnds :
      (n : ℕ) (rest : M (Process Version) (Unit {0}))
      → ((t : Session (Process Version))
          → TunnelEnds t.res.config t.res.running_commands
              (n + count_dialled t.res.deeds)
              (rest env t))
      → (o : Option Error) (s : Session (Process Version))
      → TunnelEnds s.res.config s.res.running_commands
          (n + count_dialled s.res.deeds)
          (when_dialled out s.res.config.tunneled_port rest o env s)
  unfolding when_dialled record_deed ◌>>=◌
  when_dialled-TunnelEnds n rest ends none s =
      (first_is_running s.res.config.tunneled_port s.res.running_commands, refl, omega arith)
  when_dialled-TunnelEnds n rest ends (some e) s = ends _

  when_exited-TunnelEnds :
      (n : ℕ) (rest : M (Process Version) (Unit {0})) (s : Session (Process Version))
      → TunnelEnds s.res.config s.res.running_commands (n + count_dialled s.res.deeds) (rest env s)
      → (o : Option Error)
      → TunnelEnds s.res.config s.res.running_commands
          (n + count_dialled s.res.deeds)
          (when_exited out o rest env s)
  unfolding when_exited ◌>>=◌
  when_exited-TunnelEnds n rest s ends none = ends
  when_exited-TunnelEnds n rest s ends (some e) = (refl, refl, omega arith)

  try_tunnel-TunnelEnds :
      (n : ℕ) (s : Session (Process Version))
      → TunnelEnds s.res.config s.res.running_commands
          (n + count_dialled s.res.deeds)
          (try_tunnel out n env s)
  unfolding try_tunnel dial record_deed ◌>>=◌
  try_tunnel-TunnelEnds zero s = (refl, refl, omega arith)
  try_tunnel-TunnelEnds (suc n) s =
      when_exited-TunnelEnds (suc n)
        (dial out s.res.config.tunneled_port
          >>= when_dialled out s.res.config.tunneled_port (try_tunnel out n))
        s
        (TunnelEnds-weaken s.res.config s.res.running_commands
          (n + count_dialled (dialled s.res.config.tunneled_port ∷ s.res.deeds)) _ _ (omega arith)
          (when_dialled-TunnelEnds n (try_tunnel out n) (try_tunnel-TunnelEnds n)
            (out.dial_error s.res.deeds s.res.config.tunneled_port) _))
        (out.ssh_exit s.res.deeds)

  started-TunnelEnds :
      (o : Option Error) (s : Session (Process Version))
      → TunnelEnds s.res.config s.res.running_commands
          (10 + count_dialled s.res.deeds)
          ((wrap "failed to start ssh tunnel" (or_fail o) >>= λ _. try_tunnel out 10) env s)
  unfolding wrap or_fail ◌>>=◌
  started-TunnelEnds none s = try_tunnel-TunnelEnds 10 s
  started-TunnelEnds (some e) s = (refl, refl, omega arith)

  -- Connecting to the jump host ends without a panic, behind at most ten dials, and leaves the
  -- configuration as it is. If it ends well, the tunnel's port is among those that run; if it
  -- fails, those that run are as before.
  pub connect_to_jump_host-TunnelEnds :
      (s : Session (Process Version))
      → TunnelEnds s.res.config s.res.running_commands
          (10 + count_dialled s.res.deeds)
          (connect_to_jump_host out env s)
  unfolding connect_to_jump_host start_ssh record_deed ◌>>=◌
  connect_to_jump_host-TunnelEnds s =
      elim (Bool-cases (is_running s.res.config.tunneled_port s.res.running_commands)) [
        | inl e ↦ rw e (e, refl, omega arith)
        | inr e ↦ rw e (started-TunnelEnds (out.start_error _ _) _)
      ]
