-- ===== src/Connection/Tunnel/Ports.antt =====
-- Which ports postgresql/jumphost.go draws.
use terraform_provider_postg.Base.{
  ◌&&◌, not, ◌=ℕ◌, ◌∙◌, eq_refl, Bool, subst, Bool-cases, List, Option, String, [], none, some,
  true, false, arith, inl, inr, refl, ℕ, ◌+◌, ◌-◌, ◌≡◌, ◌≤◌, ◌<◌, ◌∷◌, ◌==◌, if◌then◌else◌,
}
use terraform_provider_postg.Connection.{Deed, Process, Outside, record_deed}
use terraform_provider_postg.Connection.Tunnel.{
  get_random_port, cached_or_drawn, draw_port, maximum_port, minimum_port,
}
use terraform_provider_postg.Connection.Configure.{
  ProviderAttrs, provider_configure, config_of, new_client,
}
use terraform_provider_postg.Connection.Params.{should_use_jump_host}
use Prim.Native.String.{◌++◌}
use mathlib.Core.Option.{some-injective}
use terraform_provider_postg.Text.{nonempty}
use terraform_provider_postg.Text.Decimal.{format_nat}
use terraform_provider_postg.Map.Laws.{get-put}
use terraform_provider_postg.Effect.{continue, Env, Session, Result, ok, err, panic, modify, ◌>>=◌}
use terraform_provider_postg.Map.{Map, get, put, remove}

abbrev pub InRange : ℕ → Type 0
InRange port = (minimum_port ≤ port) × (port < maximum_port)

-- Every port of the cache is in the range.
abbrev pub AllInRange : Map ℕ → Type 0
AllInRange [] = Unit
AllInRange ((key, port) ∷ rest) = InRange port × AllInRange rest

if_InRange :
    (b : Bool) (p : ℕ) (o : Option ℕ) (port : ℕ)
    → InRange p
    → (o ≡ some port → InRange port)
    → (if b then some p else o) ≡ some port
    → InRange port
if_InRange true p o port h hs e = subst InRange (some-injective p port e) h
if_InRange false p o port h hs e = hs e

get-InRange :
    (key : String) (m : Map ℕ) (port : ℕ) → AllInRange m → get key m ≡ some port → InRange port
unfolding get
get-InRange key [] port h e = cc
get-InRange key ((k, p) ∷ rest) port (h, hs) e =
    if_InRange (k == key) p (get key rest) port h (get-InRange key rest port hs) e

remove-AllInRange : (key : String) (m : Map ℕ) → AllInRange m → AllInRange (remove key m)
unfolding remove
remove-AllInRange key [] h = h
remove-AllInRange key ((k, p) ∷ rest) (h, hs) = elim (Bool-cases (k == key)) [
  | inl e ↦ rw e (remove-AllInRange key rest hs)
  | inr e ↦ rw e (h, remove-AllInRange key rest hs)
]

put-AllInRange :
    (key : String) (port : ℕ) (m : Map ℕ)
    → InRange port
    → AllInRange m
    → AllInRange (put key port m)
unfolding put
put-AllInRange key port m h hs = (h, remove-AllInRange key m hs)

drawn_InRange : (n : ℕ) → n < maximum_port - minimum_port → InRange (n + minimum_port)
drawn_InRange n h = (omega arith, omega (arith, h))

get-put_self : (key : String) (port : ℕ) (m : Map ℕ) → get key (put key port m) ≡ some port
get-put_self key port m = get-put key key port m ∙ rw (eq_refl key) refl

with_port : (b : Bool) (port : ℕ) → InRange port → (b && not (port =ℕ 0)) ≡ b
with_port true port h = ground (arith, h)
with_port false port h = refl

module _ {Version : Type 0} (out : Outside Version) (env : Env) where
  -- A port of the range, which the cache has under the key now.
  abbrev pub Drawn : String → Result ℕ × Session (Process Version) → Type 0
  Drawn key (ok port, s) =
      InRange port
      × AllInRange s.res.random_port_cache
      × (get key s.res.random_port_cache ≡ some port)
  Drawn key (err e, s) = ⊥
  Drawn key (panic, s) = ⊥

  cached_or_drawn-Drawn :
      ((ds : List Deed) (n : ℕ) → 0 < n → out.intn ds n < n)
      → (key : String) (o : Option ℕ) (s : Session (Process Version))
      → AllInRange s.res.random_port_cache
      → get key s.res.random_port_cache ≡ o
      → Drawn key (cached_or_drawn out key o env s)
  unfolding cached_or_drawn draw_port record_deed ◌>>=◌
  cached_or_drawn-Drawn below key (some port) s all e = (get-InRange key _ port all e, all, e)
  cached_or_drawn-Drawn below key none s all e =
      let port = out.intn s.res.deeds (maximum_port - minimum_port) + minimum_port in
      let h : InRange port =
        drawn_InRange (out.intn s.res.deeds (maximum_port - minimum_port))
          (below s.res.deeds (maximum_port - minimum_port) (omega arith)) in
      (
        h,
        put-AllInRange key port s.res.random_port_cache h all,
        get-put_self key port s.res.random_port_cache,
      )

  get_random_port-Drawn :
      ((ds : List Deed) (n : ℕ) → 0 < n → out.intn ds n < n)
      → (key : String) (s : Session (Process Version)) → AllInRange s.res.random_port_cache
      → Drawn key (get_random_port out key env s)
  unfolding get_random_port ◌>>=◌
  get_random_port-Drawn below key s all =
      cached_or_drawn-Drawn below key (get key s.res.random_port_cache) s all refl

  -- What configuring the provider leaves.
  abbrev pub Configured : ProviderAttrs → Result (Unit {0}) × Session (Process Version) → Type 0
  Configured d (ok u, s) =
      InRange s.res.config.tunneled_port
      × AllInRange s.res.random_port_cache
      × (get (d.attr_host ++ format_nat d.attr_port) s.res.random_port_cache
          ≡ some s.res.config.tunneled_port)
      × (should_use_jump_host s.res.config ≡ nonempty d.attr_jumphost)
  Configured d (err e, s) = ⊥
  Configured d (panic, s) = ⊥

  Drawn-Configured :
      (d : ProviderAttrs) (version : Version) (o : Result ℕ × Session (Process Version))
      → Drawn (d.attr_host ++ format_nat d.attr_port) o
      → Configured d
          (continue o.0 (λ port. new_client (config_of version port d) d.attr_database) env o.1)
  unfolding config_of new_client modify
  Drawn-Configured d version (ok port, s) (h, all, e) =
      (h, all, e, with_port (nonempty d.attr_jumphost) port h)
  Drawn-Configured d version (err x, s) u = absurd u
  Drawn-Configured d version (panic, s) u = absurd u

  -- If `rand.Intn` stays below its bound and every port of the cache is from 10000 to 59999, then
  -- configuring the provider ends well, the port of the tunnel and all ports of the cache are from
  -- 10000 to 59999, the cache has that port for the host and port of the server, and a jump host is
  -- used exactly if one is configured.
  pub provider_configure-Configured :
      ((ds : List Deed) (n : ℕ) → 0 < n → out.intn ds n < n)
      → (d : ProviderAttrs) (s : Session (Process Version)) → AllInRange s.res.random_port_cache
      → Configured d (provider_configure out d env s)
  unfolding provider_configure ◌>>=◌
  provider_configure-Configured below d s all =
      let (version, e) = out.parse_tolerant d.attr_expected_version in
      Drawn-Configured d version (get_random_port out (d.attr_host ++ format_nat d.attr_port) env s)
        (get_random_port-Drawn below (d.attr_host ++ format_nat d.attr_port) s all)
