-- ===== src/Connection/Params/Memo.antt =====
-- The cache of passwords of postgresql/config.go, against a specification that knows nothing of its
-- representation.
use terraform_provider_postg.Base.{
  List, Option, String, [], ◌∷◌, none, some, refl, ◌≡◌, ◌==◌, if◌then◌else◌,
}
use terraform_provider_postg.Connection.{CommandOutcome, Process, Outside, ran, record_deed}
use terraform_provider_postg.Connection.Params.{
  get_cached_password, cached_or_fetched, fetch_password, get_command_output, command_result,
  password_cache_key,
}
use terraform_provider_postg.Effect.{
  Env, Error, Result, Session, ok, err, panic, modify, pure, fail, wrap, ◌>>=◌,
}
use terraform_provider_postg.Map.{get, put}
use terraform_provider_postg.Map.Laws.{get-put}

-- The passwords that are known, by key.
abbrev pub Known : Type 0
Known = String → Option String

abbrev pub learn : String → String → Known → Known
learn key password known k = if key == k then some password else known k

-- What a command that ended so is worth.
abbrev pub outcome_password : Option Error → String → Option String
outcome_password none output = some output
outcome_password (some e) output = none

abbrev learn_if : String → Option String → Known → Known
learn_if key none known = known
learn_if key (some password) known = learn key password known

-- A password that is known is given; otherwise the command's is given and known from there on; and
-- if the command fails, there is none and nothing is learnt.
abbrev ask_known : String → Option String → Option String → Known → Option String × Known
ask_known key (some password) fetched known = (some password, known)
ask_known key none fetched known = (fetched, learn_if key fetched known)

abbrev pub memo : String → (fetched : Option String) → Known → Option String × Known
memo key fetched known = ask_known key (known key) fetched known

module _ {Version : Type 0} where
  abbrev pub SameKnown : Known → Session (Process Version) → Type 0
  SameKnown known s = (k : String) → get k s.res.password_cache ≡ known k

  -- The result is the specification's, and so is what the cache answers from there on.
  abbrev pub Implements : Option String × Known → Result String × Session (Process Version) → Type 0
  Implements (some password, known) (ok p, s) = (p ≡ password) × SameKnown known s
  Implements (none, known) (err e, s) = SameKnown known s
  Implements (some password, known) (err e, s) = ⊥
  Implements (none, known) (ok p, s) = ⊥
  Implements spec (panic, s) = ⊥

  abbrev pub command_of : Session (Process Version) → List String
  command_of s = "-ec" ∷ s.res.config.password_command ∷ []

  abbrev pub known_to : Session (Process Version) → Known
  known_to s k = get k s.res.password_cache

module _ {Version : Type 0} (out : Outside Version) (env : Env) where
  -- What the command gives if it runs now.
  abbrev pub fetched_by : Session (Process Version) → Option String
  fetched_by s =
      let o = out.run_command s.res.deeds "bash" (command_of s) in
      outcome_password o.run_error o.stdout

  ran-Implements :
      (key : String) (args : List String) (o : CommandOutcome) (e : Option Error)
      (s : Session (Process Version))
      → Implements
          (outcome_password e o.stdout, learn_if key (outcome_password e o.stdout) (known_to s))
          ((wrap "failed to execute the password command" (command_result out "bash" args o e)
              >>= λ new_password.
                  modify (λ q. record q { password_cache = put key new_password q.password_cache })
                  >>= λ _. pure new_password)
            env s)
  unfolding command_result wrap modify pure fail ◌>>=◌
  ran-Implements key args o none s = (refl, λ k. get-put key k o.stdout s.res.password_cache)
  ran-Implements key args o (some e) s = λ k. refl

  cached_or_fetched-Implements :
      (key : String) (o : Option String) (s : Session (Process Version))
      → Implements (ask_known key o (fetched_by s) (known_to s)) (cached_or_fetched out key o env s)
  unfolding cached_or_fetched fetch_password get_command_output record_deed wrap ◌>>=◌
  cached_or_fetched-Implements key (some password) s = (refl, λ k. refl)
  cached_or_fetched-Implements key none s =
      let o = out.run_command s.res.deeds "bash" (command_of s) in
      ran-Implements key (command_of s) o o.run_error
        (record s { res = record (s.res) { deeds = ran "bash" (command_of s) ∷ s.res.deeds } })

  -- In every state, asking the cache for a password implements the specification on the passwords
  -- that the cache knows by key: the result is the specification's, and behind it the cache knows
  -- for every key what the specification knows.
  pub get_cached_password-Implements :
      (s : Session (Process Version))
      → Implements
          (memo (password_cache_key s.res.config) (fetched_by s) (known_to s))
          (get_cached_password out env s)
  unfolding get_cached_password ◌>>=◌
  get_cached_password-Implements s =
      cached_or_fetched-Implements (password_cache_key s.res.config) _ s
