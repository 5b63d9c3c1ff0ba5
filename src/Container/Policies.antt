-- ===== src/Container/Policies.antt =====
-- What a configuration that config/config.go accepts means for the policies that container/container.go
-- hands to the login use case.
use araquanid.Container.{
  Answers, Parts, load_signer, open_redis, open_postgres, open_telemetry, build, connect_identity,
  abandon, new_grpc_conn, nothing,
}
use araquanid.Common.{String, ◌≡◌, refl, true, is_empty}
use araquanid.Common.Result.{ok, err, Result}
use araquanid.Settings.{Config, validate, ServicesConfig}

-- The error of `Build` without an address of the identity service, at whatever step.
abbrev pub IsError : Result String Parts → Type 0
IsError (ok p) = ⊥
IsError (err e) = Unit

module _ (c : Config) (a : Answers) (unset : is_empty c.services.identity.addr ≡ true) where
  load_signer-IsError : (r : Result String (Unit {0})) (p : Parts) → IsError (load_signer c a r p).1
  unfolding load_signer connect_identity new_grpc_conn abandon
  load_signer-IsError (err e) p = tt
  load_signer-IsError (ok _) p = rw unset tt

  open_redis-IsError : (r : Result String (Unit {0})) (p : Parts) → IsError (open_redis c a r p).1
  unfolding open_redis abandon
  open_redis-IsError (err e) p = tt
  open_redis-IsError (ok _) p = load_signer-IsError a.new_signer _

  open_postgres-IsError :
      (r : Result String (Unit {0})) (p : Parts) → IsError (open_postgres c a r p).1
  unfolding open_postgres abandon
  open_postgres-IsError (err e) p = tt
  open_postgres-IsError (ok _) p = open_redis-IsError a.new_redis _

  open_telemetry-IsError :
      (r : Result String (Unit {0})) (p : Parts) → IsError (open_telemetry c a r p).1
  unfolding open_telemetry abandon
  open_telemetry-IsError (err e) p = tt
  open_telemetry-IsError (ok _) p = open_postgres-IsError a.new_postgres _

  -- Without the address of the identity service `Build` fails, whatever its calls answer; `validate`
  -- finds the same keys missing as with any address.
  pub validate-build :
      (s : ServicesConfig)
      → (validate c ≡ validate (record c { services = s })) × IsError (build c a).1
  unfolding validate build
  validate-build s = (refl, open_telemetry-IsError a.new_telemetry nothing)
