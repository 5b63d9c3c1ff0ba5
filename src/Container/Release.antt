-- ===== src/Container/Release.antt =====
-- Nothing that Build of container/container.go has opened stays open after it failed.
use araquanid.Settings.{Config}
use araquanid.Common.{
  String, List, [], ◌∷◌, ◌+◌, ℕ, ◌≡◌, All, ◌==◌, if◌then◌else◌, true, refl, inl, inr, Mem, arith,
  All-Mem,
}
use araquanid.Common.Result.{Result, ok, err}
use araquanid.Container.{
  Resource, telemetry, postgres, redis, identity_conn, loopback_conn, relay, kafka_writer, Step,
  opens, closes, Parts, Built, Answers, close, abandon, after_steps, finish, nothing,
  connect_loopback, connect_identity, load_signer, open_redis, open_postgres, open_telemetry, build,
  start_relay, new_grpc_conn,
}

abbrev number : Resource → ℕ
number telemetry = 0
number postgres = 1
number redis = 2
number identity_conn = 3
number loopback_conn = 4
number relay = 5
number kafka_writer = 6

abbrev pub count_opened : Resource → List Step → ℕ
count_opened r [] = 0
count_opened r (opens s ∷ steps) = (if number r == number s then 1 else 0) + count_opened r steps
count_opened r (closes s ∷ steps) = count_opened r steps

abbrev pub count_closed : Resource → List Step → ℕ
count_closed r [] = 0
count_closed r (opens s ∷ steps) = count_closed r steps
count_closed r (closes s ∷ steps) = (if number r == number s then 1 else 0) + count_closed r steps

abbrev pub everything : Parts
everything = record {
  has_telemetry = true;
  has_postgres = true;
  has_redis = true;
  has_clients = true;
  has_kafka = true;
  has_relay = true;
}

abbrev resources : List Resource
resources = telemetry ∷ postgres ∷ redis ∷ identity_conn ∷ loopback_conn ∷ relay ∷ kafka_writer ∷ []

-- After an error a resource has been closed as often as it was opened; a container without an error
-- has opened it once and has not closed it.
abbrev IsBalanced : List Step → Resource → Type 0
IsBalanced steps r = count_opened r steps ≡ count_closed r steps

abbrev IsOpened : List Step → Resource → Type 0
IsOpened steps r = (count_opened r steps ≡ 1) × (count_closed r steps ≡ 0)

abbrev pub IsAccounted : Built → Resource → Type 0
IsAccounted (steps, err e) r = IsBalanced steps r
IsAccounted (steps, ok p) r = IsOpened steps r

abbrev AllAccounted : Built → Type 0
AllAccounted (steps, err e) = All (IsBalanced steps) resources
AllAccounted (steps, ok p) = All (IsOpened steps) resources

abbrev with_telemetry : Parts
with_telemetry = record nothing { has_telemetry = true }

abbrev with_postgres : Parts
with_postgres = record with_telemetry { has_postgres = true }

abbrev with_redis : Parts
with_redis = record with_postgres { has_redis = true }

resources-Mem : (r : Resource) → Mem r resources
resources-Mem telemetry = inl refl
resources-Mem postgres = inr (inl refl)
resources-Mem redis = inr (inr (inl refl))
resources-Mem identity_conn = inr (inr (inr (inl refl)))
resources-Mem loopback_conn = inr (inr (inr (inr (inl refl))))
resources-Mem relay = inr (inr (inr (inr (inr (inl refl)))))
resources-Mem kafka_writer = inr (inr (inr (inr (inr (inr (inl refl))))))

module _ (c : Config) (a : Answers) where
  finish-AllAccounted :
      (r : Result String (Unit {0}))
      → AllAccounted (
          after_steps
            (opens telemetry
              ∷ opens postgres
              ∷ opens redis
              ∷ opens identity_conn
              ∷ opens loopback_conn
              ∷ opens relay
              ∷ opens kafka_writer
              ∷ [])
            (finish r everything))
  unfolding finish abandon close
  finish-AllAccounted (err e) = ground arith
  finish-AllAccounted (ok _) = ground arith

  connect_loopback-AllAccounted :
      (r : Result String (Unit {0}))
      → AllAccounted (
          after_steps
            (opens telemetry ∷ opens postgres ∷ opens redis ∷ [])
            (connect_loopback a r with_redis))
  unfolding connect_loopback start_relay finish abandon close
  connect_loopback-AllAccounted (err e) = ground arith
  connect_loopback-AllAccounted (ok _) = finish-AllAccounted a.register_rest

  connect_identity-AllAccounted :
      (r : Result String (Unit {0}))
      → AllAccounted (
          after_steps
            (opens telemetry ∷ opens postgres ∷ opens redis ∷ [])
            (connect_identity c a r with_redis))
  unfolding connect_identity connect_loopback start_relay finish abandon close
  connect_identity-AllAccounted (err e) = ground arith
  connect_identity-AllAccounted (ok _) = connect_loopback-AllAccounted a.loopback_client

  load_signer-AllAccounted :
      (r : Result String (Unit {0}))
      → AllAccounted (
          after_steps
            (opens telemetry ∷ opens postgres ∷ opens redis ∷ [])
            (load_signer c a r with_redis))
  unfolding load_signer connect_identity connect_loopback start_relay finish abandon close
  load_signer-AllAccounted (err e) = ground arith
  load_signer-AllAccounted (ok _) =
      connect_identity-AllAccounted (new_grpc_conn c.services.identity.addr a.identity_dial)

  open_redis-AllAccounted :
      (r : Result String (Unit {0}))
      → AllAccounted
          (after_steps (opens telemetry ∷ opens postgres ∷ []) (open_redis c a r with_postgres))
  unfolding open_redis load_signer connect_identity connect_loopback start_relay finish abandon
      close
  open_redis-AllAccounted (err e) = ground arith
  open_redis-AllAccounted (ok _) = load_signer-AllAccounted a.new_signer

  open_postgres-AllAccounted :
      (r : Result String (Unit {0}))
      → AllAccounted (after_steps (opens telemetry ∷ []) (open_postgres c a r with_telemetry))
  unfolding open_postgres open_redis load_signer connect_identity connect_loopback start_relay
      finish abandon close
  open_postgres-AllAccounted (err e) = ground arith
  open_postgres-AllAccounted (ok _) = open_redis-AllAccounted a.new_redis

  open_telemetry-AllAccounted :
      (r : Result String (Unit {0})) → AllAccounted (open_telemetry c a r nothing)
  unfolding open_telemetry abandon close
  open_telemetry-AllAccounted (err e) = ground arith
  open_telemetry-AllAccounted (ok _) = open_postgres-AllAccounted a.new_postgres

  AllAccounted-IsAccounted : (b : Built) (r : Resource) → AllAccounted b → IsAccounted b r
  AllAccounted-IsAccounted (steps, err e) r h =
      All-Mem (IsBalanced steps) r resources h (resources-Mem r)
  AllAccounted-IsAccounted (steps, ok p) r h =
      All-Mem (IsOpened steps) r resources h (resources-Mem r)

  -- When `Build` fails, wherever it does, every connection, every pool, the writer and the relay have
  -- been released as often as they were opened; when it succeeds, each has been opened once and none
  -- released.
  pub build-IsAccounted : (r : Resource) → IsAccounted (build c a) r
  unfolding build
  build-IsAccounted r =
      AllAccounted-IsAccounted (build c a) r (open_telemetry-AllAccounted a.new_telemetry)
