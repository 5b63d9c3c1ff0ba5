-- ===== src/Lib.antt =====
-- The authentication service araquanid: a model of its core and the theorems about it.
--
-- The program. `internal/domain` holds two aggregates without any input or output.
-- `authentication_session.go` has AuthenticationSession, a login session with an idle timeout, an
-- absolute lifetime and a status that goes from ACTIVE to EXPIRED or REVOKED. `credential.go` has
-- Credential, a password with its history, its expiry and the lockout after failed attempts. Both
-- record domain events, which the caller pulls and appends to an outbox. `internal/features/login` is
-- the use case: `usecase/login.go` asks the rate limiter, resolves the identity, checks the lockout and
-- the password with the methods of the credential, and ends in one of three outcomes, each with one
-- transaction of writes. Its errors are those of the catalog `internal/apperror`, which
-- `internal/middleware` carries to the client. Its ports are implemented by `repository/db` on Postgres,
-- whose outbox table `internal/platform/outbox` publishes to Kafka, and by `internal/platform/ratelimit`
-- on Redis. `delivery/grpc` is the RPC in front of it. `config` reads the settings, and `container` puts
-- everything together and takes it down.
--
-- The model.
--   Common           the shared vocabulary: Common.Int is Go's signed integers, with the wrap-around of
--                    `++` and the panics of an index or a bound out of range; Common.Time is
--                    `time.Time` and `time.Duration`; Common.Result a value or an error;
--                    Common.Method a method on a mutable aggregate, which returns, fails or panics
--   Domain.Kinds, Domain.Password, Domain.Event, Domain.Fault, Domain.Policy
--                    the value types, the events, the errors and the policies of internal/domain
--   Domain.Session   internal/domain/authentication_session.go: the aggregate and its methods;
--                    Creation and Snapshot are its constructor and its persistence shape, and the
--                    other children hold the proofs
--   Domain.Credential
--                    internal/domain/credential.go: the aggregate and the methods of the lockout;
--                    Creation is its constructor and persistence shape, Change has the methods on
--                    the password, and the other children hold the proofs
--   AppError         internal/apperror/apperror.go; Transport is the interceptor and the error handler of
--                    internal/middleware
--   Login            internal/features/login: Ports has repository/repository.go and the types of the
--                    use case; Fingerprint is usecase/fingerprint.go and the password check; Transaction
--                    is Execute of repository/db/db.go; Sessions, Steps, Outcomes and Handler are
--                    usecase/login.go; the other children hold the proofs
--   Delivery         internal/features/login/delivery/grpc and internal/validator: the RPC around the use
--                    case; Composition puts it together with the interceptor and the gateway
--   RateLimit        internal/platform/ratelimit/redis.go; Server has what Redis documents of the three
--                    commands of the script
--   Outbox           internal/platform/outbox/outbox.go and repository/db/outbox.go of the login feature;
--                    Relay is internal/platform/outbox/publisher.go, Steps its step relation
--   Store            repository/db of the login feature: Sessions is session.go, Credentials is
--                    credential.go, Devices device.go, Factors mfa_factor.go, Attempts
--                    login_attempt.go, RefreshTokens refresh_token.go, Texts the constants of the
--                    domain in a column; Sessions.Eviction and Sessions.Single put the policies of
--                    usecase/login.go on concurrent sessions together with the rows
--   Adapters         the smaller adapters: Identity is repository/identity/acl.go, MfaSessions is
--                    repository/redis/mfa_session.go, Tokens is internal/platform/jwtsign/jwtsign.go
--   Settings         config/config.go
--   Container        container/container.go and internal/platform/services/services.go
-- A login is a computation with a trace: the calls of the ports that it made, in their order, beside
-- its result. The ports and the functions of the standard library are a parameter, the record
-- Dependencies; a port's answer is a function of its arguments, since one request asks none twice the
-- same.
-- The tables of Postgres are lists of rows in no particular order, the topic of Kafka is the list of the
-- messages it took, and the store of Redis is a parameter with laws. What a server answers to a call is
-- an argument of the call; the relay takes a record of such answers for each poll, so that any failure
-- can come at any place, also a commit whose answer was lost.
-- A Go function keeps its name in snake_case; the receiver of a method comes last and the changed
-- aggregate is returned beside the result. What a method wrote before it returned an error is kept.
--
-- Bounds. An instant is a number of nanoseconds since the earliest time that `time.Time` can hold,
-- unbounded above, so `Add` does not overflow, which in Go takes 292 billion years. Counters are 64-bit
-- integers that wrap round; theorems that need room below the largest say so. No definition runs on
-- fuel: loops are recursion on lists, and runs are recursion on the list of calls.
--
-- Not modelled. The text of the errors of the use case; the location of a time; aliasing of
-- slices and pointers, which the source rules out by copies (`slices.Clone`, `copyTime`); the identity
-- service, the encoding of JSON and the signature of a token, which are parameters; the commands and
-- servers of cmd; the merging of the configuration sources, which is a library's. A commit that reports
-- an error is kept apart from one that is rolled back, since the database may have stored it. Nor are
-- modelled: rows that other transactions insert between the polls of a run of the relay; the forms of a
-- UUID in a column, which is its text here, and the range of an INT, which is the server's answer; a
-- panic of RecordFailedAttempt inside the use case, which would end the request.
pub mod Adapters
pub mod AppError
pub mod Common
pub mod Container
pub mod Delivery
pub mod Domain
pub mod Login
pub mod Outbox
pub mod RateLimit
pub mod Settings
pub mod Store
