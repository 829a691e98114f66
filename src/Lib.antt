-- ===== src/Lib.antt =====
-- authsvc, a library that models the authentication service of this repository.
--
-- The service keeps users, the provider accounts linked to them, the registered apps, sessions
-- with rotating refresh tokens, one-time codes, the state of OAuth round trips, authorization
-- codes and rate limits in Postgres. Package internal/store is its persistence layer,
-- internal/linking decides which account a provider's profile signs in to, and internal/httpapi
-- calls both. internal/token signs and verifies its access tokens, internal/oauth reads the
-- profiles of providers, internal/notify writes its mail, and cmd/authsvc starts it from the
-- settings of internal/config. sdk/go is what an app uses: it verifies access tokens by the keys
-- that it fetches, and sends logins and refreshes to the service.
--
-- How the program is modelled:
--   Schema holds a record for each table of internal/store/migrations and the struct that is
--   scanned from it, and `Database`, all of the tables.
--   Exec holds `Exec A`, what a method of store.DB does: it takes a world, the committed tables
--   and a count of the events so far, to a result or an error and to the next world. The clock,
--   the random bytes, the ULIDs and whether a statement reaches Postgres are functions of that
--   count, fields of `Env`, with sha256 and the collations; so no theorem but those that say so
--   assumes that a call succeeds. A transaction gives back the old tables on an error of its
--   body, on a rollback and on a commit that fails. Every operation runs whole: runs are lists of
--   whole operations in any order, `run`. Rotate, ConsumeCode, ConsumeToken and the tickets lock
--   the row that they read FOR UPDATE; what is not modelled, below, says where no lock is taken.
--   Exec/Steps derives what an action keeps from what its statements keep.
--   Table holds SELECT, INSERT, UPDATE and DELETE on a list of rows, with the unique columns as
--   the test of what an INSERT refuses; Table/Laws, Table/Pairwise and Table/Unique what they
--   keep.
--
-- Which file models which part:
--   Sessions: internal/store/sessions.go. Rotation lists how DB.Rotate can end, Trace the
--   sequences of operations, Change how one can change the table; WellFormed what the columns of the
--   table keep; SingleUse, Revocation, Lineage and Effects hold the theorems.
--   Otp: internal/store/otp.go. Guess, Redeem and Issue list how an operation can end.
--   Ticket: what DB.ConsumeOAuthFlow and DB.ConsumeAuthCode have in common, a secret that is
--   redeemed once, over any table of them; Oauth: internal/store/oauth.go as two instances.
--   RateLimit: internal/store/ratelimit.go.
--   Users, Identities: internal/store/users.go and internal/store/identities.go.
--   Linking: internal/linking/linking.go, over the two. Cases and Attach list how it can end;
--   Reach says what that leaves, Safety and Again hold the theorems.
--   Web: what the handlers of internal/httpapi share (api.go, middleware.go, respond.go); a
--   handler takes a world to a reply and the next world, and what lies outside (the hashes of
--   Password, the token signatures, the providers, the folding of addresses, the draw of a
--   number, the sending of mail) is a field of `Site`. Web/Account: sessions.go. Web/Login:
--   auth.go and otp.go. Web/Roundtrip: oauth.go. Web/Admin, Web/Redirect: admin.go, over
--   url.Parse as a parameter. Web/Reads says what the store's calls tell a handler; Delivery
--   (with Issue and Recipient), Exchange, Guard, Reset, Grant and Password hold the theorems.
--   Web/Register: the registration and the mailing of links and codes in auth.go and otp.go,
--   with validEmail. Web/Minted: what tokens are for. Web/CodeLogin (with Inbox): whom a one-
--   time code grants tokens. Blind says which calls do not look at the accounts; Enumeration,
--   Registration, Signup and Spent hold the theorems.
--   Otp/Numeric: NewNumericCode.
--   Http: requests, the patterns of http.ServeMux, clientIP, bearer and the cookies. Api: the routes
--   of api.go, from a request to the handlers of Web, with decode of respond.go and wellknown.go;
--   Api/Guarded holds the theorem.
--   Providers: internal/oauth (github.go, google.go, http.go); Providers/Email holds the
--   theorems.
--   Tokens: internal/token/token.go, over a record of the libraries' calls, Jwx; Tokens/Keys,
--   Tokens/Rotation and Tokens/Admission, which puts it under the handlers of Web, hold the
--   theorems.
--   Config: internal/config/config.go. Command: cmd/authsvc/main.go, from the settings to the
--   server, and pruneOnce; Command/Startup and Command/Pruning hold the theorems.
--   Sdk: sdk/go/authsdk.go and client.go, over a network as a parameter. Sdk/Keys: keys.go, the
--   cache with the steps of its refresh as a relation; Sdk/Keys/Refinement the cache as the log
--   of the answers.
--   Sdk/Middleware: middleware.go. Sdk/Callback: callback.go and errors.go. Sdk/Retry runs the
--   client against the handlers of Web.
--   Notify: internal/notify, the mail of a code; Notify/Conversation: how smtp.go sends it.
--   Password: internal/password/password.go, over argon2 as a parameter; Password/Roundtrip holds
--   the theorem. Password/Login puts it under the password login.
--   Text: what the code uses of package strings; Scan: of fmt.Sscanf; Base64: encoding/base64.
--   Prelude: shared names, tests, case splits, integers and predicates on lists. Fixtures,
--   Tokens/Toy and each Examples: the theorems at concrete tables, and tests.
--
-- Bounds: times are nanoseconds as natural numbers, and a time before the zero of the clock stops
-- at it; counts are unbounded, since attempts stop at five and a window's count would need 2^31
-- requests to wrap. Durations that settings give may be negative (Prelude.Int). The fuel of a
-- decimal numeral is one more than the number and that of its padding is the width, which
-- Otp/Numeric proves to be enough; all other functions are structural.
--
-- Not modelled: operations that overlap. Runs are serial runs of whole operations, also where
-- the code takes no lock: DB.IssueCode (two that overlap can leave two codes that are not
-- consumed), DB.RevokeByToken, which reads and then updates outside a transaction, the check
-- of a session before what a guarded route does, and the report of a reuse, or a revocation
-- of a family, that overlaps a rotation of another row of that family. Further: the columns
-- that no code reads or writes (phone, phone_verified_at, the created_at of identities and
-- apps), cascades of deletes that the code never issues, timestamps rounded to microseconds
-- by Postgres, the opening of the pool and the migrations, the listener and its signals, HTTP
-- headers but for the cookies, the JSON codec, the texts of the pages, and the Rust SDK,
-- which is another language.
pub mod Api
pub mod Base64
pub mod Command
pub mod Config
pub mod Exec
pub mod Fixtures
pub mod Http
pub mod Identities
pub mod Linking
pub mod Notify
pub mod Oauth
pub mod Otp
pub mod Password
pub mod Prelude
pub mod Providers
pub mod RateLimit
pub mod Scan
pub mod Schema
pub mod Sdk
pub mod Sessions
pub mod Table
pub mod Text
pub mod Ticket
pub mod Tokens
pub mod Users
pub mod Web
