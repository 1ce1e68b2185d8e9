-- ===== src/Lib.antt =====
-- A verification library for vow, a personal data server for the AT Protocol whose users sign with a
-- passkey. It models the parts of the server that decide whom to trust and in which order things
-- happen: proofs of possession, sessions, OAuth clients and tokens, the queue of signing requests,
-- WebAuthn, the repository, the event log and the listings. They meet as they do in the server: the
-- token endpoint and the session middleware come behind the DPoP check, the loop of a signer session
-- verifies what the signer sends and answers the waiting requests through the hub, and the commits
-- that are made of the signatures go into the event log.
--
-- Prelude      names shared by all parts: results, stateful methods that may fail, texts, bytes.
-- Dpop         oauth/dpop. Nonce: nonce.go (Nonce, NewNonce, rotate, NextNonce, Check). Htu:
--              OauthParseHtu and OauthNormalizeHtu of internal/helpers/helpers.go. Jose: what is read
--              of a token. Proof and Manager: CheckProof of manager.go, with jti_cache.go.
-- Signer       server/signer_hub.go and the loop of server/handle_signer_connect.go. Conn: the queue of
--              one connection. Hub: SignerHub, as functions on the state of all connections and reply
--              channels; deliver takes what other goroutines do between its steps, and in Hub/Calls its
--              steps are calls of their own. Session: the turns of the loop.
-- WebAuthn     server/webauthn.go: Registration (parseAuthData, parseCOSEKey), Assertion
--              (verifyAssertion, derToRawECDSA), and Response, the check of a sign_response.
-- Auth         server/middleware.go and server/session.go. Legacy: handleLegacySessionMiddleware. Authed:
--              handleOauthSessionMiddleware, and both in the order of the routes. Sessions: createSession,
--              handleRefreshSession, handleDeleteSession.
-- OauthClient  oauth/client. Redirects and Validate: validateAndParseMetadata. Manager: GetClient.
-- Par          server/handle_oauth_par.go, with the authentication of a client (Authenticate,
--              oauth/provider/client_auth.go), behind the proof of Dpop and the client of OauthClient.
-- Authorize    server/handle_oauth_authorize.go (handleOauthAuthorizePost) and the request URIs of
--              oauth/helpers.go. Other handlers may write their approvals between the SELECT of one
--              and its UPDATE.
-- TokenEndpoint  server/handle_oauth_token.go: Exchange (authorization_code), Rotation (refresh_token).
-- Repo         server/repo.go. Cache: withRepo. Writes: the loop of applyWrites, putRecordBlock. Commit: the
--              rest of applyWrites, finaliseWriteFromState. Blobs: getBlobCidsFromCbor and the counts.
--              Libraries: the tree and the data model of indigo, which are parameters.
-- Events       server/persist.go: Log (Persist), Playback.
-- Listing      server/handle_repo_list_repos.go, and a client that follows its cursors.
--
-- Account      Codes: the codes that server/ mails for a password, an address and its confirmation, and
--              what a history of requests says of them. Create: handleCreateAccount of
--              server/handle_server_create_account.go, with the invite codes it spends, for one attempt
--              from its first statement to its last: attempts that run into each other are left out.
-- ServiceAuth  server/handle_server_get_service_auth.go, the tokens of server/handle_proxy.go, and
--              validateServiceAuth of server/service_auth.go (Validate).
--
-- State is passed explicitly: a method that may fail after it has written is a function from a state
-- to a result and a state (Prelude/Action). Pointers and channels are numbers that are given out in
-- order. Concurrent callers are lists of calls, each one critical section or one send outside of it; a
-- send into a full channel and the second closing of a channel are faults of the model. Times are numbers, in nanoseconds
-- where the code compares durations.
--
-- Bounds and fuel: the event log stays below 2^63 by a hypothesis on the counter. Playback takes
-- fuel for its pages; as much as there are rows behind the cursor, and one more, is enough; a
-- client of the listing needs no more. The digits of a number take the number itself as fuel, which
-- is enough since each digit divides it by 256.
--
-- Parameters: HMAC, SHA-256, base64, CBOR, JSON, ASN.1 and elliptic curves, the JWT and JWK
-- libraries, net/url, the Merkle search tree and the block store, the clock and the random
-- generator. What a theorem needs of them is a hypothesis of the theorem.
--
-- Not modelled: HTTP forms and headers, WebSocket upgrades, tickers and pumps, logging, templates and
-- mail, the PLC directory and IPFS; nor getRecordProof and commitRepo of the repository, the
-- listings but that of repositories, the PLC operations of an account and its deletion.
mod Prelude
pub mod Dpop
pub mod Signer
pub mod WebAuthn
pub mod Auth
pub mod OauthClient
pub mod Par
pub mod Authorize
pub mod TokenEndpoint
pub mod Events
pub mod Repo
pub mod Listing
pub mod Account
pub mod ServiceAuth
