-- ===== src/Lib.antt =====
-- The authentication core of Kovcheg: accounts, e-mail challenges, application sessions, passkeys
-- and administration, as the service apps/auth keeps them; the history of a chat, from the API's
-- database to the timeline of the web client; and the relay of events to the API.
--
-- AuthService (apps/auth/src/a2/auth-service.ts) normalises what callers send, consumes rate
-- limits, and calls a repository and a rate limiter through the ports of apps/auth/src/a2/ports.ts.
-- The implementations that keep their state in memory are those of apps/auth/src/a2/local-
-- adapters.ts.
--
-- Auth/Types.antt has the records of apps/auth/src/a2/contracts.ts, of ports.ts, and of
-- packages/contracts/src/principal-authorization.ts.
--
-- Auth/Repository has `LocalAuthRepository`. State.antt has its eight maps as the record
-- `Repository`; Administration.antt, Sessions.antt, Challenges.antt and Passkeys.antt have one
-- function per method, named as in the source with underscores (`authenticate_session` is
-- `authenticateSession`). A method is a function from the state to a result and the state that it
-- leaves (Base/Outcome.antt); what it wrote before a throw stays. Calls.antt has the queue that
-- runs one method at a time: a history is a list of calls, and `run` folds them over the state.
-- Cases, Closure.antt, Evolution and Invariants lead from the methods to all histories: Cases lists
-- the writes of each method, Closure.antt states what a property must survive to hold after every
-- history, Evolution compares the objects at two times, and Invariants has what holds of the state
-- at each time. Properties has what the callers rely on.
--
-- Auth/RateLimiter.antt has `LocalRateLimiter` and `UnavailableRateLimiter`;
-- RateLimiter/Window.antt compares the first with a limiter that forgets nothing, and Refusals.antt is
-- about attempts that are refused.
--
-- Auth/Service has `AuthService`: Policy.antt the policy and the checks of the constructor,
-- Inputs.antt the normalisers, World.antt the state that the service reaches (repository, limiter,
-- deliveries under way), Limits.antt the rate limits and the neutral delay, Sessions.antt and
-- Administration.antt the methods, Properties what is shown of them. Auth/Tests has the theorems at
-- concrete inputs.
--
-- Auth/PasskeyService has `PasskeyService` (apps/auth/src/a2/passkey-service.ts), which works on the
-- same repository: World.antt its dependencies and its state, with the pending ceremonies behind the
-- port `PasskeyCeremonyStore`; Inputs.antt the checks; Steps.antt the private methods; Registration.antt
-- and Authentication.antt the methods. Ceremonies.antt states what a ceremony store promises and
-- follows a ceremony through the calls, Logins.antt takes an authentication apart, and Properties.antt
-- has what callers rely on; CredentialIds.antt is about the ids of credentials, with Text/Base64.antt
-- about base64url, and Errors.antt and Errors/Methods.antt about what the methods throw.
-- Auth/SessionCookie.antt is apps/auth/src/a2/session-cookie.ts;
-- SessionCookie/Parts.antt is about the parts of a header, and RoundTrip.antt about reading back.
--
-- Chat has the reading of a chat's history in apps/api/src/message-flow: Validation.antt the
-- parsers of a request's parts, History.antt the service and the paging of the PostgreSQL
-- repository, Failures.antt its errors. Web/History.antt has the way of a page to the client: the
-- route apps/web/src/app/bff/chats/[chatId]/messages/route.ts and the parsers of
-- apps/web/src/a6/contracts.ts. Web/CatchUp.antt has the loop of apps/web/src/app/chat-panel.tsx that reads the pages
-- which the client has missed; CatchUp/Pages.antt is about one page, CatchUp/Complete.antt about the
-- loop, and CatchUp/Requests.antt about the loop over the web server and the API.
--
-- Web/Timeline.antt has apps/web/src/a6/message-state.ts: the items that the client shows for a
-- chat, of which some are not sent yet, and how messages from the server are merged into them.
-- Timeline/Order.antt is about the order of the items, Timeline/Merge.antt about what a merge
-- shows, and Timeline/Retry.antt about sending again. Web/Tests.antt has the theorems at a small
-- chat.
--
-- Realtime/Relay.antt has `RealtimeRelay` of apps/worker/src/realtime/realtime-relay.ts, and
-- Realtime/Acknowledged.antt what it acknowledges. Realtime/Deduplicator.antt has the deduplicator of
-- packages/contracts/src/realtime.ts, and Realtime/Window.antt compares it with one that forgets
-- nothing. Base/Chains.antt has the lemmas on chains of calls that these parts share.
--
-- Representation. A string is the list of its UTF-16 code units (Text.antt); a `Map` is its list of
-- entries in insertion order (Dict.antt). Times and lifetimes are whole milliseconds, as natural
-- numbers without a bound, but for the neutral delay, whose times are ticks of a finer clock; a comparison of a difference of times has the subtraction moved to its
-- other side. An object that two maps refer to is stored once, and the other map holds its id.
-- Identifiers are strings. A chat sequence is the number that its numeral denotes. Loops run over
-- lists, but for two: a numeral is made on fuel (Text/Numerals.antt), which is the number itself and one
-- more, and `value-decimal` shows that it is enough; and the client's loop counts its 20 pages as the
-- source does. A chat in the database is the list of its messages in ascending order, and a
-- PostgreSQL query selects from it as its text says.
--
-- Parameters. The keyed hashes of `AuthCrypto`, `toLowerCase`, `localeCompare`, the WebAuthn library,
-- `Date.parse`, the database of a chat with its permissions and errors, the API that a relay posts to, and for the services the rate
-- limiter and the ceremony store are arguments. What the clock and the random source give is an
-- argument of each call, so the theorems hold whatever they give.
--
-- Not modelled: the arguments that the local repository ignores (`correlationId`, `reason`,
-- `version`), object freezing, the texts of error messages, the timers (but for how long `setTimeout` waits for a delay), the PostgreSQL
-- and Redis implementations of the auth ports, the OIDC provider, the controllers, the writes of the
-- API (functions of the database), its socket gateway, the outbox, the JSON parsers of packages/contracts,
-- and the web application around the timeline. A delivery is started by a request and ends in a step
-- of its own (`finish_delivery`), so other calls may come between.
pub mod Base
pub mod Text
pub mod Dict
pub mod Auth
pub mod Chat
pub mod Realtime
pub mod Web
