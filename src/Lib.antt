-- ===== src/Lib.antt =====
-- Verification of the Privasys attested harness: the build-time scripts, the browser shell and
-- the egress gates that turn an upstream web application into one that is reachable only over a
-- sealed session and that talks only to attested enclaves.
--
-- Two scripts run when the image is built. web/apply-overlay.mjs patches the upstream tree: it
-- copies the overlay's files and replaces anchored texts. web/gen-bundle.mjs makes the allow-list
-- bundle out of the upstream one by dropping rows. In the browser web/privasys-shell.js signs the
-- user in, hands the sealed session to the application, carries its requests and its mux socket over
-- that session, and signs the user out. The patched application shows the attestation of each tool
-- call. The Go proxy in proxy/ carries the model and tool calls to enclaves that the deployment
-- declares, and stands in front of the application on the platform's port.
--
-- The parts, their files, and what each models:
--
--   Overlay.antt: `edit`, `put` and the run of a list of them. A tree is a list of paths and texts;
--     the replacement is JavaScript's `replace` with a text pattern, dollar patterns included. The
--     children Splice, Edit, Run, Stopped, FailClosed, Shipped and Ready are about these operations.
--   Overlay/Queue.antt and its children: the statements of web/apply-overlay.mjs, in its order, with
--     their labels, anchors and replacements: Assets, Connection, Presets, Skills, Llm, Interface
--     and Trajectory. Queue/Laws is about the whole script.
--   Bundle.antt: the script web/gen-bundle.mjs from the text that it reads to the text that it writes
--     or the error that it throws: the scan of the rows, the check that every dropped row exists,
--     the filter and the output. Rows, Parts, Spaces, Reread, Content, Generate and Outcome are about it.
--   Shell/Fifo.antt: the promise chain of installSealedTransport. Each turn of the event loop is a
--     step; a history of turns is `Reach`.
--   Shell/Route.antt: sealedFetch up to its request, isMux, carriesSealedProto, InterceptingWebSocket.
--   Shell/Socket.antt: class SealedWebSocketAdapter, each callback and method a function from the
--     adapter to the adapter after it, with the events and the calls in order.
--   Shell/SignIn.antt: run, showAuthFallback, onAuthenticated and logout as turns of the page. A
--     function that awaits is two turns, before and behind the await. SignIn/Claims: claimFromJwt.
--     SignIn/Invariant and SignIn/Laws are about the histories of the page.
--   Inspect.antt: web/overlay/trajectory/PrivasysAttestationTab.tsx, from the wire name of a tool
--     call and the pin summary to what the tab shows. Inspect/Mint: stableAttestationToken, which
--     web/overlay/brand/PrivasysAttestation.tsx has too. Inspect/Markup: the fetch of the pin
--     summary and the nodes. Inspect/Pinned: Pinned of depset.go, whose summary the tab reads. Hex,
--     Named and Laws are about them.
--   Proxy.antt: the egress proxy's dependency set, proxy/internal/attested/depset.go, and the gates of
--     dialVerified in transport.go. Proxy/Gate is about the gates, Proxy/Refresh about the set after
--     refreshes. Proxy/Pool: the transport's pool, with the connections that idle and that are in use,
--     and OnChange as a turn of its own behind the refresh; Pool/Laws is about it.
--   Egress.antt and its children: the egress proxy's other files, proxy/cmd/egress-proxy. Egress:
--     header maps, requests, the configuration (main.go) and recordSubject (subject.go).
--     Egress/Forward: the routes of the loopback listener and `forward` up to its request.
--     Egress/Shim: mcpshim.go, every branch of mcpShim, with Shim/Defaults, Shim/Replies and
--     Shim/Calls about the filled-in arguments, the replies and the requests. Egress/Scan: repro.go
--     and the copying loop of `forward`, with Scan/Copy, Bounds, Numbers, Finite and Lossless about it.
--     Egress/Ingress: serveIngress.
--   Page.antt: nodes with handlers and how a click bubbles; Page/Builder: `el` of privasys-shell.js.
--   Shell/Views.antt: the configuration, the options of the sign-in frame, the gate's views and
--     getTokenForAudience. Shell/Panel is about the fallback panel, Shell/SignIn/OneBoot about how
--     often the application starts, with the guard of web/overlay/apps-web/main.ts.
--   Sidebar.antt: web/overlay/brand/index.ts and the style guard; Sidebar/UserRow: PrivasysRows.tsx
--     with its effect and listeners; Sidebar/Report: PrivasysAttestation.tsx, the row, its panel
--     and its effect.
--   Common.antt and its children: lists, decisions, and texts as lists of character codes, with
--     the operations of JavaScript's texts that the parts use.
--
-- Every loop but one is structural recursion on its list, and needs no fuel. The copying loop of
-- `forward` runs on fuel: a round for each byte of the body and one for its end are enough. The
-- browser and the SDK are parameters: the URL parser, base64 and JSON decoding, the UTF-8 decoder,
-- and how the SDK's promises settle, which is an input of the steps. A callback that was
-- unsubscribed from the SDK's socket gets no more messages. React renders behind each handler, and
-- runs an effect where what it depends on has changed. The proxy's attestation library, the
-- attested client, the JSON library and the director of Go's reverse proxy are parameters too.
-- White space is that of JavaScript's \s, in the Go files that of unicode.IsSpace, and letters are
-- upper-cased in ASCII.
--
-- Not modelled: the texts of style sheets, the brand marks' drawings, the minting of audience
-- tokens by the SDK, the redirects that the attested client follows, the text of the ingress
-- port's attestation summary, log lines, the attested connection itself, the copied libraries of
-- web/vendor, and the scripts and data of the deployment.
pub mod Common
pub mod Overlay
pub mod Page
pub mod Bundle
pub mod Shell
pub mod Sidebar
pub mod Inspect
pub mod Proxy
pub mod Egress
