-- ===== src/Overlay/Queue/Connection.antt =====
-- web/apply-overlay.mjs, sections 2a, 2b and 2g (b): the gateway and the connection.
use attested_harness.Common.{[], ◌∷◌, codes, text}
use attested_harness.Overlay.{Op, patch}

-- The mux server takes binary frames.
abbrev pub accept_binary_frames : Op
accept_binary_frames = patch (codes "packages/api/gateway/src/stream-server.ts") (
    record {
      label = codes "mux server binary-frame acceptance";
      find = text (
          "      this.socket.on('message', (data, isBinary) => {\n" ∷ "        if (isBinary) {\n"
          ∷ "          this.socket.close(1003, 'text messages required')\n" ∷ "          return\n"
          ∷ "        }\n" ∷ "        try {\n" ∷ "          this.receive(rawText(data))\n"
          ∷ "        } catch {\n"
          ∷ "          this.socket.close(1008, 'invalid Remote stream request')\n" ∷ "        }\n"
          ∷ "      })" ∷ []);
      replace = text (
          "      this.socket.on('message', (data, _isBinary) => {\n"
          ∷ "        // Privasys: the sealed relay (enclave-os " ∷ "sessionrelay/websocket.go)\n"
          ∷ "        // writes client->app frames as binary; rawText() decodes\n"
          ∷ "        // Buffer/ArrayBuffer as UTF-8, so accept both opcodes instead of\n"
          ∷ "        // rejecting binary.\n" ∷ "        try {\n"
          ∷ "          this.receive(rawText(data))\n" ∷ "        } catch {\n"
          ∷ "          this.socket.close(1008, 'invalid Remote stream request')\n" ∷ "        }\n"
          ∷ "      })" ∷ []);
    }
    ∷ [])

-- The launch-token guard is left to the attested ingress.
abbrev pub defer_launch_token : Op
defer_launch_token = patch (codes "packages/client/connection/src/rpc-host.ts") (
    record {
      label = codes "requestRejection launch-token deferral";
      find = text (
          "  requestRejection(request: ConnectionTrustRequest): " ∷ "ConnectionRequestRejection {\n"
          ∷ "    if (!isTrustedApiRequest(request, this.trustedHosts)) return 403\n"
          ∷ "    return this.browserAuth.isAuthenticated(request) ? undefined : 401\n" ∷ "  }"
          ∷ []);
      replace = text (
          "  requestRejection(request: ConnectionTrustRequest): " ∷ "ConnectionRequestRejection {\n"
          ∷ "    if (!isTrustedApiRequest(request, this.trustedHosts)) return 403\n"
          ∷ "    // Privasys: trusted Host == attested ingress == authenticated (see "
          ∷ "note above).\n" ∷ "    return undefined\n" ∷ "  }" ∷ []);
    }
    ∷ record {
      label = codes "authorizeIndex launch-token deferral";
      find = text (
          "  authorizeIndex(request: ConnectionIndexRequest, response: "
          ∷ "ConnectionIndexResponse): boolean {\n"
          ∷ "    return this.browserAuth.authorizeIndex(request, response)\n" ∷ "  }" ∷ []);
      replace = text (
          "  authorizeIndex(request: ConnectionIndexRequest, response: "
          ∷ "ConnectionIndexResponse): boolean {\n"
          ∷ "    // Privasys: a trusted-host index request came through the measured\n"
          ∷ "    // ingress, so serve the SPA without the launch-token cookie the sealed\n"
          ∷ "    // relay cannot carry (ConnectionIndexRequest extends "
          ∷ "ConnectionTrustRequest).\n"
          ∷ "    if (isTrustedApiRequest(request, this.trustedHosts)) return true\n"
          ∷ "    return this.browserAuth.authorizeIndex(request, response)\n" ∷ "  }" ∷ []);
    }
    ∷ [])

-- The demo transport is off.
abbrev pub drop_fixture_transport : Op
drop_fixture_transport = patch (codes "packages/client/connection/src/client/index.ts") (
    record {
      label = codes "fixture transport removal";
      find = text (
          "  const fixture = pageLocation !== undefined && new "
          ∷ "URLSearchParams(pageLocation.search).has('fixture')\n"
          ∷ "  const fixtureRpc = fixture ? createFixtureConnectionRpc() : undefined" ∷ []);
      replace = text (
          "  // Privasys: the ?fixture demo transport (DeepSeek-authored sample\n"
          ∷ "  // content, reachable by query string) is disabled in this deployment.\n"
          ∷ "  void pageLocation\n" ∷ "  void createFixtureConnectionRpc\n"
          ∷ "  const fixtureRpc = undefined" ∷ []);
    }
    ∷ [])
