-- ===== src/Lib.antt =====
-- A model of toolhive-core, the Go library that the servers of ToolHive share. The parts modelled
-- do not call one another, except that Clients calls Hosts, which calls Addresses, and that the
-- paths of archives and of mounts are cleaned by the same function of Go's library (Base.Clean).
-- Each is a module, with its proofs in modules below it, named for what they prove, and concrete
-- runs in its Tests.
--
-- - Base: what the parts share: lists measured by native numbers, texts as lists of bytes with
--   the functions of Go's strings and path packages that are used, strconv.Atoi on 64 bits,
--   results that may be errors, and maps as association lists.
-- - Authn (authn/validate.go, keyprovider.go, errors.go): a bearer token from its header to a
--   principal. parse_bearer reads the header, validate runs the tests of Validate in their order,
--   verification_keys finds the candidate keys, and its state (Authn.Lookup) holds the time of
--   the last refresh and the cache of unknown key ids that recordBadKID bounds. The JWT library,
--   the cache of key sets, the local key provider and the clock are fields of a record, with what
--   the code relies on as named hypotheses.
-- - Delegation (audit/delegation.go): ParseDelegationChain on decoded JSON values. The walk up to
--   the cap (parse_hops) recurses on the cap; the walk past it (count_remaining_hops) is on fuel,
--   the nesting of the value, which Delegation.Chain shows is enough for every value.
-- - Ports (networking/port.go): the search for a port and ParsePortSpec. Listening, closing and
--   random numbers act on a world that is passed on from call to call; the searches recurse on
--   the number of attempts, 10 random ones and then each port from 10000 to 65535.
-- - Oci (oci/artifact/tar.go, validate.go): the files taken out of a tar archive, and the checks
--   of ValidatingTarget.Push. The tar reader's entries, digests, the JSON parser and the wrapped
--   target are parameters.
-- - Addresses (networking/utilities.go): which addresses IsPrivateIP refuses. An address is the
--   number of its sixteen bytes. The call on an embedded address is on fuel 2: an embedded
--   address embeds no other.
-- - Hosts (networking/utilities.go) and Clients (networking/http_client.go): the tests of hosts
--   and URLs, and the builder of HTTP clients with what a client refuses to send, to dial or to
--   follow. Hosts calls Addresses for the addresses that are dialed. The parsers of URLs and
--   addresses and the reading of files are parameters.
-- - Redis (redis/config.go, and buildClient of redis/client.go): the tests of a configuration,
--   its defaults and the kind of client built for it.
-- - Group (validation/group/group.go): names of groups.
-- - KeepAlive (mcpcompat/server/keepalive.go): the writer that sends comments on an idle event
--   stream. Each critical section of its mutex is a step, and a run is a list of the handler's
--   and the goroutine's steps in any order. The parser of media types is a parameter.
-- - Server (mcpcompat/server/session.go, transports.go, callgate.go, request_handler.go):
--   Server.Objects has the heap of sessions with the maps that hold addresses in it,
--   Server.Overlays what a session adds to its SDK server, Server.Sessions the methods of the
--   registry, and a history is a list, in any order, of the atomic operations of its methods,
--   which take no lock; Server.Http routes a request by the gate, the registry and the manager of
--   session ids, and follows each request as if it ran alone. Server.Messages answers one message
--   at a time. The SDK (Server.Sdk), the manager, its store and the JSON parser are records of
--   operations, with what the code relies on as named laws.
-- - Registry (registry/types, registry/converters/toolhive_to_upstream.go,
--   upstream_to_toolhive.go, utils.go): entries of a registry, their conversion to the upstream
--   format and back. JSON and URLs are parameters: nothing is asked of JSON, so what it makes of
--   the extensions stays open, and of URLs the port of an address of localhost is a named law.
-- - Mounts (permissions/profile.go): mount declarations, on a host whose paths have slashes.
--
-- Texts are bytes; letters and white space are those of ASCII. A native String is used where a
-- text is only compared. Times and sizes are natural numbers, or integers where the code tests a
-- sign; 64-bit bounds are written out where they can be reached. On fuel are the test of private
-- addresses (private_within: 2), the count of the hops that a chain leaves out
-- (count_remaining_hops, and parse_hops that calls it: the nesting of the value) and the length
-- of a number in bits (bit_len_from: the number itself); each is shown to have enough. Each other
-- recursion is on the data or on the code's own count.
--
-- Not modelled: the rest of the servers and clients of MCP, signatures, telemetry, the
-- configuration of Postgres and logging, which are calls of libraries or input and output for the
-- most part, and of the files above the functions that only print, copy or build a value.
pub mod Base
pub mod Authn
pub mod Delegation
pub mod Ports
pub mod Oci
pub mod Group
pub mod Mounts
pub mod Addresses
pub mod Redis
pub mod KeepAlive
pub mod Registry
pub mod Server
pub mod Hosts
pub mod Clients
