-- ===== src/Lib.antt =====
-- restconf: a RESTCONF server (RFC 8040) for modules in YANG, with its client, its access control and
-- its event streams. A request goes through the server's routes to a device, from there to the
-- handler of a module's browser, and what it asks of the application is done on the selections of
-- the packages freeconf/yang/node and nodeutil, which are not part of the repository.
--
-- The files and the code they model:
--   Text, Maps, Decimal: what the program uses of Go's strings, maps and strconv. A string is its
--     list of bytes, a map an association list.
--   Errors: error values and panics. Package fc's texts and status codes are the record Fc.
--   Address, Url (util.go): SplitAddress, SplitUri, decodeErrorPath, ipAddrSplitHostPort,
--     appendUrlSegment; shift and shiftOptionalParamWithinSegment with their string forms.
--   Http: requests and responses of net/http; Http/Report (util.go): handleErr.
--   Compliance (compliance.go, server.go, browser_handler.go): the options and determineCompliance.
--   Wire (wire_format.go): the envelopes.
--   Sse (browser_handler.go, client/sse_decoder.go): event frames and decodeSse.
--   Secure (secure/authorize.go, rbac.go, authenticate.go, mgmt.go): roles and their checks;
--     Generator (cred_gen.go) certificates.
--   Estream (estream/): Subscription is sub.go and recv.go, Apply and Delivery are Subscription.Apply
--     and its callback, Service is service.go, Manage the node of api.go.
--   Handler (browser_handler.go): Serve is ServeHTTP, Rpc the inputs and outputs of calls, Stream the
--     notification callback, Watching the open streams of concurrent requests.
--   Form (form.go): the nodes over a request that uploads files.
--   Server (server.go): the state and findDevice; Pages is web apps, streams and the static route,
--     Route is ServeHTTP, Setup is NewServer, Close and the server's own management (node.go).
--   Device (device/local.go): the local device, Modules and Startup what it has and how it is
--     configured; YangLib (device/yang_lib_node.go) the library of its modules that it publishes, Loader
--     (device/yang_lib.go) how another device reads it.
--   Stock (stock/web.go, stock/tls.go): a web server; Manage is WebServerNode, Files
--     StreamSourceWebHandler, Tls the certificates.
--   Client (client/client.go, client/node.go, util.go): NewAddress with FindDeviceIdInUrl and clientDo;
--     Node the requests of clientNode, Modes its reading and editing, Remote NewDevice and the modules
--     of the device, Stream clientStream with its channel, Events what becomes of one of its
--     events, Location the URLs of its requests, Reaches their way through the server.
--   CallHome (callhome/call_home.go): registration with a controller; Manage is call_home_node.go.
--   Tests: the theorems at concrete arguments.
--
-- A function that changes an object returns its new state. What the node package does is the record
-- Backend over a state of the application, files and media types are the record Web, and the YANG
-- parser is the record Schemas, Yang with the browsers of a local device, or Sources on the side of the
-- client: theorems hold for every choice of them, under the hypotheses they name; the network, the
-- readers of JSON, the nodes that a client reads and edits, the packages of certificates and the
-- controller of call home are the records Network, StreamNetwork, Json, NodeOps, Crypto and Remote. A nil
-- function or interface that is called is a panic (Run). Every loop but one is a recursion on its list.
-- CallHome.register_loop retries for as long as the controller is away, and runs on fuel, one unit a
-- round, which is enough when there is more of it than rounds that fail. A list node is asked for one row
-- after the other; the readers of rows in proofs run on fuel, and more of it than there are rows is
-- enough. Counters of 64 bits wrap around. A channel is the sequence of what is received from it.
--
-- Not modelled: the embedding of YANG files (ypath.go), the generator and the commands, goroutines
-- other than by the order of their effects, and logging.
pub mod Prelude
pub mod Text
pub mod Maps
pub mod Decimal
pub mod Errors
pub mod Address
pub mod Url
pub mod Http
pub mod Compliance
pub mod Wire
pub mod Sse
pub mod Secure
pub mod Estream
pub mod Handler
pub mod Form
pub mod Server
pub mod Device
pub mod Stock
pub mod Client
pub mod CallHome
pub mod Tests
