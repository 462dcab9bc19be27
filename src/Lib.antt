-- ===== src/Lib.antt =====
-- thttpd-rs: the parts of the web server and of its migration proxy that carry their logic.
--
-- The server (rust/crates/thttpd-core, thttpd-http and the small crates beside them) accepts a
-- connection into a slot, collects bytes until a request is complete, asks the throttle table
-- whether the request may start, and sends a file at the pace that the table allows. The proxy (rust/crates/thttpd-migrate) stands
-- before two such servers, the C one and the Rust one: the router chooses a backend for a request
-- out of the pool by its health, its weight and its circuit breaker, and the outcome goes back to
-- the breaker.
--
-- Parts, with files below rust/crates:
-- * Match (thttpd-match/src/lib.rs): match_pattern and match_single on bytes. Match.Spec is the
--   description of patterns as items, Match.Decides the equivalence.
-- * Parse (thttpd-http/src/parse.rs, parse_state.rs, method.rs): got_request as a fold of the
--   transition table `step` over the bytes between the two indexes. An index beyond the buffer,
--   which panics in the code, gives `none`.
-- * Conn (thttpd-http/src/conn.rs) and Slot (thttpd-core/src/connection.rs): the connection record
--   and the slot that the event loop keeps, with their resets.
-- * Throttle (thttpd-core/src/throttle.rs): the table of rate limits; its loop over the entries is
--   `walk`. Reading the file is outside: `load` takes its lines. Integers are i64 with
--   wrap-around (Base.Int).
-- * Response (thttpd-http/src/response.rs, error.rs): the builder, build_full_response and the error
--   pages. The clock and the printing of dates are arguments.
-- * Mime (thttpd-mime/src/types.rs): figure_mime, with its loop over the extensions as `walk`.
--   Mime.Tables describes what a table has for an extension.
-- * Auth (thttpd-auth/src/lib.rs): auth_check2. The files, base64, UTF-8 and crypt are the record
--   AuthEnv. Auth.Given describes the credentials of a request and a password that fits its hash.
-- * Watch (thttpd-fdwatch/src/lib.rs): the tokens of the poll.
-- * Loop (thttpd-core/src/eventloop.rs): the handlers of a connection. A handler takes the slot and
--   what the connections share and gives both back, with no slot if it closed the connection; a
--   panic is `none`. Loop has close_connection and the transitions; Loop.Accept handle_accept;
--   Loop.Read handle_read; Loop.Request process_request, with the headers in Request.Fields and the
--   path in Request.Place; Loop.Static serve_static, whose part behind the checks is Static.Content;
--   Loop.Cgi extract_cgi_status; Loop.Send handle_send, handle_pause and handle_linger, with what a
--   slot and the server count after a write in Send.Spent; Loop.Status the codes and counts for the
--   log; Loop.Events the dispatch, the deadlines and the update of the throttles. What the clock, the
--   sockets and the file system answer is in the records Env, Event and Files. The start of a script
--   is the field dispatch_cgi of the record Stages. Events.Diagram names the edges between the states
--   of a slot, Owed the senders that closing a connection gives back, Static.Safe the cases of
--   serve_static for any predicate of its answer.
--   The loops that shorten a path (strip_path_info, prefix_matches) run on fuel, the length of the
--   path, which drops by one with each round at least.
-- * Circuit (thttpd-migrate/src/circuit.rs): the breaker of one backend. Each method takes the time
--   `now` in nanoseconds; the test of the error rate, an f64, is the field `exceeds` of the
--   configuration. Methods run one at a time: the races between the atomics of one method and
--   another's are not modelled.
-- * Backend (thttpd-migrate/src/backend.rs, health.rs): health, weight and the pool, with breakers
--   under the backends' names.
-- * Router (thttpd-migrate/src/router.rs): decide. The random picks, the clock, the request id and
--   what other tasks do to the breakers before an admission are the record Surroundings. The retry
--   loop of the weighted draw runs on fuel, the number of candidates, which drops by one with each
--   lost admission at least.
-- * Live (thttpd-migrate/src/state.rs): the live state, set_weights and rollback. A map is a list of
--   pairs; the control lock runs the commands one at a time.
-- * Config (thttpd-migrate/src/config.rs): validate; an error is a value, none is success. Whether a text
--   is a URI or a socket address is an argument. The u32 sum of the weights wraps.
-- * Diff (thttpd-migrate/src/diff.rs): diff_responses. Diff.Normal has the normalizers, whose loops over
--   an index pass over the bytes of a match by a count. A BTreeMap is the list of its entries in the
--   order of the keys. The digest is an argument.
-- * Forward (thttpd-migrate/src/forwarder.rs, shadow.rs, server.rs, control.rs): the headers that go on
--   to a backend, read_capped and the body that goes on behind it, and the frames of the control socket.
--   A body is the list of the frames that its stream gives, a map of headers their list. Forward.Named
--   describes the headers that concern one hop only.
-- * Url (thttpd-http/src/url.rs, and url_encode of dirlist.rs): escapes and normalised paths. The
--   conversion `from_utf8_lossy` is a parameter.
-- * Timers (thttpd-timers/src/lib.rs): the timer wheel. The binary heap is the list of its entries in
--   the order in which it pops them. The loop of `run` runs on fuel; one round more than there are
--   entries is enough, since an entry that is pushed again is not due.
-- * Cache (thttpd-mmc/src/lib.rs): the cache of mapped files. What the system calls answer and how
--   many connections hold a mapping are arguments.
-- * Date (thttpd-tdate/src/lib.rs): the calendar, date_to_epoch and the fields that
--   format_http_date prints, for years that are no negative numbers; a year that leaves an i32, as in a
--   checked build, is none. The loop over the years runs on
--   fuel; one round for each 365 days is enough. Parsing and printing the text are not modelled.
-- The module Samples has runs on concrete inputs.
--
-- Not modelled: sockets, processes, files and the async runtime, so neither dispatch_cgi nor the poll
-- loop of `run` nor the calls of hyper and tokio in the proxy; start-up and signals; logging and metrics; string decoding,
-- since strings are byte lists; configuration files, which serde reads.
pub mod Base
pub mod Match
pub mod Parse
pub mod Circuit
pub mod Backend
pub mod Router
pub mod Throttle
pub mod Conn
pub mod Slot
pub mod Response
pub mod Watch
pub mod Mime
pub mod Auth
pub mod Loop
pub mod Url
pub mod Date
pub mod Diff
pub mod Config
pub mod Forward
pub mod Cache
pub mod Live
pub mod Timers
mod Samples
