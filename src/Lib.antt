-- ===== src/Lib.antt =====
-- The encrypted compute grid of pygrid/: its wire records, its signatures and cards, its node
-- agent, its client and its coordinator.
--
-- The program and the files that model it
--
-- A client seals a prompt to the key of a node, submits it to a coordinator and reads the sealed
-- answer; a node registers, sends heartbeats, pulls its jobs and posts results. The coordinator
-- routes ciphertext and keeps the state: nodes, jobs, idempotency keys and, behind a club key, the
-- nonces of the members that have submitted.
--
-- Base, Base/*        numbers, lists, association lists with the order of Python's dicts, lemmas
-- Json                what json.loads returns and json.dumps takes, over the type F of floats
-- Text, Runtime, Net    code points; the platform, the floats and the network as records of
--                     operations
-- Protocol            pygrid/protocol.py: NodeInfo, JobEnvelope, their dict forms, the enumerations
-- Protocol/Text       their to_json and from_json
-- Crypto              pygrid/crypto.py: signing_message, _request_signature, canonical_json, verify
-- Crypto/Box, Pairs   keygen, sign_keygen, seal, unseal; what a pair of keys is good for
-- Crypto/Wire         js_round_trip of pygrid/testkit.py
-- Club                pygrid/club.py: issue, check_card, the card header
-- Club/Fingerprint, Art, Svg    its fingerprints, _esc and render_svg
-- Club/Files, Commands    its keyfiles and card files; _cmd_init, _cmd_issue, _cmd_show
-- Node                NodeAgent of pygrid/node.py: measure_watts, build_receipt; pygrid/watts.py
-- Node/Calls, Said, Registered    its _http, register, heartbeat and pull, over a network parameter,
--                     and what the other side has answered when they return
-- Node/Work, Rounds, Answered    its _infer, process, _heartbeat_if_due, run_once, run_forever
-- Node/Keys           make_keys and load_keys of pygrid/node.py
-- Client, Client/Receipts    GridClient of pygrid/client.py: nodes, verify_receipt
-- Client/Pages, Walk, Complete    that walk against the pages of the coordinator
-- Client/Setup, Calls    its __init__ with card and member key, _call, status
-- Client/Choice, Submit    pick_node, _node_record, submit and the book of reply keys
-- Client/Wait, Answer, Line    _await_done, result_with_receipt, result, run, format_receipt
-- Client/JobFile      the commands submit and result of its main, and _write_job_file
-- Client/Delivery     a prompt from the client to the node, and the answer back by the coordinator
-- Client/Admitted     a carded submission of the client at the member gate of the coordinator
-- Coordinator/State, Filed    MockCoordinator of pygrid/testkit.py: the dicts and their helpers
-- Coordinator/Nodes   _register, _heartbeat; Coordinator/Listing: _list_nodes, stats
-- Coordinator/Headers, Gate    _headers and _member_gate
-- Coordinator/Submit, Pull, Result    _create_job, _pull, _result and _job_status
-- Coordinator/Routes  _read_body, _json_body, do_GET, do_POST
-- Coordinator/Life, Table, Effect, Keeps, Invariant, Runs    the life of a job as a step relation,
--                     what each request does in those terms, and what holds along every run
-- Engine              MockEngine of pygrid/testkit.py, what its echo is to the node
-- Tests               runs on a small platform
--
-- One reading of the clock serves all nodes in one answer of _list_nodes or stats. Between client
-- and coordinator a json document arrives as it was sent.
--
-- A record of Python is a record, a dict an association list in insertion order, and an operation
-- a function from the state to the state and the reply. A request takes what it reads of its
-- surroundings from a World: two readings of the clock (the gate reads it at its checks, the rest
-- once), milliseconds, and the uuid that uuid4 would return. An exception that nothing catches is
-- the reply crash. Handlers change the state under one lock, so a run is a sequence of requests
-- (Reach); a submission takes the lock twice, for the gate and for the creation of the job, so each
-- of the two is a step of a run as well. A fresh uuid is an assumption of each step, as uuid4 promises it.
--
-- What is a parameter: json, base64, urllib, hashlib, the Unicode tables, the paths of os.path and
-- PyNaCl (Platform), the floats (Runtime), and the network, the clocks, the random source and the
-- meter (Net), over a state that calls and pauses change. No theorem assumes a law of them beyond
-- the hypotheses it writes out. base64 decoding takes a string and is none for text that is not
-- ASCII or not base64. A key or a nonce is made of a draw of the random source, which is an
-- argument. Files are a map from absolute paths to texts whose directories can be written.
--
-- Recursion is structural but for the polling of the client, which is a loop with no bound of its
-- own: await_until takes a number of rounds and is none when they are used up, and await_until_ends
-- shows which number is enough. run_rounds is any number of the rounds of run_forever. The walk of
-- the client over the node list counts down from its own bound, MAX_NODE_PAGES. Lengths of strings
-- count code points.
--
-- A call ends with an answer, with a URLError, which the client turns into a CoordinatorError, or
-- with another exception, as a timeout while the answer is read, which goes through (Answer). Where
-- json.loads raises what its caller does not catch, the digits of a huge number or the depth of a
-- document, loads_escapes says so. js_round_trip is the function of testkit, which keeps ints of any
-- size; a javascript server keeps those up to 2^53 - 1.
--
-- An exception is none, where callers do not tell the kinds apart; the client's are values of Error,
-- without their detail texts. The walk over the node list takes the documents that its calls return
-- as a function of the call's number and path; every other call goes through Net.
--
-- Not modelled: a RecursionError in _parse_json of the node, and exceptions of json.loads in
-- _text_of other than JSONDecodeError; the sockets and threads of http.server and the record of
-- requests kept for tests; the second reply to an oversized POST on an unknown route; texts in bytes
-- given to from_json; argument parsing and what commands print, for display only; the warning about
-- an engine that is not local; the javascript coordinator, which is not Python.
pub mod Base
pub mod Client
pub mod Club
pub mod Coordinator
pub mod Crypto
pub mod Engine
pub mod Json
pub mod Net
pub mod Node
pub mod Protocol
pub mod Runtime
pub mod Tests
pub mod Text
