-- ===== src/Lib.antt =====
-- The HTTP network relay: TCP connections tunnelled over WebSockets. An edge agent stands in a
-- private network and keeps a WebSocket to the relay; the relay asks it to open TCP connections
-- and passes bytes both ways; an access client, or code in the relay's own process, is at the
-- other end. This library models the relay (http_network_relay/network_relay.py), the edge agent
-- (http_network_relay/edge_agent.py), the access client (http_network_relay/access_client.py),
-- the messages and frames between them (http_network_relay/pydantic_models.py), and the example
-- programs (http_network_relay/network_relay_example.py, http_network_relay/edge_agent_example.py
-- and http_network_relay/access_client_example.py).
--
-- Parts and files:
-- - Prelude: Boolean tests, lists, texts as lists of code points, Python's dictionaries as
--   association lists in insertion order (Prelude/Dict).
-- - Exception: the exceptions that the code raises or catches, and results that carry one.
-- - Frame: `encode_tcp_binary_frame` and `decode_tcp_binary_frame`, with `bytes.fromhex` and
--   `bytes.hex` (Frame/Hex) and the canonical text of a UUID (Frame/Uuid).
-- - Reads: what reading a stream in chunks gives.
-- - Base64: `base64.b64encode` and `base64.b64decode`, which carry TCP data in JSON messages.
-- - Messages: the message classes, a constructor for each. Their JSON is pydantic's: a `Codec`
--   parameter.
-- - Relay/World: the attributes of `NetworkRelay`, its connection objects on a heap, and the
--   actions `Relay A` on them. Relay/Connection: `TcpConnection` and `TcpConnectionAsync`,
--   as context managers in Relay/Connection/Managed.
--   Relay/Close: `close_relayed_connection` and `edge_agent_connection_close`. Relay/Agents: the
--   handlers of an agent's messages. Relay/MsgLoop: `_msg_loop` and `keep_alive`. Relay/Create:
--   `_create_connection` and `send_message_and_wait_for_answer`. Relay/Register:
--   `accept_ws_and_start_msg_loop_for_edge_agents`, and `ws_for_edge_agents` in
--   Relay/Register/Endpoint; Relay/Register/Registry: who is registered after it. Relay/AccessClients: `ws_for_access_clients` with `_await_reader`,
--   and `access_client_receive_thread` in Relay/AccessClients/Thread. Relay/Threads:
--   `TcpConnection.recv`, called from another thread, against the event loop; Relay/Sending:
--   `TcpConnection.send` and the tasks of `send_async` with their lock. Relay/Guarantee:
--   what an action keeps if the other tasks keep it. Relay/Invariant: the tables and the
--   connection objects over all methods of the relay, a module for each group of methods, and
--   Relay/Invariant/Reachable: the states that a relay comes to, and Relay/Invariant/Nested:
--   with runs of its own methods at every await.
-- - EdgeAgent/World: the attributes of `EdgeAgent`, and the actions `Edge A` on them.
--   EdgeAgent/Streams: `initiate_connection`, `read_from_tcp_and_send` and `write_to_connection`.
--   EdgeAgent/Session: the message loop of `connect_to_server` and the end of a session.
--   EdgeAgent/Main: `connect_to_server`, a round of `async_main`, and `keep_alive`.
--   EdgeAgent/Tunnel and EdgeAgent/Arrival: the relay and the agent at the two ends of a message.
-- - Client/Session: `AccessClient.async_main`, with `read_stdin_and_send` on its own, since the
--   two share only the WebSocket. Client/Input and Client/Output: the client and the relay at the two ends of a message. For a stream of bytes,
--   Client/Pipeline: client, relay and agent, with EdgeAgent/Writing for what the agent writes
--   and Relay/Connection/Framing for what the sends of a connection depend on; and
--   Client/Downstream with Client/Flow: the relay's reader and the client.
-- - Tunnel: the agent and the relay at the two ends of their WebSocket, with the messages on
--   their way to the relay, as steps; Tunnel/Upward, with Tunnel/Control for the messages that
--   are not data, Tunnel/Faithful and Tunnel/Filling: for the bytes of one connection, and
--   Tunnel/Drained: that nothing gets stuck.
--   Tunnel/Downlink: the other direction; Tunnel/Downward, with Tunnel/Orders, Tunnel/Writes,
--   Tunnel/Kept and Tunnel/Writing: for the bytes of one connection.
-- - Example/Credentials: the permission hooks of `NetworkRelayForAccessClients`, put in place of
--   the parameters of the relay, and `EdgeAgentForAccessClients.create_start_message`
--   (http_network_relay/edge_agent_example.py). Example/Registration and Example/Clients: the
--   relay with these hooks, which keep its invariant (Example/Harmless). Example/Relay and
--   Example/Agent: the classes of the relay's and of the agent's program, on top of Relay/Hooks
--   and EdgeAgent/Hooks, the methods of `NetworkRelay` and `EdgeAgent` for subclasses.
--   Example/Main: the three `main` functions, from the command line and the environment to the
--   object that is run; Example/Main/Programs: the programs of the clients against the relay's.
-- - Logging: http_network_relay/logging_utils.py.
--
-- How the code becomes a model. A coroutine is a function from a state to an outcome (a result,
-- an exception, or `pending`: suspended in an await that nothing has ended) and a state. The
-- outside is a record of parameters, `Env` for the relay, `EdgeEnv` for the agent and `ClientEnv`
-- for the client: what a call of a WebSocket or a stream answers, by the calls made before it,
-- what is received, the hooks of a subclass, and `others`, which is what the other tasks do to
-- the state at each await. A theorem that needs them to behave says so by a hypothesis:
-- `IsPolite` (a socket fails only by being gone), `IsQuiet` (the other tasks do not bring back
-- what is being closed; `NoReturn` is the same for one connection), `IsTame` (the other tasks and
-- the hooks keep the relay's tables and objects in order; `HasTameHooks` is for the hooks alone),
-- `LeavesRegistry` (they and the permission hook register nobody), `IsCalmReader` (a reader that
-- is awaited raises nothing but the timeout), `Steady` and `IsOwn` (the other tasks leave a
-- connection's framing or its TCP stream alone), and `Agree`, `AgentAgrees` and `RelayAgrees` (one
-- side validates what the other dumps). The calls are recorded in `trace`, newest first. Another thread is not a task: `recv` and the event
-- loop are a step relation with a step for each statement that touches what they share, and so
-- are `send` and the event loop. argparse is a parameter of the `main` functions: from the words
-- of the command line it gives the options that are given, or ends the program.
--
-- Bounds. Numbers are naturals, since the code has only ports, lengths and delays. `msg_loop` and
-- `session_loop`, like `client_loop` and `reader_loop`, take the number of rounds that they are
-- followed for, and are `pending` after them, as a loop is that waits for the next message; one
-- round is enough for the theorems on how they end. `read_loop` goes by the results of the reads,
-- in order. The async `read` takes the number of times that it looks at its buffer; two are
-- enough for a read that is woken once. `sleeps` and `main_round` go by rounds of `async_main`.
-- The text of a number is built in as many steps as its value, which has no more digits.
--
-- Not modelled: where a cancellation strikes in the cancelled task (`cancel` itself is a call in
-- the trace); the log calls in the code; argparse, `uvicorn.run` and `asyncio.run`, which the
-- `main` functions call; the tests.
pub mod Prelude
pub mod Exception
pub mod Frame
pub mod Reads
pub mod Base64
pub mod Messages
pub mod Relay
pub mod EdgeAgent
pub mod Client
pub mod Logging
pub mod Tunnel
pub mod Example
