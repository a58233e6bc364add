-- ===== src/Lib.antt =====
-- V2bX: a proxy server for panels. It fetches nodes and users from a panel, hands them to one of three
-- proxy cores, and limits, counts and reports what the users do. This library models the code of the
-- program's own that keeps state.
--
--   Prelude    shared: Go's int and strings, maps and pointers, lists, errors
--   Format     common/format/user.go
--   Panel      api/panel: the records that a node and the panel exchange, the reports (Client),
--              Fetch (GetNodeInfo of node.go, New of panel.go) and Users (GetUserList); the fuel of
--              its loops is enough when it is more than the tokens and values of the body
--   Conf       conf/limit.go and conf/node.go: the settings of a node
--   Limiter    limiter: State (the types), Speed (determineSpeedLimit), Check (CheckLimit), Users
--              (AddLimiter, UpdateUser, the global table), Online (GetOnlineDevice), Rule
--   Counter    common/counter: Traffic (TrafficCounter), Conn (the counting connections), Slice (the
--              loop of GetUserTrafficSlice in core/hy2, core/sing and core/xray)
--   Core       core/interface.go: the operations of a proxy core; Selector is core/selector.go
--              and core/core.go
--   Task       common/task/task.go
--   Node       node: Users (compareUserList), Controller (its state, startTasks), Lifecycle (Start and
--              Close), Monitor (nodeInfoMonitor, SpeedChecker), Report
--              (reportUserTrafficTask), Nodes (node/node.go)
--   Hy2        core/hy2: Traffic (hook.go), Users (user.go), Events (logger.go), Nodes (node.go), Config
--              (config.go, with a child for each part, dynamic_cert.go and stateless_reset.go)
--   Sing       core/sing/hook.go and the users and traffic of core/sing/user.go
--   Xray       core/xray/user.go and core/xray/app/dispatcher/linkmanager.go; Dispatch is default.go of
--              the dispatcher: its links, Route (routedDispatch), Sniff (sniffer.go), Cached
--              (cachedReader, and countreader.go) and Override (shouldOverride, Dispatch, DispatchLink)
--   Tests      runs on concrete values
--
-- A function of the source has the same name here in snake case. Code that changes an object takes it
-- as an argument and returns it. Objects with more than one holder (a Limiter, a TrafficStorage) are
-- addresses in a heap, so that an alias sees every change. A panic is `none`, or `panics` in a handler.
-- A controller's handler runs on a World: the controller, the table of limiters and the core, of which
-- only the interface is known. The panel's answers, time.Now and the results of wrapped connections are
-- arguments; the token bucket, the regexp package and the cores are parameters. Go's int is an integer
-- with the wrap-around of 64 bits written out where the code computes.
--
-- Calls on one object are sequences: every sync.Map operation, lock and atomic counter is one step, and
-- theorems over all lists of entries cover every order in which Go ranges over a map. For a task the
-- goroutines are part of the state and interleave. Every loop runs over a list, except for
-- those of GetUserList, which have fuel.
--
-- The sniffing loop runs over the rounds of reading that there are, and a second node's interference with
-- a file is a list of what it writes. The sockets of Hysteria2 nodes are counted, as open or closed.
--
-- Not modelled: HTTP, TLS and ACME, the configurations built for sing-box and xray, the libraries
-- themselves (third_party and core/hy2/mimic are copies), generated code, logging and the command line.
pub mod Prelude
pub mod Format
pub mod Panel
pub mod Conf
pub mod Limiter
pub mod Counter
pub mod Core
pub mod Task
pub mod Node
pub mod Hy2
pub mod Tests
pub mod Sing
pub mod Xray
