-- ===== src/Lib.antt =====
-- The planning and delivery core of mmat, and the state of its live view.
--
-- A plan is a tree of domain nodes (src/plan/domain_map.rs). Discovery (src/plan/discovery.rs) grows
-- the tree, and nodes can depend on other nodes. For the delivery, the leaves of the tree become the
-- nodes of a delivery graph (src/deliver/delivery_graph.rs), which orders them into batches. A
-- failed delivery flows back (src/plan/backflow.rs): a critical event cascades to the nodes that
-- depend on its source and puts them back into planning. The build queue (src/deliver/queue.rs) keeps
-- the jobs of each project and runs them one by one, or batch by batch along a delivery graph. The
-- engine (src/deliver/engine.rs) executes one job: it plans tasks, implements, checks and reviews each,
-- and repeats what the final review asks for. The live view (src/liveview/state.rs) keeps what each
-- project shows: conversations, events, prompts. Projects are described in src/project.rs.
--
-- Which file models what:
--   Prelude        lists, ids, maps, results, reachability and searches that the parts share
--   Plan/Discovery    the records of src/plan/discovery.rs that the tree reads
--   Plan/DomainMap    `DomainTree` and its operations, under their names; in its folder: Depends for
--                  `depends_on`, Acyclic for `add_dependency`, WellFormed, Update, Growth and Apply
--                  for `add_child` and `apply_discovery_output`, Traversal for `remove_subtree` and `bfs`
--   Plan/Backflow     `BackflowCascade` and the rest of src/plan/backflow.rs; in its folder: Walks and
--                  Cascade for `compute`, Apply for `apply_to_domain_tree`
--   Deliver/DeliveryGraph   the data of src/deliver/delivery_graph.rs, `add_node`, `add_dependency`;
--                  in its folder: Cycles for `would_create_cycle`, Valid for the construction
--   Deliver/Batches   `compute_batches`, `from_domain_tree`, `active_batch`, `advance_batch`; in its
--                  folder: Degrees and Counted for the two counting loops, Release, Rounds and Loop
--                  for the main loop, Schedule and Cyclic for the whole, LeafNodes and FromTree for
--                  `from_domain_tree`
--   Deliver/Queue     the table of src/deliver/queue.rs and the statements on it; in its folder: Worker
--                  for the drain loops and Execute for `execute_delivery_graph`, Columns and Oldest
--                  for updates and `next_pending`, Drain and Changes for the loops and the rest,
--                  Futures and Emptied for a batch and for what `execute_delivery_graph` leaves
--   Deliver/Models    the records of src/deliver/models.rs
--   Deliver/Engine    `ordered_task_cards` and `remediation_plan` of src/deliver/engine.rs; in its
--                  folder: Steps for what a delivery calls and writes, Tasks for
--                  `execute_task_cards` and what it calls, Run for `run`; Ordered for the order of
--                  the tasks, Ends, Delivered, Executed and Outcomes for how a delivery ends,
--                  Severity for the backflow, Repeated for remediation with known ids
--   Deliver/Progress  `progress`; in its folder: Totals for its counters
--   Projects       `ProjectConfig` of src/project.rs; in its folder: Paths for `normalise_root`, with
--                  Roots below it, Registry for `ProjectRegistryStore`, with Registered below it,
--                  Collections for the names of knowledge collections, with Clean, Names and
--                  Split below it
--   LiveView/Texts    the methods of `str` that src/liveview/state.rs calls
--   LiveView/Conversation   a conversation of src/liveview/state.rs and what is done to it; in its
--                  folder: Capped for its length, Stream for the deltas of an answer
--   LiveView/State    `UiState`; in its folder: Methods, Talk and Send for its methods, Snapshot for
--                  `new`, `with_projects_and_conversation_store` and `snapshot`, Calls for any sequence
--                  of calls; Entries for `entry().or_default()`, Keeps for what all methods keep,
--                  with Parts and Actions below it, Capped, Mirrored, Restart, Events, Messages,
--                  Replies and Streams for what is proved with it; Register for `register_project`
--
-- State and operations. A Rust struct is a record and an enum a data type, with the source's
-- words. `&mut self` becomes a tree or graph that is passed and returned. A `HashMap` of a tree or a
-- graph is an association list in the order in which the code iterates over it, and the theorems hold
-- for every such order. The two local maps of `compute_batches` are in the order of insertion; the
-- order of `in_degree` decides the order of the ids inside a batch only, which the theorems leave
-- open. A `HashSet` is a list of ids whose order is not read. A node id, a UUID, is the number that it
-- is. `Uuid::new_v4` is an argument, a supply of ids: what the code relies on is that they are
-- fresh and distinct, and theorems that need it say so. `usize` counters of nodes and depths
-- are natural numbers: they count entries that are in memory and cannot overflow.
--
-- Loops and fuel. The `while let` loops of the searches run on fuel: two more than the edges of the
-- graph for `would_create_cycle`, `depends_on` and `compute`, since each visited node adds its edges
-- once, and two more than the nodes for `compute_batches`, since each round has a batch. The
-- theorems on these operations hold with exactly this fuel, so it is enough. Where the code would
-- panic, at an `expect` or at a subtraction below zero, `compute_batches` returns `none`.
--
-- The build queue. SQLite's table is the list of its rows in the order of insertion; the five
-- statements are written out, with ties of `ORDER BY created_at` in that order. The engine's run of
-- a job is an argument, as are the clock and the order in which the futures of a batch finish. A
-- drain needs fuel for one round more than there are pending jobs. Failures of the database itself,
-- other clients that write while a loop runs, and the text encoding of rows are left out.
--
-- The build engine. A delivery asks the language model, the worktrees, cargo and the artefact store:
-- `Services` answers the calls in their order, in any way. What is written to the store is kept,
-- newest first. The loop of `run` has fuel for the three rounds that `MAX_REMEDIATION_PASSES` allows,
-- and that it never runs out is part of what is proved. Prompts, the set-up of the model and its
-- tools, and logs are left out. Ids of tasks are numbers, as they are only compared and shown.
--
-- The live view. `UiState` locks what it uses in each method; a method is a function on the whole
-- state, and a list of calls is run one call after the other. Calls that overlap are not modelled: the
-- code takes several locks one by one, and saves a conversation after the lock on the states is
-- released, so overlapping calls can save in another order than they change the state, and can add
-- events in another order than they number them. Numbers of events are `u64` and wrap around. A
-- `watch` channel drops a value when nobody listens, so the number of listeners is kept, which
-- subscribing raises and dropping a listener lowers; the ends of other channels are numbers, and
-- whether one is still there is an argument of the methods that send. The conversation store is a
-- map, and saving to it and loading from it succeed, where the code only logs a save that fails. The
-- maps are ordered by insertion; no theorem reads that order.
--
-- The projects. The registry's table is the list of its rows; the file system and the environment
-- answer as parameters. The two loops of src/project.rs are the fold of `normalize_path` and the
-- `while` loop of `sanitise_collection_component`, which has fuel for the length of the text, since
-- each round makes it shorter.
--
-- Not modelled: the planning prompts and flow (src/plan/mod.rs, src/plan/solutions.rs,
-- src/plan/architect.rs and most of src/plan/discovery.rs), the knowledge store
-- (src/plan/knowledge.rs) and the web front end, which are input and output for the most part.
pub mod Prelude
pub mod Plan
pub mod Deliver
pub mod Projects
pub mod LiveView
