-- ===== src/Deliver/Progress/Totals.antt =====
-- The counters of `progress` of src/deliver/delivery_graph.rs.
use mmat.Prelude.{
  ℕ, ◌+◌, ◌≡◌, refl, inl, inr, ◌==◌, Bool-cases, false, none, some, List, [], ◌∷◌, map, arith,
  ==_iff, length, all,
}
use mmat.Prelude.Map
use mmat.Prelude.Map.{Map, contains-keys}
use mmat.Prelude.Nodup.{Subset}
use mmat.Deliver.DeliveryGraph.{
  DeliveryBatchProgress, DeliveryProgress, DeliveryJobStatus, pending, running, succeeded, failed,
  set_status, update_node, DeliveryNode, DeliveryBatch, DeliveryGraph,
}
use mmat.Deliver.Progress.{
  is_pending, is_running, is_succeeded, is_failed, is_terminal, tally, batch_is_completed,
  node_progress, batch_progress, progress,
}

tally-total :
    (nodes : Map DeliveryNode)
    → tally is_succeeded (Map.values nodes)
        + tally is_failed (Map.values nodes)
        + tally is_pending (Map.values nodes)
        + tally is_running (Map.values nodes)
      ≡ length nodes
tally-total [] = refl
tally-total ((id, node) ∷ nodes) = ground (arith, tally-total nodes)

-- The counter of a status.
abbrev pub nodes_with : DeliveryJobStatus → DeliveryProgress → ℕ
nodes_with pending p = p.pending_nodes
nodes_with running p = p.running_nodes
nodes_with succeeded p = p.succeeded_nodes
nodes_with failed p = p.failed_nodes

-- One if the two statuses are the same.
abbrev pub same_status : DeliveryJobStatus → DeliveryJobStatus → ℕ
same_status pending pending = 1
same_status running running = 1
same_status succeeded succeeded = 1
same_status failed failed = 1
same_status _ _ = 0

-- The counters of a list of nodes.
tally_of : DeliveryJobStatus → List DeliveryNode → ℕ
tally_of pending nodes = tally is_pending nodes
tally_of running nodes = tally is_running nodes
tally_of succeeded nodes = tally is_succeeded nodes
tally_of failed nodes = tally is_failed nodes

nodes_with-progress :
    (status : DeliveryJobStatus) (graph : DeliveryGraph)
    → nodes_with status (progress graph) ≡ tally_of status (Map.values graph.nodes)
unfolding progress tally_of
nodes_with-progress pending graph = refl
nodes_with-progress running graph = refl
nodes_with-progress succeeded graph = refl
nodes_with-progress failed graph = refl

tally_of-first :
    (status : DeliveryJobStatus) (node : DeliveryNode) (nodes : List DeliveryNode)
    → tally_of status (node ∷ nodes) ≡ same_status node.status status + tally_of status nodes
unfolding tally_of
tally_of-first pending node nodes = ground arith
tally_of-first running node nodes = ground arith
tally_of-first succeeded node nodes = ground arith
tally_of-first failed node nodes = ground arith

tally_of-update :
    (id : ℕ) (new status : DeliveryJobStatus) (nodes : Map DeliveryNode) (node : DeliveryNode)
    → Map.get nodes id ≡ some node
    → tally_of status (Map.values (Map.update id (λ n. record n { status = new }) nodes))
        + same_status node.status status
      ≡ tally_of status (Map.values nodes) + same_status new status
tally_of-update id new status [] node e = absurd (ground arith)
tally_of-update id new status ((key, first) ∷ nodes) node e = elim (Bool-cases (key == id)) [
  | inl here ↦ ground (
    arith,
    here,
    tally_of-first status first (Map.values nodes),
    tally_of-first status (record first { status = new }) (Map.values nodes),
  )
  | inr later ↦ ground (
    arith,
    later,
    tally_of-first status first (Map.values nodes),
    tally_of-first status first (Map.values (Map.update id (λ n. record n { status = new }) nodes)),
    tally_of-update id new status nodes node,
  )
]

length-update :
    (id : ℕ) (change : DeliveryNode → DeliveryNode) (nodes : Map DeliveryNode)
    → length (Map.update id change nodes) ≡ length nodes
length-update id change [] = refl
length-update id change ((key, first) ∷ nodes) = ground (arith, length-update id change nodes)

-- The four status counters add up to the number of nodes. When `set_status` gives a node of the
-- graph a status, the counter of that status goes up by one and the counter of the node's old
-- status goes down by one, or nothing changes where the two are the same; the other counters and
-- the number of nodes stay.
pub progress-set_status :
    (id : ℕ) (new : DeliveryJobStatus) (graph : DeliveryGraph) (node : DeliveryNode)
    → Map.get graph.nodes id ≡ some node
    → ((progress graph).succeeded_nodes
          + (progress graph).failed_nodes
          + (progress graph).pending_nodes
          + (progress graph).running_nodes
        ≡ (progress graph).total_nodes)
      × ((progress (set_status id new graph)).total_nodes ≡ (progress graph).total_nodes)
      × ((status : DeliveryJobStatus)
          → nodes_with status (progress (set_status id new graph)) + same_status node.status status
            ≡ nodes_with status (progress graph) + same_status new status)
unfolding progress set_status update_node
progress-set_status id new graph node e = (
  tally-total graph.nodes,
  length-update id (λ n. record n { status = new }) graph.nodes,
  λ status.
      rw (nodes_with-progress status graph, nodes_with-progress status (set_status id new graph))
        (tally_of-update id new status graph.nodes node e),
)

all-node_progress :
    (nodes : Map DeliveryNode) (ids : List ℕ)
    → Subset ids (Map.keys nodes)
    → all (node_progress nodes ids) (λ node. is_terminal node.status)
      ≡ all ids (λ node_id. elim (Map.get nodes node_id) [
        | none ↦ false
        | some node ↦ is_terminal node.status
      ])
all-node_progress nodes [] s = refl
all-node_progress nodes (id ∷ ids) s = ground (
  arith,
  all-node_progress nodes ids (λ a h. s a (ground arith)),
  s id (ground (arith, ==_iff id id)),
  contains-keys nodes id,
)

-- The batches hold ids of the graph only.
abbrev pub AreKnownBatches : Map DeliveryNode → List DeliveryBatch → Type 0
AreKnownBatches nodes [] = Unit
AreKnownBatches nodes (batch ∷ batches) =
    Subset batch.nodes (Map.keys nodes) × AreKnownBatches nodes batches

tally-completed :
    (graph : DeliveryGraph) (batches : List DeliveryBatch)
    → AreKnownBatches graph.nodes batches
    → tally (batch_is_completed graph.nodes) batches
      ≡ tally
          (λ (batch : DeliveryBatchProgress). batch.completed)
          (map (batch_progress graph) batches)
tally-completed graph [] k = refl
tally-completed graph (batch ∷ batches) k =
    ground (arith, all-node_progress graph.nodes batch.nodes k.0, tally-completed graph batches k.1)

-- Where the batches hold ids of the graph only, `completed_batches` is the number of batch entries
-- that are marked `completed`.
pub progress-completed_batches :
    (graph : DeliveryGraph)
    → AreKnownBatches graph.nodes graph.batches
    → (progress graph).completed_batches
      ≡ tally (λ (batch : DeliveryBatchProgress). batch.completed) (progress graph).batches
unfolding progress
progress-completed_batches graph k = tally-completed graph graph.batches k
