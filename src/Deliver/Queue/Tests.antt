-- ===== src/Deliver/Queue/Tests.antt =====
-- A small queue, and the theorems at it.
use mmat.Prelude.{ℕ, zero, suc, ◌+◌, ◌≡◌, refl, none, some, List, [], ◌∷◌, arith, ok, map}
use mathlib.Core.Option
use mmat.Deliver.DeliveryGraph.{DeliveryGraph}
use mmat.Deliver.Queue.{
  DesignHandoff, BuildJob, BuildJobStatus, pending, running, succeeded, failed, Rows,
  enqueue_with_domain_node, recover_stale_running,
}
use mmat.Deliver.Queue.Worker.{World, drain_project_queue, drain_project_queue_with_events}
use mmat.Deliver.Queue.Oldest.{IsNext, next_pending-IsNext}
use mmat.Deliver.Queue.Drain.{
  IsDrained, drain_project_queue_lem, drain_project_queue_with_events-rows,
}
use mmat.Deliver.Queue.Changes.{
  IsEnqueued, enqueue_with_domain_node_lem, IsRecovered, recover_stale_running-IsRecovered,
}
use mmat.Deliver.Queue.Execute.{execute_delivery_graph}

program : Unit {0}
unfolding drain_project_queue drain_project_queue_with_events enqueue_with_domain_node
    execute_delivery_graph
program = tt

abbrev handoff : DesignHandoff
handoff = record {
  design_run_id = 9;
  prompt = "Build it";
  architect_plan = "1. Schema";
  knowledge_collections = [];
}

abbrev job : ℕ → ℕ → BuildJobStatus → ℕ → BuildJob
job id project_id status created_at = record {
  id = id;
  project_id = project_id;
  domain_node_id = none;
  status = status;
  handoff = handoff;
  error = none;
  created_at = created_at;
  updated_at = created_at;
  started_at = none;
  completed_at = none;
}

-- Two pending jobs of project 7, the older one second, a running one, and one of project 8.
abbrev rows : Rows
rows = job 1 7 pending 20 ∷ job 2 7 pending 10 ∷ job 3 7 running 5 ∷ job 4 8 pending 1 ∷ []

-- The first run fails.
abbrev world : World
world = record {
  now = λ n. n + 100;
  run = λ n job. elim n [ zero ↦ some "model unavailable" | suc m ↦ none ];
}

abbrev statuses : Rows → List BuildJobStatus
statuses rows = map (λ (row : BuildJob). row.status) rows

both_ran :
    Option.map (λ result. statuses result.1) (drain_project_queue 3 7 world 0 rows)
    ≡ some (succeeded ∷ failed ∷ running ∷ pending ∷ [])
unfolding program
both_ran = refl

drain_project_queue_lem_example :
    (after : Rows) × (drain_project_queue 3 7 world 0 rows ≡ some (ok tt, after))
    × IsDrained 7 world rows after
drain_project_queue_lem_example =
    drain_project_queue_lem 7 world 3 0 rows (refl, (refl, (refl, (refl, tt)))) (ground arith)

drain_project_queue_with_events-rows_example :
    Option.map
      (λ result. (result.0, result.1))
      (drain_project_queue_with_events 3 7 world 0 rows [])
    ≡ drain_project_queue 3 7 world 0 rows
drain_project_queue_with_events-rows_example =
    drain_project_queue_with_events-rows 7 world 3 0 rows []

next_pending-IsNext_example : IsNext 7 rows (job 2 7 pending 10)
next_pending-IsNext_example =
    next_pending-IsNext 7 rows (job 2 7 pending 10) (refl, (refl, (refl, (refl, tt)))) refl

enqueue_with_domain_node_lem_example :
    (after : Rows) × (added : BuildJob) × (enqueue_with_domain_node 5 30 30 7 handoff none rows
      ≡ ok (after, added))
    × IsEnqueued 5 30 30 7 handoff none rows after added
enqueue_with_domain_node_lem_example = enqueue_with_domain_node_lem 5 30 30 7 handoff none rows refl

recover_stale_running-IsRecovered_example : IsRecovered 7 40 rows (recover_stale_running 7 40 rows)
recover_stale_running-IsRecovered_example = recover_stale_running-IsRecovered 7 40 rows

abbrev graph : DeliveryGraph
graph = record {
  nodes = [];
  batches = record { index = 0; nodes = 11 ∷ [] } ∷ record { index = 1; nodes = 12 ∷ [] } ∷ [];
  active_batch_index = none;
}

batches_ran :
    statuses (execute_delivery_graph 7 world (λ futures. futures) rows graph).2.rows
    ≡ succeeded ∷ failed ∷ running ∷ pending ∷ []
unfolding program
batches_ran = refl
