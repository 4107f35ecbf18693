-- ===== src/Network/Latency.antt =====
-- The latency analysis of src/DNC-Library/DNC.cpp and NC.cpp: `none` is a null pointer or a read out
-- of bounds. The table of flows is not changed while one flow is analysed.
use workload_compactor.Base.{
  ◌>>=◌, ℕ, zero, suc, ◌+◌, ◌&&◌, not, if◌then◌else◌, List, [], ◌∷◌, Option, none, some, Double,
  nat_key, leb, ltb, ◌==◌, get_elem?,
}
use workload_compactor.Base.Table.{Table, lookup, insert, adjust}
use workload_compactor.Network.Types.{
  SimpleArrivalCurve, SimpleServiceCurve, Flow, FlowIndex, Network,
}
use workload_compactor.Network.Registry.{zero_arrival_curve}
use workload_compactor.Network.Curves.{
  constant_service_curve, aggregate_arrival_curve, convolution_service_curve, output_arrival_curve,
  leftover_service_curve, dnc_latency_bound, calc_shaper_latency,
}

pub data DncAlgorithm : Type 0 where
  aggregate hop_by_hop : DncAlgorithm

module _ {W : Type 0} ⦃d : Double W⦄ where
  open d use {nought, add}

  -- The flow of an entry of a queue, and the first and second queue of a flow.
  unfoldable pub flow_at : Network W → FlowIndex → Option (Flow W)
  flow_at s fi = lookup fi.flow_id s.flows

  unfoldable pub queue_at : Flow W → ℕ → Option ℕ
  queue_at f index = get_elem? f.queue_ids index

  -- calcArrivalCurveAtQueue and calcServiceCurveAtQueue call one another. The fuel bounds the depth of
  -- the calls: without fuel the recursion does not end, as when flows of equal priority meet in a
  -- cycle of queues.
  unfoldable pub service_curve_from :
      (Flow W → ℕ → Option (SimpleArrivalCurve W))
      → Network W
      → Flow W
      → List FlowIndex
      → SimpleServiceCurve W
      → Option (SimpleServiceCurve W)
  service_curve_from arrival_at s f [] service = some service
  service_curve_from arrival_at s f (fi ∷ fis) service =
      let rest = service_curve_from arrival_at s f fis in
      flow_at s fi >>= λ g.
      if leb g.priority f.priority && not (g.flow_id == f.flow_id)
      then (arrival_at g fi.index >>= λ a. rest (leftover_service_curve a service))
      else rest service

  unfoldable pub service_curve_at :
      (Flow W → ℕ → Option (SimpleArrivalCurve W))
      → Network W
      → Flow W
      → ℕ
      → Option (SimpleServiceCurve W)
  unfolding service_curve_from
  service_curve_at arrival_at s f index = do
    i ← queue_at f index
    q ← lookup i s.queues
    service_curve_from arrival_at s f q.flows (constant_service_curve q)

  unfoldable pub arrival_curve_at : ℕ → Network W → Flow W → ℕ → Option (SimpleArrivalCurve W)
  unfolding service_curve_at
  arrival_curve_at zero s f index = none
  arrival_curve_at (suc fuel) s f zero = some f.shaper_curve
  arrival_curve_at (suc fuel) s f (suc index) = do
    a ← arrival_curve_at fuel s f index
    c ← service_curve_at (arrival_curve_at fuel s) s f index
    some (output_arrival_curve a c)

  unfoldable pub hop_loop :
      ℕ → Network W → Flow W → ℕ → List ℕ → SimpleArrivalCurve W → W → Option W
  hop_loop fuel s f index [] arrival latency = some latency
  hop_loop fuel s f index (q ∷ qs) arrival latency =
      let rest = hop_loop fuel s f (index + 1) qs in
      service_curve_at (arrival_curve_at fuel s) s f index >>= λ c.
      rest (output_arrival_curve arrival c) (add latency (dnc_latency_bound arrival c))

  unfoldable pub hop_by_hop_analysis : ℕ → Network W → Flow W → Option W
  unfolding hop_loop
  hop_by_hop_analysis fuel s f = hop_loop fuel s f 0 f.queue_ids f.shaper_curve nought

  -- The one hop case of aggregateAnalysisTwoHop: the flows of the first queue, in order. An entry
  -- that is not the first hop of its flow fails an assertion.
  unfoldable pub one_hop_loop :
      Network W
      → Flow W
      → ℕ
      → List FlowIndex
      → SimpleArrivalCurve W
      → SimpleServiceCurve W
      → Option W
  one_hop_loop s flow first [] arrival service = some (dnc_latency_bound arrival service)
  one_hop_loop s flow first (fi ∷ fis) arrival service =
      let rest = one_hop_loop s flow first fis in
      if fi.index == 0
      then (flow_at s fi >>= λ f. queue_at f 0 >>= λ i.
          if i == first
          then if leb f.priority flow.priority
            then if f.priority == flow.priority
              then rest (aggregate_arrival_curve f.shaper_curve arrival) service
              else rest arrival (leftover_service_curve f.shaper_curve service)
            else rest arrival service
          else none)
      else none

  -- The first queues that feed the second queue, with the lowest priority of the flows that compete.
  unfoldable pub feeding_queues :
      Network W → Flow W → ℕ → ℕ → List FlowIndex → Table ℕ ℕ → Option (Table ℕ ℕ)
  feeding_queues s flow first second [] feeds = some feeds
  feeding_queues s flow first second (fi ∷ fis) feeds =
      let rest = feeding_queues s flow first second fis in
      if fi.index == 1
      then (flow_at s fi >>= λ f. queue_at f 0 >>= λ i. queue_at f 1 >>= λ j.
          if j == second
          then if not (i == first) && leb f.priority flow.priority
            then rest (elim (lookup i feeds) [
              | none ↦ insert i f.priority feeds
              | some p ↦ if ltb p f.priority then insert i f.priority feeds else feeds
            ])
            else rest feeds
          else none)
      else none

  -- Flows of a first queue `i` up to a priority: those that go on to the second queue are added up,
  -- and the others take their share of the service.
  unfoldable pub feed_loop :
      Network W
      → ℕ
      → ℕ
      → ℕ
      → List FlowIndex
      → SimpleArrivalCurve W
      → SimpleServiceCurve W
      → Option (SimpleArrivalCurve W)
  feed_loop s i priority second [] arrival service = some (output_arrival_curve arrival service)
  feed_loop s i priority second (fi ∷ fis) arrival service =
      let rest = feed_loop s i priority second fis in
      if fi.index == 0
      then (flow_at s fi >>= λ f. queue_at f 0 >>= λ k.
          if k == i
          then if leb f.priority priority
            then (queue_at f 1 >>= λ j.
                if j == second
                then rest (aggregate_arrival_curve f.shaper_curve arrival) service
                else rest arrival (leftover_service_curve f.shaper_curve service))
            else rest arrival service
          else none)
      else none

  unfoldable pub second_queue_loop :
      Network W → ℕ → Table ℕ ℕ → SimpleServiceCurve W → Option (SimpleServiceCurve W)
  unfolding feed_loop
  second_queue_loop s second [] service = some service
  second_queue_loop s second ((i, priority) ∷ feeds) service =
      let rest = second_queue_loop s second feeds in
      lookup i s.queues >>= λ q.
      feed_loop s i priority second q.flows zero_arrival_curve (constant_service_curve q) >>= λ out.
      rest (leftover_service_curve out service)

  -- The first hop of a flow with two: flows of equal priority that share the second queue, those of
  -- higher priority that do, and the service that the others leave.
  unfoldable pub first_hop_loop :
      Network W
      → Flow W
      → ℕ
      → ℕ
      → SimpleServiceCurve W
      → List FlowIndex
      → SimpleArrivalCurve W
      → SimpleArrivalCurve W
      → SimpleServiceCurve W
      → Option W
  first_hop_loop s flow first second second_service [] arrival share service = some (
      dnc_latency_bound arrival
        (leftover_service_curve share (convolution_service_curve service second_service)))
  first_hop_loop s flow first second second_service (fi ∷ fis) arrival share service =
      let rest = first_hop_loop s flow first second second_service fis in
      if fi.index == 0
      then (flow_at s fi >>= λ f. queue_at f 0 >>= λ i.
          if i == first
          then if leb f.priority flow.priority
            then (queue_at f 1 >>= λ j.
                if j == second
                then if f.priority == flow.priority
                  then rest (aggregate_arrival_curve f.shaper_curve arrival) share service
                  else rest arrival (aggregate_arrival_curve f.shaper_curve share) service
                else rest arrival share (leftover_service_curve f.shaper_curve service))
            else rest arrival share service
          else none)
      else none

  -- aggregateAnalysisTwoHop: more than two queues fail its assertion, and a flow with none keeps its
  -- latency.
  unfoldable pub aggregate_by_hops : Network W → Flow W → List ℕ → Option W
  unfolding one_hop_loop feeding_queues second_queue_loop first_hop_loop
  aggregate_by_hops s flow [] = some flow.latency
  aggregate_by_hops s flow (first ∷ []) = do
    q ← lookup first s.queues
    one_hop_loop s flow first q.flows zero_arrival_curve (constant_service_curve q)
  aggregate_by_hops s flow (first ∷ second ∷ []) = do
    q2 ← lookup second s.queues
    feeds ← feeding_queues s flow first second q2.flows []
    service2 ← second_queue_loop s second feeds (constant_service_curve q2)
    q1 ← lookup first s.queues
    first_hop_loop s flow first second service2 q1.flows zero_arrival_curve zero_arrival_curve
        (constant_service_curve q1)
  aggregate_by_hops s flow (first ∷ second ∷ third ∷ more) = none

  unfoldable pub aggregate_analysis_two_hop : Network W → Flow W → Option W
  unfolding aggregate_by_hops
  aggregate_analysis_two_hop s flow = aggregate_by_hops s flow flow.queue_ids

  unfoldable pub queue_latency : DncAlgorithm → ℕ → Network W → Flow W → Option W
  unfolding aggregate_analysis_two_hop hop_by_hop_analysis
  queue_latency aggregate fuel s f = aggregate_analysis_two_hop s f
  queue_latency hop_by_hop fuel s f = hop_by_hop_analysis fuel s f

  unfoldable pub set_latency : ℕ → W → Network W → Network W
  set_latency flow_id latency s = record s {
    flows = adjust flow_id (λ g. record g { latency = latency }) s.flows;
  }

  -- DNC::calcFlowLatency: the latency, which the flow also keeps.
  unfoldable pub calc_flow_latency : DncAlgorithm → ℕ → ℕ → Network W → Option (W × Network W)
  unfolding queue_latency set_latency
  calc_flow_latency algorithm fuel flow_id s = do
    f ← lookup flow_id s.flows
    if f.ignore_latency
        then some (nought, set_latency flow_id nought s)
        else (queue_latency algorithm fuel s f >>= λ queues.
            calc_shaper_latency f.arrival_curve f.shaper_curve >>= λ shaper.
            some (add queues shaper, set_latency flow_id (add queues shaper) s))
