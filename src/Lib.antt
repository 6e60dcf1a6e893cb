-- ===== src/Lib.antt =====
-- tensile-kube joins Kubernetes clusters: a virtual kubelet shows a whole lower cluster to an upper
-- cluster as one node, and sends the pods of that node down.
--
-- The parts, and how they interact:
--   * The webhook (pkg/webhook/hook.go; Webhook) sees a pod before the upper cluster stores it. It takes
--     the scheduling constraints that are meant for the lower cluster off the pod and stores them
--     in an annotation, and it adds an affinity against nodes that are frozen for the pod's owner.
--     Webhook/Serve is the envelope that answers the API server's request.
--   * The conversions (pkg/util/conversions.go; Util/Labels, Util/Conversions) make the pod of the lower
--     cluster: they put the stored constraints back, take the ignored labels off and store them
--     in another annotation, from which they are recovered on the way up.
--   * The freeze cache (pkg/util/cache.go; Util/Cache) holds for three minutes the nodes on which an
--     owner's pod could not be scheduled; ReplacePodNodeNameNodeAffinity (Util/Replace) writes the
--     affinity against them. The webhook and the descheduler share both.
--   * The descheduler's evictor (pkg/descheduler/evictions/evictions.go; Descheduler/Evictor) deletes a
--     pod that cannot run where it is and creates it again; the webhook sees both calls
--     (Descheduler/Evictor/Admitted). Descheduler/Evictor/Own has what nothing calls.
--   * The controllers (pkg/controllers; Controllers) keep the config maps, secrets, services and endpoints
--     of the lower cluster as the upper cluster has them. Their code is written once per kind; the
--     model is written once, and `Kind` and `Shape` say what differs. The listers and the API
--     servers are answers, the calls a list, and the end of a run is what happens to the key.
--     Controllers/Common/Runs follows what a run writes into the cache of the lower lister.
--   * The controller of claims and volumes (pkg/controllers/pv_controller.go; Controllers/Volumes) sends changed
--     claims down and the volumes that are bound to them up.
--   * The provider's pods (pkg/provider/pod.go, helper.go; Provider/Needs, Provider/Dependencies,
--     Provider/Pods): a pod is created below after the namespace and the secrets that it needs; its
--     config maps and claims follow in the background.
--   * The resources (pkg/common; Common/Resource), the node and pod events of the provider
--     (pkg/provider/provider.go, node.go; Provider/Nodes, Provider/PodEvents, Provider/Usage) are to make
--     the virtual node as large as the ready and schedulable nodes of the lower cluster together, less
--     what is used on them by pods that the upper cluster did not send. Provider/Metrics sums what
--     they use (metrics.go).
--     Provider/Notify hands on what the events report, and Provider/Setup starts the provider.
--   * The rounds of the descheduler (pkg/descheduler/strategies, pod; Descheduler/Lifetime) choose the pods
--     that are evicted, and its loop (descheduler.go; Descheduler/Loop) repeats them.
--   * The commands (cmd; Commands) start the controllers that a flag names; Commands/Process has the start of
--     the processes and their signals, and Provider/Exec the commands in containers. Controllers/Informers
--     says which change of an object reaches which handler. Util/Clients has the clients and the patches.
--
-- A Go function keeps its name in snake case: `TrimPod` is `trim_pod`. A function that mutates its
-- argument returns the new value; where two arguments come to share a map, both are returned. A loop
-- is a structural recursion, but for the loop of the descheduler, which need not end: it is seen through its
-- first rounds, any number of them; a map is an association list, a nil map, slice or
-- pointer an `Option`. Code that can panic returns a `Run`. Times are natural numbers of seconds.
-- `Api` has the fields of the Kubernetes objects that the code uses.
--
-- Parameters: the JSON codec, the patch libraries, go-cache, reflect.DeepEqual, PodRequestsAndLimits, the
-- upstream descheduler's test of a pod, wait.PollImmediate, the answers of the API servers and of the
-- listers. Where a call depends on what an earlier one wrote, the lower API server is a state with
-- operations on it (`Store`, `Lower`). The laws that are asked of go-cache are `Util.Cache.IsLawful`,
-- and `Util.Cache.Memory` meets them; the law of resource.Quantity is that it is an exact number
-- (`IsExact`). What a merge patch does, what the codec reads of what it wrote, that a store finds what it holds, that a poll ends, and that a lister
-- is up to date, are hypotheses of the theorems that need them.
--
-- Not modelled: logging and the recording of events, the flags and rate limiters of the commands, the HTTP
-- server, the informers, work queues and timers that call the handlers, and the fixtures of the Go
-- tests. These are calls of libraries with no decision of their own.
pub mod Prelude
pub mod Api
pub mod Util
pub mod Common
pub mod Descheduler
pub mod Webhook
pub mod Provider
pub mod Controllers
pub mod Commands
mod Tests
