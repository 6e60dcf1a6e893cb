-- ===== src/Provider/Notify.antt =====
-- pkg/provider/pod.go and node.go: `NotifyPods` and `NotifyNodeStatus`, which hand on what the event
-- handlers put into the channels of pods and of nodes, and `Ping`.
pub mod Upwards
use tensile_kube.Prelude.{String, Option, none, some, List, [], ◌∷◌}
use tensile_kube.Prelude.Run.{Run, done, ◌>>=◌, Result, ok, err}
use tensile_kube.Api.{Pod, ApiError, other}
use tensile_kube.Util.Consts.{Json}
use tensile_kube.Util.Labels.{recover_labels}

-- What the `select` of the loops takes: the next value of the channel, or the end of the provider or of
-- the call.
pub data Signal (A : Type 0) : Type 0 where
  received : A → Signal A
  stopped cancelled : Signal A

-- The nodes with which the callback is called. On no signal the loop waits.
unfoldable pub notify_node_status : {N : Type 0} → List (Signal N) → List N
notify_node_status [] = []
notify_node_status (received node ∷ signals) = node ∷ notify_node_status signals
notify_node_status (stopped ∷ signals) = []
notify_node_status (cancelled ∷ signals) = []

module _ (json : Json) where
  -- The pod that the callback gets: the labels are written into the map of the pod of the channel.
  unfoldable pub with_labels : Pod → Run Pod
  with_labels pod = recover_labels json pod.meta.labels pod.meta.annotations >>= λ labels.
      done (record pod { meta = record pod.meta { labels = labels } })

  -- The pods with which the callback is called.
  unfoldable pub notify_pods : List (Signal Pod) → Run (List Pod)
  notify_pods [] = done []
  notify_pods (received pod ∷ signals) =
      with_labels pod >>= λ p. notify_pods signals >>= λ ps. done (p ∷ ps)
  notify_pods (stopped ∷ signals) = done []
  notify_pods (cancelled ∷ signals) = done []

-- `Ping` asks both API servers for their version, the upper one first.
unfoldable pub ping : Result ApiError (Unit {0}) → Result ApiError (Unit {0}) → Option ApiError
ping (err e) client = some (other "could not list master apiserver statuses")
ping (ok u) (err e) = some (other "could not list client apiserver statuses")
ping (ok u) (ok v) = none
