-- ===== src/Webhook/Mutate.antt =====
-- `mutate` of pkg/webhook/hook.go, with the shared freeze cache as its state.
pub mod Barred
pub mod Avoided
pub mod Decisions
use tensile_kube.Prelude.{
  ℕ, String, Bool, true, false, not, Option, none, some, List, [], ◌∷◌, ◌==◌, if◌then◌else◌,
}
use tensile_kube.Prelude.Dict.{Dict, index_nil}
use tensile_kube.Prelude.Run.{Run, done, panic, ◌>>=◌, Result, ok, err}
use tensile_kube.Api.{Affinity, Pod, ApiError}
use tensile_kube.Util.Consts.{Json, created_by_descheduler, is_virtual_pod}
use tensile_kube.Util.Cache.{GoCache, add, get_freeze_nodes}
use tensile_kube.Util.Replace.{replace_pod_node_name_node_affinity}
use tensile_kube.Webhook.Inject.{inject, PvcLister, try_set_node_name}

abbrev has_labels {ℓ} : {A : Type ℓ} → Option A → Bool
has_labels none = false
has_labels (some a) = true

unfoldable pub should_skip : Pod → Bool
unfolding is_virtual_pod
should_skip pod =
    if pod.meta.namespace == "kube-system"
    then true
    else if has_labels pod.meta.labels
    then (if index_nil created_by_descheduler pod.meta.labels == "true"
        then true
        else not (is_virtual_pod pod))
    else false

-- The UID of the first owner.
unfoldable pub get_owner_ref : Pod → String
get_owner_ref pod = elim pod.meta.owner_references [ [] ↦ "" | uid ∷ uids ↦ uid ]

module _ {C : Type 0} (g : GoCache C) where
  unfoldable pub set_unschedulable_nodes : ℕ → String → Pod → Dict C → Dict C
  set_unschedulable_nodes now ref pod cache =
      let node = index_nil "unschedulable-node" pod.meta.annotations in
      if ref == "" then cache else if node == "" then cache else add g now node ref cache

  unfoldable pub get_unschedulable_nodes : ℕ → String → Pod → Dict C → List String
  get_unschedulable_nodes now ref pod cache =
      if ref == ""
      then []
      else if pod.spec.node_name == ""
      then get_freeze_nodes g now ref cache
      else []

  -- The pod that must avoid the frozen nodes of its owner.
  unfoldable pub avoid_nodes : ℕ → Pod → Dict C → Pod
  unfolding get_unschedulable_nodes
  avoid_nodes now pod cache = elim (get_unschedulable_nodes now (get_owner_ref pod) pod cache) [
    | [] ↦ pod
    | n ∷ ns ↦ record pod {
      spec = record pod.spec {
        affinity =
            some
              (replace_pod_node_name_node_affinity none (get_owner_ref pod) 0 (n ∷ ns)
                pod.spec.affinity).0;
      };
    }
  ]

-- The admission request: its kind, its operation, and the pod that its raw object decodes to.
pub record Request : Type 0 where
  pub kind : String
  pub operation : String
  pub object : Result String Pod

-- The admission response: refused with a message, refused, allowed, or allowed with a patch or with the
-- error that there is none.
pub data Response : Type 0 where
  not_decoded : String → Response
  not_allowed : Response
  allowed : Response
  patched : Result ApiError String → Response

-- What the webhook server was started with, and the library that computes the patch.
pub record Server : Type 0 where
  pub json : Json
  pub json_patch : Pod → Pod → Result ApiError String
  pub pvc_lister : PvcLister
  pub ignore_selector_keys : List String

module _ {C : Type 0} (g : GoCache C) (server : Server) where
  unfoldable pub inject_and_patch : Pod → Pod → Run Response
  inject_and_patch pod clone = do
    final ←
        inject server.json (try_set_node_name server.pvc_lister clone) server.ignore_selector_keys
    done (patched (server.json_patch pod final))

  unfoldable pub mutate_pod : String → ℕ → Pod → Dict C → Run (Response × Dict C)
  unfolding inject_and_patch avoid_nodes set_unschedulable_nodes
  mutate_pod operation now pod cache =
      if operation == "UPDATE"
      then done (allowed, set_unschedulable_nodes g now (get_owner_ref pod) pod cache)
      else do
        response ←
            inject_and_patch pod
              (if operation == "CREATE" then avoid_nodes g now pod cache else pod)
        done (response, cache)

  unfoldable pub mutate : Request → ℕ → Dict C → Run (Response × Dict C)
  unfolding mutate_pod should_skip
  mutate req now cache =
      if req.kind == "Pod"
      then elim req.object [
        | err message ↦ done (not_decoded message, cache)
        | ok pod ↦
            if should_skip pod
            then done (allowed, cache)
            else mutate_pod req.operation now pod cache
      ]
      else done (not_allowed, cache)
