-- ===== src/Provider/Pods.antt =====
-- pkg/provider/pod.go: the pods that the virtual kubelet runs, which are pods of the lower cluster.
pub mod Create
pub mod Reads
pub mod Scope
use tensile_kube.Prelude.{
  ℕ, String, Bool, true, false, not, ◌&&◌, ◌||◌, Option, none, some, List, [], ◌∷◌, ◌==◌,
  if◌then◌else◌, nat_beq,
}
use tensile_kube.Prelude.Dict.{Dict}
use tensile_kube.Prelude.Run.{Run, done, panic, ◌>>=◌, Result, ok, err}
use tensile_kube.Api.{
  ObjectMeta, PodSpec, PodStatus, Pod, ApiError, not_found, already_exists, other, meta_named,
}
use tensile_kube.Util.Consts.{Json, is_virtual_pod}
use tensile_kube.Util.Labels.{recover_labels}
use tensile_kube.Util.Conversions.{trim_pod, get_updated_pod}
use tensile_kube.Controllers.Common.{is_not_found}
use tensile_kube.Provider.Needs.{get_secrets, get_configmaps, get_pvcs}
use tensile_kube.Provider.Dependencies.{
  Lower, Upper, create_secrets, create_config_maps, create_pvcs,
}

-- The configuration of `VirtualK8S` and the libraries: `reflect.DeepEqual` on specs and on maps, and
-- `wait.PollImmediate`, which runs its condition again until it holds or the time is over, while
-- the rest of the program goes on.
pub record Env (S : Type 0) : Type 1 where
  pub json : Json
  pub ignore_labels : Option (List String)
  pub enable_service_account : Bool
  pub lower : Lower S
  pub upper : Upper
  pub same_spec : PodSpec → PodSpec → Bool
  pub same_map : Option (Dict String) → Option (Dict String) → Bool
  pub poll : (S → S × Option ApiError) → S → S × Option ApiError

-- The error of the creation of a pod.
unfoldable pub sent : Result ApiError Pod → Option ApiError
sent (ok o) = none
sent (err e) = some (other "could not create pod")

-- The error of an update.
unfoldable pub update_error : Result ApiError Pod → Option ApiError
update_error (ok o) = none
update_error (err e) = some (other "could not update pod")

unfoldable pub grace_period : Pod → Option ℕ
grace_period pod = elim pod.meta.deletion_grace_period_seconds [
  | none ↦ some 0
  | some seconds ↦ some seconds
]

-- The namespace, before a pod is created in it: the state and the error that ends the call.
module _ {S : Type 0} (env : Env S) where
  unfoldable pub make_namespace : String → S → S × Option ApiError
  make_namespace ns s = elim (env.lower.namespaces.find s "" ns) [
    | ok o ↦ (s, none)
    | err e ↦
        (if is_not_found e
          then (let (t, answer) = env.lower.namespaces.create s "" (meta_named ns) in
              (t, elim answer [ err already_exists ↦ some e | _ ↦ none ]))
          else (s, some e))
  ]

  -- One run of the background condition: whether it is done.
  unfoldable pub base_dependents : Pod → S → S × Bool
  unfolding create_config_maps create_pvcs
  base_dependents pod s =
      let ns = pod.meta.namespace in
      let (t, failed) = create_config_maps env.lower env.upper ns (get_configmaps pod) s in
      elim failed [
        | some e ↦ (t, false)
        | none ↦
            let (u, failed) = create_pvcs env.lower env.upper ns (get_pvcs pod) t in
            (u, elim failed [ some e ↦ false | none ↦ true ])
      ]

  -- The end of `CreatePod`, after the poll on the secrets.
  unfoldable pub send_pod : Pod → S × Option ApiError → S × Option ApiError
  unfolding trim_pod sent
  send_pod pod (s, some e) = (s, some (other "create secrets failed"))
  send_pod pod (s, none) =
      let basic = trim_pod env.json pod env.ignore_labels in
      let (t, answer) = env.lower.pods.create s pod.meta.namespace basic in (t, sent answer)

  -- The condition that `CreatePod` starts in the background, `base_dependents`, is not part of its result.
  unfoldable pub create_pod : Pod → S → Run (S × Option ApiError)
  unfolding make_namespace get_secrets create_secrets send_pod
  create_pod pod s =
      if pod.meta.namespace == "kube-system"
      then done (s, none)
      else elim (make_namespace pod.meta.namespace s).1 [
        | some e ↦ done ((make_namespace pod.meta.namespace s).0, some e)
        | none ↦ get_secrets pod >>= λ names. done (
            send_pod pod (
              env.poll
                (create_secrets env.lower env.upper env.enable_service_account pod.meta.namespace
                  names)
                (make_namespace pod.meta.namespace s).0))
      ]

  unfoldable pub recover_pod : Pod → Run Pod
  unfolding recover_labels
  recover_pod pod = recover_labels env.json pod.meta.labels pod.meta.annotations >>= λ labels.
      done (record pod { meta = record pod.meta { labels = labels } })

  unfoldable pub get_pod : S → String → String → Run (Result ApiError Pod)
  unfolding recover_pod
  get_pod s namespace name = elim (env.lower.pods.find s namespace name) [
    | err e ↦ done (err (if is_not_found e then not_found else other "could not get pod"))
    | ok pod ↦ recover_pod pod >>= λ p. done (ok p)
  ]

  unfoldable pub get_pod_status : S → String → String → Result ApiError PodStatus
  get_pod_status s namespace name = elim (env.lower.pods.find s namespace name) [
    | err e ↦ err (other "could not get pod")
    | ok pod ↦ ok pod.status
  ]

  unfoldable pub recover_virtual : List Pod → Run (List Pod)
  unfolding recover_pod
  recover_virtual [] = done []
  recover_virtual (p ∷ ps) =
      let rest = recover_virtual ps in
      if is_virtual_pod p then (recover_pod p >>= λ q. rest >>= λ qs. done (q ∷ qs)) else rest

  -- `listed` is the lister's answer for the label selector.
  unfoldable pub get_pods : Result ApiError (List Pod) → Run (Result ApiError (List Pod))
  unfolding recover_virtual
  get_pods (err e) = done (err (other "could not list pods"))
  get_pods (ok listed) = recover_virtual listed >>= λ ps. done (ok ps)

  unfoldable pub is_updated : Pod → Pod → Bool
  is_updated current copy =
      env.same_spec current.spec copy.spec
      && (env.same_map current.meta.annotations copy.meta.annotations
          && env.same_map current.meta.labels copy.meta.labels)

  unfoldable pub send_update : String → Pod → Pod → S → S × Option ApiError
  unfolding is_updated update_error
  send_update namespace current copy s =
      if is_updated current copy
      then (s, none)
      else let (t, answer) = env.lower.update_pod s namespace copy in (t, update_error answer)

  -- The second result is the caller's pod afterwards, which `GetUpdatedPod` writes to.
  unfoldable pub update_pod : Pod → S → Run ((S × Option ApiError) × Pod)
  unfolding get_pod get_updated_pod send_update
  update_pod pod s =
      if pod.meta.namespace == "kube-system"
      then done ((s, none), pod)
      else get_pod s pod.meta.namespace pod.meta.name >>= λ r. elim r [
        | err e ↦ done ((s, some (other "could not get current pod")), pod)
        | ok current ↦
            if not (is_virtual_pod pod)
            then done ((s, none), pod)
            else get_updated_pod env.json current pod env.ignore_labels >>= λ (copy, update).
                done (send_update pod.meta.namespace current copy s, update)
      ]

  unfoldable pub delete_pod : Pod → S → S × Option ApiError
  unfolding grace_period
  delete_pod pod s =
      if pod.meta.namespace == "kube-system"
      then (s, none)
      else if not (is_virtual_pod pod)
      then (s, none)
      else let (t, answer) =
          env.lower.delete_pod s pod.meta.namespace pod.meta.name (grace_period pod) in
        (
          t,
          elim answer [
            | ok u ↦ none
            | err e ↦ if is_not_found e then none else some (other "could not delete pod")
          ],
        )

-- The options of the virtual kubelet and of the API. `since_time` is 0 for the zero time.
pub record ContainerLogOpts : Type 0 where
  pub tail : ℕ
  pub limit_bytes : ℕ
  pub timestamps : Bool
  pub follow : Bool
  pub previous : Bool
  pub since_seconds : ℕ
  pub since_time : ℕ

pub record PodLogOptions : Type 0 where
  pub container : String
  pub timestamps : Bool
  pub follow : Bool
  pub previous : Bool
  pub tail_lines : Option ℕ
  pub limit_bytes : Option ℕ
  pub since_time : Option ℕ
  pub since_seconds : Option ℕ

-- A write through a pointer.
abbrev pub store_at : ℕ → Option ℕ → Run (Option ℕ)
store_at n none = panic
store_at n (some old) = done (some n)

unfoldable pub log_options : String → ContainerLogOpts → Run PodLogOptions
log_options container opts =
    let options : PodLogOptions = record {
      container = container;
      timestamps = opts.timestamps;
      follow = opts.follow;
      previous = opts.previous;
      tail_lines = if nat_beq opts.tail 0 then none else some opts.tail;
      limit_bytes = if nat_beq opts.limit_bytes 0 then none else some opts.limit_bytes;
      since_time = none;
      since_seconds = none;
    } in
    (if nat_beq opts.since_time 0
      then done options.since_time
      else store_at opts.since_time options.since_time)
    >>= λ time.
        (if nat_beq opts.since_seconds 0
          then done options.since_seconds
          else store_at opts.since_seconds options.since_seconds)
        >>= λ seconds. done (record options { since_time = time; since_seconds = seconds })

-- `stream` is the API server's answer to the request with these options.
unfoldable pub get_container_logs :
    {L : Type 0}
    → (PodLogOptions → Result ApiError L)
    → String
    → ContainerLogOpts
    → Run (Result ApiError L)
unfolding log_options
get_container_logs stream container opts = log_options container opts >>= λ options.
    elim (stream options) [
      | err e ↦ done (err (other "could not get stream from logs request"))
      | ok logs ↦ done (ok logs)
    ]
