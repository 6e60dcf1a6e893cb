-- ===== src/Tests/Pods.antt =====
-- The provider's pods, on a lower cluster that is the list of the names that it holds.
use tensile_kube.Prelude.{
  String, ◌≡◌, ◌⊎◌, refl, true, false, Option, none, some, List, [], ◌∷◌, arith, ◌==◌, ==_self,
  if◌then◌else◌, contains, All,
}
use tensile_kube.Prelude.Dict.{Dict, lookup, index, index_nil, make_if_nil}
use tensile_kube.Prelude.Run.{done, ok, err}
use tensile_kube.Api.{
  ObjectMeta, Pod, PodStatus, Secret, ConfigMap, PersistentVolumeClaim, ApiError, not_found,
  already_exists, empty_status,
}
use tensile_kube.Util.Consts.{Json, is_virtual_pod, virtual_pod_label}
use tensile_kube.Util.Conversions.{trim_pod, get_updated_pod, written_pods, update_images}
use tensile_kube.Util.Conversions.Trips.{split_labels}
use tensile_kube.Controllers.Common.{is_not_found}
use tensile_kube.Provider.Needs.{get_secrets, all_volume_secrets}
use tensile_kube.Provider.Dependencies.{
  Store, Lower, Upper, create_config_maps, create_config_map, copy_down, mark_config_map,
  unless_exists, for_each, create_secrets, create_secret, create_absent, create_marked_secret,
}
use tensile_kube.Provider.Dependencies.Exist.{IsStore, create_config_maps-exist}
use tensile_kube.Provider.Pods.{
  Env, make_namespace, create_pod, get_pod, recover_pod, update_pod, is_updated, update_error,
  send_update, send_pod, sent,
}
use tensile_kube.Provider.Pods.Create.{Created, create_pod-Created}
use tensile_kube.Provider.Pods.Reads.{get_pod-trim_pod}
use tensile_kube.Provider.Pods.Scope.{is_foreign, IsUpdated, update_pod-IsUpdated}
use tensile_kube.Tests.{web_meta, web_pod, codec, no_selection}

abbrev Names : Type 0
Names = List String

abbrev Holds : Names → String → String → Type 0
Holds s ns n = contains n s ≡ true

abbrev names_of : {O : Type 0} → (O → String) → O → Store Names O
names_of name_of sample = record {
  find = λ s ns n. if contains n s then ok sample else err not_found;
  create =
      λ s ns o. if contains (name_of o) s then (s, err already_exists) else (name_of o ∷ s, ok o);
}

names_of-IsStore :
    {O : Type 0} (name_of : O → String) (sample : O)
    → IsStore (names_of name_of sample) name_of Holds
names_of-IsStore name_of sample = record {
  found = λ s ns n o h. ground arith;
  created = λ s ns o p h. ground (arith, ==_self (name_of o));
  present = λ s ns o h. ground arith;
  kept = λ s ns n m o h. ground arith;
}

abbrev settings : String → ConfigMap
settings name = record {
  meta = record web_meta { name = name };
  content = none;
  binary_data = none;
}

abbrev password : String → Secret
password name = record {
  meta = record web_meta { name = name };
  content = none;
  string_data = none;
  type = "Opaque";
}

abbrev disk : String → PersistentVolumeClaim
disk name = record {
  meta = record web_meta { name = name };
  selector = none;
  volume_name = "";
  spec_rest = "";
  status = "";
}

abbrev lower : Lower Names
lower = record {
  namespaces = names_of (λ (o : ObjectMeta). o.name) web_meta;
  secrets = names_of (λ (o : Secret). o.meta.name) (password "");
  config_maps = names_of (λ (o : ConfigMap). o.meta.name) (settings "");
  delete_config_map = λ s ns n. (s, ok tt);
  claims = names_of (λ (o : PersistentVolumeClaim). o.meta.name) (disk "");
  accounts = record { find = λ s ns n. err not_found; create = λ s ns o. (s, err already_exists) };
  update_account = λ s ns o. (s, ok o);
  pods = record { find = λ s ns n. ok web_pod; create = λ s ns o. (s, ok o) };
  update_pod = λ s ns o. (s, ok o);
  delete_pod = λ s ns n grace. (s, ok tt);
}

abbrev upper : Upper
upper = record {
  secret = λ ns n. ok (password n);
  config_map = λ ns n. ok (settings n);
  claim = λ ns n. ok (disk n);
}

abbrev json : Json
json = codec (split_labels web_pod ("tier" ∷ [])).0 no_selection

abbrev env_with : Lower Names → Env Names
env_with cluster = record {
  json = json;
  ignore_labels = some ("tier" ∷ []);
  enable_service_account = true;
  lower = cluster;
  upper = upper;
  same_spec = λ a b. false;
  same_map = λ a b. false;
  poll = λ f s. f s;
}

abbrev env : Env Names
env = env_with lower

create_config_maps-exist_example :
    All
      (Holds (create_config_maps lower upper "shop" ("a" ∷ "b" ∷ "a" ∷ []) ("b" ∷ [])).0 "shop")
      ("a" ∷ "b" ∷ "a" ∷ [])
unfolding create_config_maps create_config_map copy_down for_each mark_config_map unless_exists
    is_not_found
create_config_maps-exist_example =
    create_config_maps-exist lower upper "shop" Holds
      (names_of-IsStore (λ (o : ConfigMap). o.meta.name) (settings "")) (λ n o h. ground arith)
      ("a" ∷ "b" ∷ "a" ∷ []) ("b" ∷ []) refl

abbrev pulling_pod : Pod
pulling_pod = record web_pod { spec = record web_pod.spec { image_pull_secrets = "registry" ∷ [] } }

create_pod-Created_example :
    (u : Names) × All (Holds u "shop") ("registry" ∷ [])
    × Created env pulling_pod u ("registry" ∷ "shop" ∷ [])
unfolding create_pod make_namespace get_secrets all_volume_secrets is_not_found create_secrets
    create_secret create_absent create_marked_secret for_each unless_exists send_pod sent
create_pod-Created_example =
    create_pod-Created env Holds (names_of-IsStore (λ (o : Secret). o.meta.name) (password ""))
      (λ s ns n m o h. h) (λ s ns n m o h. h) (λ ns n o h. ground arith) (λ f s. (s, refl))
      pulling_pod ("registry" ∷ []) [] ("registry" ∷ "shop" ∷ []) refl refl refl

abbrev running : PodStatus
running = record empty_status { phase = "Running" }

-- The pod in the lower cluster, which gave it a UID and a version.
abbrev stored_pod : Pod
stored_pod =
    let sent = trim_pod json web_pod (some ("tier" ∷ [])) in
    record sent {
      meta = record sent.meta { uid = "u-9"; resource_version = "12" };
      status = running;
    }

abbrev holding : Lower Names
holding = record lower {
  pods = record { find = λ s ns n. ok stored_pod; create = λ s ns o. (s, ok o) };
}

get_pod-trim_pod_example :
    (labels : Dict String) × (get_pod (env_with holding) [] "shop" "web-0"
      ≡ done (ok (record stored_pod { meta = record stored_pod.meta { labels = some labels } })))
    × ((j : String)
        → lookup j labels ≡ (
            if virtual_pod_label == j
            then some "true"
            else lookup j (make_if_nil web_pod.meta.labels)))
get_pod-trim_pod_example =
    get_pod-trim_pod (env_with holding) web_pod stored_pod ("tier" ∷ []) [] "shop" "web-0"
      (record { text = "labels"; written = refl; nonempty = refl; read = refl }) refl refl refl

-- A pod of another owner of the lower cluster.
abbrev other_pod : Pod
other_pod = record web_pod { meta = record web_meta { name = "other"; labels = none } }

abbrev untouched : (Names × Option ApiError) × Pod
untouched = (([], none), other_pod)

abbrev written : Pod × Pod
written = written_pods json web_pod web_pod (some ("tier" ∷ [])) [] web_pod.spec.containers

update_pod-IsUpdated_example :
    ((is_foreign web_pod ≡ true) × (untouched.0.0 ≡ []) × (written.1 ≡ web_pod))
    ⊎ ((is_foreign web_pod ≡ false)
        × ((current : Pod) × (copy : Pod) × (get_pod env [] "shop" "web-0" ≡ done (ok current))
            × (get_updated_pod json current web_pod env.ignore_labels ≡ done (copy, written.1))
            × IsUpdated env [] "shop" current copy []))
unfolding update_pod get_updated_pod update_images send_update is_updated update_error get_pod
    recover_pod is_virtual_pod index_nil index lookup
update_pod-IsUpdated_example = update_pod-IsUpdated env web_pod written.1 [] [] refl
