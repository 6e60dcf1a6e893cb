-- ===== src/Provider/Dependencies.antt =====
-- pkg/provider/pod.go: how the provider makes the secrets, config maps and claims that a pod needs. The
-- state is what the lower cluster's listers and API server hold; a message keeps its words,
-- without the names and the inner error.
pub mod Exist
pub mod Secrets
use tensile_kube.Prelude.{
  ℕ, String, Bool, true, false, Option, none, some, List, [], ◌∷◌, ◌==◌, if◌then◌else◌,
}
use tensile_kube.Prelude.Dict.{insert, index, make_if_nil}
use tensile_kube.Prelude.Run.{Result, ok, err}
use tensile_kube.Api.{
  ObjectMeta, Secret, ConfigMap, PersistentVolumeClaim, ServiceAccount, Pod, ApiError,
  already_exists, other, meta_named,
}
use tensile_kube.Util.Conversions.{trim_object_meta}
use tensile_kube.Controllers.Global.{set_object_global}
use tensile_kube.Controllers.Common.{is_not_found}
use tensile_kube.Controllers.Services.{error_of}

-- What is asked and done for one kind of object of the lower cluster; `S` is the cluster's state.
pub record Store (S O : Type 0) : Type 0 where
  pub find : S → String → String → Result ApiError O
  pub create : S → String → O → S × Result ApiError O

pub record Lower (S : Type 0) : Type 0 where
  pub namespaces : Store S ObjectMeta
  pub secrets : Store S Secret
  pub config_maps : Store S ConfigMap
  pub delete_config_map : S → String → String → S × Result ApiError (Unit {0})
  pub claims : Store S PersistentVolumeClaim
  pub accounts : Store S ServiceAccount
  pub update_account : S → String → ServiceAccount → S × Result ApiError ServiceAccount
  pub pods : Store S Pod
  pub update_pod : S → String → Pod → S × Result ApiError Pod
  pub delete_pod : S → String → String → Option ℕ → S × Result ApiError (Unit {0})

-- The objects of the upper cluster, by namespace and name.
pub record Upper : Type 0 where
  pub secret : String → String → Result ApiError Secret
  pub config_map : String → String → Result ApiError ConfigMap
  pub claim : String → String → Result ApiError PersistentVolumeClaim

-- The error of a creation, where an object that is there already is as good.
unfoldable pub unless_exists : {O : Type 0} → Result ApiError O → Option ApiError
unless_exists (ok o) = none
unless_exists (err already_exists) = none
unless_exists (err e) = some e

-- The mark and the trimmed metadata of a copy.
unfoldable pub copy_meta : ObjectMeta → ObjectMeta
unfolding trim_object_meta set_object_global
copy_meta meta = set_object_global (trim_object_meta meta)

-- A loop that ends with the first error.
unfoldable pub for_each :
    {S : Type 0} → (String → S → S × Option ApiError) → List String → S → S × Option ApiError
for_each one [] s = (s, none)
for_each one (name ∷ names) s = elim (one name s).1 [
  | none ↦ for_each one names (one name s).0
  | some e ↦ ((one name s).0, some e)
]

-- What `createConfigMaps` and `createPVCs` do for one name, by the upper cluster's answer. `missing` is
-- the error where it has none, `unknown` where the lower cluster fails.
module _ {S O : Type 0} (store : Store S O) (mark : O → O) (missing : Option ApiError)
    (unknown : ApiError) where
  unfoldable pub copy_down : String → String → Result ApiError O → S → S × Option ApiError
  unfolding unless_exists
  copy_down ns name answer s = elim (store.find s ns name) [
    | ok o ↦ (s, none)
    | err e ↦
        (if is_not_found e
          then elim answer [
            | err f ↦ (s, missing)
            | ok o ↦ ((store.create s ns (mark o)).0, unless_exists (store.create s ns (mark o)).1)
          ]
          else (s, some unknown))
  ]

unfoldable pub mark_config_map : ConfigMap → ConfigMap
unfolding copy_meta
mark_config_map o = record o { meta = copy_meta o.meta }

unfoldable pub mark_pvc : PersistentVolumeClaim → PersistentVolumeClaim
unfolding copy_meta
mark_pvc o = record o { meta = copy_meta o.meta }

module _ {S : Type 0} (lower : Lower S) (upper : Upper) (ns : String) where
  unfoldable pub create_config_map : String → S → S × Option ApiError
  unfolding copy_down
  create_config_map cm =
      copy_down lower.config_maps mark_config_map (some (other "find comfigmap error"))
        (other "could not check configmap in external cluster") ns cm (upper.config_map ns cm)

  unfoldable pub create_config_maps : List String → S → S × Option ApiError
  unfolding create_config_map for_each
  create_config_maps = for_each create_config_map

  -- A claim that the upper cluster does not answer for is passed over.
  unfoldable pub create_pvc : String → S → S × Option ApiError
  unfolding copy_down
  create_pvc cm =
      copy_down lower.claims mark_pvc none (other "could not check pvc in external cluster") ns cm
        (upper.claim ns cm)

  unfoldable pub create_pvcs : List String → S → S × Option ApiError
  unfolding create_pvc for_each
  create_pvcs = for_each create_pvc

  unfoldable pub delete_config_map : String → S → S × Option ApiError
  delete_config_map cm s =
      let (t, answer) = lower.delete_config_map s ns cm in
      (t, elim answer [ ok u ↦ none | err e ↦ if is_not_found e then none else some e ])

  unfoldable pub delete_config_maps : List String → S → S × Option ApiError
  unfolding delete_config_map for_each
  delete_config_maps = for_each delete_config_map

-- The token secret of an account, with the account's UID.
unfoldable pub account_secret : String → ServiceAccount → Secret → Secret
account_secret account sa secret = record secret {
  meta = record secret.meta {
    uid = sa.meta.uid;
    annotations = some (
        insert "kubernetes.io/service-account.uid" sa.meta.uid (
          insert "kubernetes.io/service-account.name" account
            (make_if_nil secret.meta.annotations)));
  };
}

module _ {S : Type 0} (lower : Lower S) where
  -- The account refers to the secret that was created, or could not be.
  unfoldable pub refer_to_secret :
      ServiceAccount → Secret → S × Result ApiError Secret → S × Secret × Option ApiError
  refer_to_secret sa sent (t, err already_exists) = (t, sent, none)
  refer_to_secret sa sent (t, answer) =
      let (u, updated) =
        lower.update_account t sent.meta.namespace (record sa { secrets = sent.meta.name ∷ [] }) in
      (u, sent, error_of updated)

  unfoldable pub create_account_secret :
      String → ServiceAccount → Secret → S → S × Secret × Option ApiError
  unfolding account_secret refer_to_secret
  create_account_secret account sa secret s =
      let sent = account_secret account sa secret in
      refer_to_secret sa sent (lower.secrets.create s secret.meta.namespace sent)

  -- After the creation of the account.
  unfoldable pub with_account :
      String → Secret → S × Result ApiError ServiceAccount → S × Secret × Option ApiError
  unfolding create_account_secret
  with_account account secret (t, ok sa) = create_account_secret account sa secret t
  with_account account secret (t, err already_exists) = (t, secret, none)
  with_account account secret (t, err e) = (t, secret, some e)

  unfoldable pub find_account : String → Secret → S → S × Secret × Option ApiError
  unfolding create_account_secret with_account
  find_account account secret s = elim (lower.accounts.find s secret.meta.namespace account) [
    | ok sa ↦ create_account_secret account sa secret s
    | err e ↦ with_account account secret (
        lower.accounts.create s secret.meta.namespace
          (record { meta = meta_named account; secrets = [] }))
  ]

  unfoldable pub create_service_account : Bool → Secret → S → S × Secret × Option ApiError
  unfolding find_account
  create_service_account false secret s = (s, secret, none)
  create_service_account true secret s = elim secret.meta.annotations [
    | none ↦ (s, secret, some (other "parse secret service account error"))
    | some annotations ↦
        let account = index "kubernetes.io/service-account.name" annotations in
        if account == ""
        then (s, secret, some (other "get secret of serviceAccount not exits"))
        else find_account account secret s
  ]

  -- The creation of the secret, after the account.
  unfoldable pub create_marked_secret : String → S × Secret × Option ApiError → S × Option ApiError
  unfolding set_object_global unless_exists
  create_marked_secret ns (s, secret, some e) = (s, some e)
  create_marked_secret ns (s, secret, none) =
      let (t, answer) =
        lower.secrets.create s ns (record secret { meta = set_object_global secret.meta }) in
      (
        t,
        elim (unless_exists answer) [
          | none ↦ none
          | some e ↦ some (other "could not create secret in external cluster")
        ],
      )

module _ {S : Type 0} (lower : Lower S) (upper : Upper) (enable_service_account : Bool)
    (ns : String) where
  -- A secret that the lower cluster lacks, by the upper cluster's answer.
  unfoldable pub create_absent : Result ApiError Secret → S → S × Option ApiError
  unfolding trim_object_meta create_service_account create_marked_secret
  create_absent (err e) s = (s, some e)
  create_absent (ok o) s =
      let secret = record o { meta = trim_object_meta o.meta } in
      create_marked_secret lower ns (
        if secret.type == "kubernetes.io/service-account-token"
        then create_service_account lower enable_service_account secret s
        else (s, secret, none))

  unfoldable pub create_secret : String → S → S × Option ApiError
  unfolding create_absent
  create_secret name s = elim (lower.secrets.find s ns name) [
    | ok o ↦ (s, none)
    | err e ↦ if is_not_found e then create_absent (upper.secret ns name) s else (s, some e)
  ]

  unfoldable pub create_secrets : List String → S → S × Option ApiError
  unfolding create_secret for_each
  create_secrets = for_each create_secret
