-- ===== src/Provider/Pods/Create.antt =====
-- pkg/provider/pod.go: what `CreatePod` brings about.
use tensile_kube.Prelude.{
  String, ◌≡◌, inl, inr, refl, Option-cases, ap, ◌∙◌, true, false, Option, none, some, List, arith,
  All, ◌==◌, subst, sym,
}
use tensile_kube.Prelude.Run.{done, Result, ok, err}
use tensile_kube.Api.{
  Secret, Pod, ServiceAccount, ApiError, not_found, already_exists, other, meta_named,
}
use tensile_kube.Util.Conversions.{trim_pod}
use tensile_kube.Controllers.Common.{is_not_found}
use tensile_kube.Controllers.Global.{ensure_namespace}
use tensile_kube.Provider.Needs.{get_secrets}
use tensile_kube.Provider.Dependencies.{create_secrets}
use tensile_kube.Provider.Dependencies.Exist.{IsStore}
use tensile_kube.Provider.Dependencies.Secrets.{create_secrets-exist}
use tensile_kube.Provider.Pods.{Env, sent, make_namespace, send_pod, create_pod}

module _ {S : Type 0} (env : Env S) where
  -- The poll ends with a run of its condition.
  abbrev pub PollsOnce : Type 0
  PollsOnce = (f : S → S × Option ApiError) (s : S) → (t : S) × (env.poll f s ≡ f t)

  -- Where the lister does not have the namespace and the creation finds that it exists, since it has
  -- appeared in between, `CreatePod` ends with the lister's error; `ensureNamespace` of the
  -- controllers goes on without one.
  make_namespace-raced :
      (ns : String) (s t : S)
      → env.lower.namespaces.find s "" ns ≡ err not_found
      → env.lower.namespaces.create s "" (meta_named ns) ≡ (t, err already_exists)
      → (make_namespace env ns s ≡ (t, some not_found))
        × (ensure_namespace
              (env.lower.namespaces.find s "" ns)
              (env.lower.namespaces.create s "" (meta_named ns)).1
            ≡ (true, none))
  unfolding make_namespace is_not_found ensure_namespace
  make_namespace-raced ns s t h e = (rw (h, e, make_namespace) refl, rw (h, e) refl)

  -- The other half: a creation that fails otherwise.
  make_namespace-failed :
      (ns m : String) (s t : S)
      → env.lower.namespaces.find s "" ns ≡ err not_found
      → env.lower.namespaces.create s "" (meta_named ns) ≡ (t, err (other m))
      → (make_namespace env ns s ≡ (t, none))
        × (ensure_namespace
              (env.lower.namespaces.find s "" ns)
              (env.lower.namespaces.create s "" (meta_named ns)).1
            ≡ (true, some (other m)))
  unfolding make_namespace is_not_found ensure_namespace
  make_namespace-failed ns m s t h e = (rw (h, e, make_namespace) refl, rw (h, e) refl)

  abbrev pub Created : Pod → S → S → Type 0
  Created pod s t =
      (o : Pod) × (env.lower.pods.create s pod.meta.namespace
          (trim_pod env.json pod env.ignore_labels)
        ≡ (t, ok o))

  sent-ok : (r : S × Result ApiError Pod) → sent r.1 ≡ none → (o : Pod) × (r ≡ (r.0, ok o))
  unfolding sent
  sent-ok (t, ok o) h = (o, refl)
  sent-ok (t, err e) h = ground arith

  send_pod-Created :
      (pod : Pod) (r : S × Option ApiError)
      → (send_pod env pod r).1 ≡ none
      → (r.1 ≡ none) × Created pod r.0 (send_pod env pod r).0
  unfolding send_pod
  send_pod-Created pod (s, some e) h = ground arith
  send_pod-Created pod (s, none) h = (
    refl,
    sent-ok (env.lower.pods.create s pod.meta.namespace (trim_pod env.json pod env.ignore_labels))
        h,
  )

  -- One run of the condition of the poll.
  abbrev attempt : Pod → List String → S → S × Option ApiError
  attempt pod names =
      create_secrets env.lower env.upper env.enable_service_account pod.meta.namespace names

  -- `CreatePod` outside of kube-system returns no error only where the pod that `TrimPod` makes was
  -- created in the lower cluster, and at that moment every secret of the pod was there, however often
  -- the creation of the secrets was tried; the lower cluster behaves as documented.
  pub create_pod-Created :
      (Exists : S → String → String → Type 0)
      → IsStore env.lower.secrets (λ o. o.meta.name) Exists
      → ((s : S) (ns n m : String) (o : ServiceAccount)
          → Exists s ns n
          → Exists (env.lower.accounts.create s m o).0 ns n)
      → ((s : S) (ns n m : String) (o : ServiceAccount)
          → Exists s ns n
          → Exists (env.lower.update_account s m o).0 ns n)
      → ((ns n : String) (o : Secret) → env.upper.secret ns n ≡ ok o → o.meta.name ≡ n)
      → PollsOnce
      → (pod : Pod) (names : List String) (s t : S) → (pod.meta.namespace == "kube-system") ≡ false
      → get_secrets pod ≡ done names
      → create_pod env pod s ≡ done (t, none)
      → (u : S) × All (Exists u pod.meta.namespace) names × Created pod u t
  unfolding create_pod
  create_pod-Created Exists law accounts updates named polls pod names s t ns secrets run =
      let ready = make_namespace env pod.meta.namespace s in
      elim (Option-cases ready.1) [
        | inl made ↦
            let (v, polled) = polls (attempt pod names) ready.0 in
            let answered : send_pod env pod (attempt pod names v) ≡ (t, none) =
              sym (ap (send_pod env pod) polled) ∙ ground arith in
            let (fine, created) =
              send_pod-Created pod (attempt pod names v) (ap (λ r. r.1) answered) in
            (
              (attempt pod names v).0,
              create_secrets-exist env.lower pod.meta.namespace Exists law
                  (λ s n m o. accounts s pod.meta.namespace n m o)
                  (λ s n m o. updates s pod.meta.namespace n m o) env.upper
                  env.enable_service_account (named pod.meta.namespace) names v fine,
              subst (Created pod (attempt pod names v).0) (ap (λ r. r.0) answered) created,
            )
        | inr (e, failed) ↦ ground arith
      ]
