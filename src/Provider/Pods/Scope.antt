-- ===== src/Provider/Pods/Scope.antt =====
-- pkg/provider/pod.go: which pods the provider leaves alone.
use tensile_kube.Prelude.{
  String, ◌≡◌, ◌⊎◌, inl, inr, refl, sym, ap, subst, ◌∙◌, Bool-cases, Bool, true, false, not, ◌||◌,
  Option, none, some, if◌then◌else◌, arith, ◌==◌,
}
use tensile_kube.Prelude.Run.{Run, done, panic, ◌>>=◌, Result, ok, err}
use tensile_kube.Api.{Pod, ApiError, other}
use tensile_kube.Util.Consts.{is_virtual_pod}
use tensile_kube.Util.Conversions.{get_updated_pod}
use tensile_kube.Provider.Pods.{
  Env, get_pod, update_pod, delete_pod, send_update, update_error, is_updated,
}

-- A pod of the system, or one that the virtual kubelet has not made.
abbrev pub is_foreign : Pod → Bool
is_foreign pod = (pod.meta.namespace == "kube-system") || not (is_virtual_pod pod)

done_eq :
    {A B : Type 0} {a b : A} {x y : B}
    → ◌≡◌ {A = Run (A × B)} (done (a, x)) (done (b, y))
    → (a ≡ b) × (x ≡ y)
done_eq h = (cc, cc)

module _ {S : Type 0} (env : Env S) where
  -- A foreign pod is neither deleted nor updated: whatever the API server would answer, the lower cluster
  -- and the caller's pod stay as they are, and the deletion is reported as a success.
  delete_pod-foreign :
      (pod : Pod) (s : S) (r : (S × Option ApiError) × Pod)
      → is_foreign pod ≡ true
      → update_pod env pod s ≡ done r
      → (delete_pod env pod s ≡ (s, none)) × (r.0.0 ≡ s) × (r.1 ≡ pod)
  unfolding update_pod delete_pod
  delete_pod-foreign pod s r f run = ground arith

  update_error-ok :
      (r : S × Result ApiError Pod) → update_error r.1 ≡ none → (o : Pod) × (r ≡ (r.0, ok o))
  unfolding update_error
  update_error-ok (t, ok o) h = (o, refl)
  update_error-ok (t, err e) h = ground arith

  -- The current pod has the spec, the annotations and the labels that it should have.
  abbrev pub IsCurrent : Pod → Pod → Type 0
  IsCurrent current copy =
      (env.same_spec current.spec copy.spec ≡ true)
      × (env.same_map current.meta.annotations copy.meta.annotations ≡ true)
      × (env.same_map current.meta.labels copy.meta.labels ≡ true)

  -- Nothing was to be updated, or the API server has taken the whole update.
  abbrev pub IsUpdated : S → String → Pod → Pod → S → Type 0
  IsUpdated s namespace current copy t =
      (IsCurrent current copy × (t ≡ s))
      ⊎ ((¬ (IsCurrent current copy))
          × ((o : Pod) × (env.lower.update_pod s namespace copy ≡ (t, ok o))))

  is_updated-IsCurrent :
      (current copy : Pod)
      → (is_updated env current copy ≡ true → IsCurrent current copy)
        × (is_updated env current copy ≡ false → ¬ (IsCurrent current copy))
  unfolding is_updated
  is_updated-IsCurrent current copy = (
    λ h. (ground arith, ground arith, ground arith),
    λ h same. false_ne_true (sym h ∙ rw (same.0, same.1, same.2) refl),
  )
    where
      false_ne_true : false ≡ true → ⊥
      false_ne_true h = cc

  send_update-IsUpdated :
      (namespace : String) (current copy : Pod) (s : S)
      → (send_update env namespace current copy s).1 ≡ none
      → IsUpdated s namespace current copy (send_update env namespace current copy s).0
  unfolding send_update
  send_update-IsUpdated namespace current copy s h =
      elim (Bool-cases (is_updated env current copy)) [
        | inl same ↦ inl ((is_updated-IsCurrent current copy).0 same, rw (same, send_update) refl)
        | inr differ ↦ inr (
          (is_updated-IsCurrent current copy).1 differ,
          rw (differ, send_update)
              (update_error-ok (env.lower.update_pod s namespace copy) (ground arith)),
        )
      ]

  -- The end of `UpdatePod`, from what `GetUpdatedPod` makes.
  made_update :
      (pod after current : Pod) (s t : S) (m : Run (Pod × Pod))
      → ◌>>=◌ {B = (S × Option ApiError) × Pod} m
          (λ (copy, update). done (send_update env pod.meta.namespace current copy s, update))
        ≡ done ((t, none), after)
      → (copy : Pod) × (m ≡ done (copy, after)) × IsUpdated s pod.meta.namespace current copy t
  made_update pod after current s t panic h = cc
  made_update pod after current s t (done (copy, update)) h =
      let same : send_update env pod.meta.namespace current copy s ≡ (t, none) = (done_eq h).0 in
      (
        copy,
        ap (λ q. done (copy, q)) (done_eq h).1,
        subst (IsUpdated s pod.meta.namespace current copy) (ap (λ r. r.0) same)
            (send_update-IsUpdated pod.meta.namespace current copy s (ap (λ r. r.1) same)),
      )

  -- What a run without an error has done, for a pod that is not of the system.
  abbrev Ended : Pod → Pod → S → S → Run (Result ApiError Pod) → Type 0
  Ended pod after s t r =
      ((is_virtual_pod pod ≡ false) × (t ≡ s) × (after ≡ pod))
      ⊎ ((is_virtual_pod pod ≡ true)
          × ((current : Pod) × (copy : Pod) × (r ≡ done (ok current))
              × (get_updated_pod env.json current pod env.ignore_labels ≡ done (copy, after))
              × IsUpdated s pod.meta.namespace current copy t))

  found_update :
      (pod after : Pod) (s t : S) (r : Run (Result ApiError Pod))
      → ◌>>=◌ {B = (S × Option ApiError) × Pod} r (λ r. elim r [
        | err e ↦ done ((s, some (other "could not get current pod")), pod)
        | ok current ↦
            if not (is_virtual_pod pod)
            then done ((s, none), pod)
            else ◌>>=◌ {B = (S × Option ApiError) × Pod}
                (get_updated_pod env.json current pod env.ignore_labels)
                (λ (copy, update). done (send_update env pod.meta.namespace current copy s, update))
      ])
        ≡ done ((t, none), after)
      → Ended pod after s t r
  found_update pod after s t panic h = cc
  found_update pod after s t (done (err e)) h = cc
  found_update pod after s t (done (ok current)) h = elim (Bool-cases (is_virtual_pod pod)) [
    | inl vk ↦
        let (copy, made, updated) =
          made_update pod after current s t (get_updated_pod env.json current pod env.ignore_labels)
            (rw vk at h) in
        inr (vk, (current, copy, refl, made, updated))
    | inr unmarked ↦ inl (unmarked, ground arith, ground arith)
  ]

  -- An update that ends without a panic or an error has left the lower cluster as it was where the pod is
  -- of the system or was not made by the virtual kubelet. Otherwise `GetPod` found the pod and
  -- `GetUpdatedPod` made the new one from it, and either both have the same spec, annotations and labels
  -- and the lower cluster is as it was, or they have not and the API server has taken the new one.
  pub update_pod-IsUpdated :
      (pod after : Pod) (s t : S)
      → update_pod env pod s ≡ done ((t, none), after)
      → ((is_foreign pod ≡ true) × (t ≡ s) × (after ≡ pod))
        ⊎ ((is_foreign pod ≡ false)
            × ((current : Pod) × (copy : Pod) × (get_pod env s pod.meta.namespace pod.meta.name
                  ≡ done (ok current))
                × (get_updated_pod env.json current pod env.ignore_labels ≡ done (copy, after))
                × IsUpdated s pod.meta.namespace current copy t))
  unfolding update_pod
  update_pod-IsUpdated pod after s t run = elim (Bool-cases (pod.meta.namespace == "kube-system")) [
    | inl system ↦ ground arith
    | inr user ↦
        elim (found_update pod after s t (get_pod env s pod.meta.namespace pod.meta.name)
          (rw user at run)) [
            | inl (unmarked, same, unchanged) ↦ inl (ground arith, same, unchanged)
            | inr (vk, updated) ↦ inr (ground arith, updated)
          ]
  ]
