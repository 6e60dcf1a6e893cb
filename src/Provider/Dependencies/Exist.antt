-- ===== src/Provider/Dependencies/Exist.antt =====
-- pkg/provider/pod.go: after a run without an error, what the pod needs is in the lower cluster.
use tensile_kube.Prelude.{
  String, ◌≡◌, ◌⊎◌, inl, inr, Bool-cases, refl, ap, true, Option, none, some, List, [], ◌∷◌, arith,
  All, All-contains, contains, subst, sym,
}
use tensile_kube.Prelude.Run.{Result, ok, err}
use tensile_kube.Api.{ConfigMap, PersistentVolumeClaim, ApiError, not_found, already_exists, other}
use tensile_kube.Controllers.Common.{is_not_found}
use tensile_kube.Provider.Dependencies.{
  Store, Lower, Upper, unless_exists, copy_down, mark_config_map, mark_pvc, copy_meta, for_each,
  create_config_map, create_config_maps, create_pvc, create_pvcs,
}

pub Result-cases {ℓ} :
    {A : Type ℓ} (r : Result ApiError A) → ((a : A) × (r ≡ ok a)) ⊎ ((e : ApiError) × (r ≡ err e))
Result-cases (ok a) = inl (a, refl)
Result-cases (err e) = inr (e, refl)

-- The loop, once and for all: what one round brings about and no round undoes holds of every name.
module _ {S : Type 0} (one : String → S → S × Option ApiError) (P : S → String → Type 0)
    (keeps : (n m : String) (s : S) → P s n → P (one m s).0 n) where
  for_each-keeps : (n : String) (names : List String) (s : S) → P s n → P (for_each one names s).0 n
  unfolding for_each
  for_each-keeps n [] s p = p
  for_each-keeps n (m ∷ names) s p =
      ground (arith, for_each-keeps n names (one m s).0 (keeps n m s p), keeps n m s p)

  for_each-step :
      (m : String) (names : List String) (s : S)
      → (one m s).1 ≡ none
      → for_each one (m ∷ names) s ≡ for_each one names (one m s).0
  unfolding for_each
  for_each-step m names s h = rw (h, for_each) refl

  pub for_each-All :
      ((n : String) (s : S) → (one n s).1 ≡ none → P (one n s).0 n)
      → (names : List String) (s : S) → (for_each one names s).1 ≡ none
      → All (P (for_each one names s).0) names
  unfolding for_each
  for_each-All holds [] s h = tt
  for_each-All holds (m ∷ names) s h = go (one m s).1 refl (for_each-All holds names (one m s).0)
    where
      go :
          (e : Option ApiError)
          → (one m s).1 ≡ e
          → ((for_each one names (one m s).0).1 ≡ none
              → All (P (for_each one names (one m s).0).0) names)
          → All (P (for_each one (m ∷ names) s).0) (m ∷ names)
      go none computed rest =
          subst (λ r. All (P r.0) (m ∷ names)) (sym (for_each-step m names s computed))
            (for_each-keeps m names (one m s).0 (holds m s computed), rest (ground arith))
      go (some e) computed rest = ground arith

-- The documented behaviour of one kind of object: `Exists` of a state, a namespace and a name is that
-- the object is in the lower cluster.
pub record IsStore {S O : Type 0} (store : Store S O) (name_of : O → String)
    (Exists : S → String → String → Type 0) : Type 0 where
  pub found : (s : S) (ns n : String) (o : O) → store.find s ns n ≡ ok o → Exists s ns n
  pub created :
      (s : S) (ns : String) (o p : O)
      → (store.create s ns o).1 ≡ ok p
      → Exists (store.create s ns o).0 ns (name_of o)
  pub present :
      (s : S) (ns : String) (o : O)
      → (store.create s ns o).1 ≡ err already_exists
      → Exists (store.create s ns o).0 ns (name_of o)
  pub kept : (s : S) (ns n m : String) (o : O) → Exists s ns n → Exists (store.create s m o).0 ns n

-- A creation that an object in the way does not fail.
pub create-exists :
    {S O : Type 0} {store : Store S O} {name_of : O → String}
    {Exists : S → String → String → Type 0} (law : IsStore store name_of Exists) (s : S)
    (ns : String) (o : O)
    → unless_exists (store.create s ns o).1 ≡ none
    → Exists (store.create s ns o).0 ns (name_of o)
unfolding unless_exists
create-exists {O = O} {store = store} {name_of = name_of} {Exists = Exists} law s ns o h =
    go (store.create s ns o).1 refl
  where
    go :
        (r : Result ApiError O)
        → (store.create s ns o).1 ≡ r
        → Exists (store.create s ns o).0 ns (name_of o)
    go (ok p) computed = law.created s ns o p computed
    go (err already_exists) computed = law.present s ns o computed
    go (err not_found) computed = ground arith
    go (err (other m)) computed = ground arith

module _ {S O : Type 0} (store : Store S O) (mark : O → O) (missing : Option ApiError)
    (unknown : ApiError) (name_of : O → String) (Exists : S → String → String → Type 0)
    (law : IsStore store name_of Exists) (ns : String) where
  copy_down-exists :
      (n : String) (answer : Result ApiError O) (s : S)
      → ((e : ApiError) → answer ≡ err e → missing ≡ none → ⊥)
      → ((o : O) → answer ≡ ok o → name_of (mark o) ≡ n)
      → (copy_down store mark missing unknown ns n answer s).1 ≡ none
      → Exists (copy_down store mark missing unknown ns n answer s).0 ns n
  unfolding copy_down is_not_found
  copy_down-exists n (err f) s there named h = elim (Result-cases (store.find s ns n)) [
    | inl (o, seen) ↦ rw (seen, copy_down) (law.found s ns n o seen)
    | inr (e, seen) ↦ absurd (there f refl (ground arith))
  ]
  copy_down-exists n (ok o) s there named h = elim (Result-cases (store.find s ns n)) [
    | inl (o, seen) ↦ rw (seen, copy_down) (law.found s ns n o seen)
    | inr (e, seen) ↦ elim (Bool-cases (is_not_found e)) [
      | inl absent ↦
          rw (seen, absent, copy_down)
            (subst (Exists (store.create s ns (mark o)).0 ns) (named o refl)
              (create-exists law s ns (mark o) (ground arith)))
      | inr failed ↦ ground arith
    ]
  ]

  copy_down-keeps :
      (n m : String) (answer : Result ApiError O) (s : S)
      → Exists s ns n
      → Exists (copy_down store mark missing unknown ns m answer s).0 ns n
  unfolding copy_down is_not_found
  copy_down-keeps n m (err f) s p = ground arith
  copy_down-keeps n m (ok o) s p = ground (arith, law.kept s ns n ns (mark o) p)

module _ {S : Type 0} (lower : Lower S) (upper : Upper) (ns : String)
    (Exists : S → String → String → Type 0) where
  -- After `createConfigMaps` has returned no error, every config map that the pod names is in the lower
  -- cluster, where its API server and lister behave as documented and the upper one answers with
  -- the object of the name that it is asked for.
  pub create_config_maps-exist :
      IsStore lower.config_maps (λ o. o.meta.name) Exists
      → ((n : String) (o : ConfigMap) → upper.config_map ns n ≡ ok o → o.meta.name ≡ n)
      → (names : List String) (s : S) → (create_config_maps lower upper ns names s).1 ≡ none
      → All (Exists (create_config_maps lower upper ns names s).0 ns) names
  unfolding create_config_maps create_config_map mark_config_map copy_meta
  create_config_maps-exist law named =
      for_each-All (create_config_map lower upper ns) (λ s n. Exists s ns n)
        (λ n m s.
          copy_down-keeps lower.config_maps mark_config_map (some (other "find comfigmap error"))
            (other "could not check configmap in external cluster") (λ o. o.meta.name) Exists law ns
            n m (upper.config_map ns m) s)
        (λ n s.
          copy_down-exists lower.config_maps mark_config_map (some (other "find comfigmap error"))
            (other "could not check configmap in external cluster") (λ o. o.meta.name) Exists law ns
            n (upper.config_map ns n) s (λ e a m. elim (some_none m) [ ]) (named n))
    where
      some_none : some (other "find comfigmap error") ≡ none → ⊥
      some_none h = cc

  -- After `createPVCs` has returned no error, a claim that the pod names is in the lower cluster, where
  -- the upper one answers with it; a claim that it does not answer for may be missing.
  create_pvcs-exist :
      IsStore lower.claims (λ o. o.meta.name) Exists
      → (names : List String) (s : S) (n : String) (o : PersistentVolumeClaim)
      → upper.claim ns n ≡ ok o
      → o.meta.name ≡ n
      → contains n names ≡ true
      → (create_pvcs lower upper ns names s).1 ≡ none
      → Exists (create_pvcs lower upper ns names s).0 ns n
  unfolding create_pvcs create_pvc mark_pvc copy_meta
  create_pvcs-exist law names s n o above named listed fine =
      All-contains (λ m. m ≡ n → Exists (create_pvcs lower upper ns names s).0 ns m) n names
        (for_each-All (create_pvc lower upper ns) (λ s m. m ≡ n → Exists s ns m)
          (λ k m s p e.
            copy_down-keeps lower.claims mark_pvc none
              (other "could not check pvc in external cluster") (λ o. o.meta.name) Exists law ns k m
              (upper.claim ns m) s (p e))
          (λ m s h e.
            copy_down-exists lower.claims mark_pvc none
              (other "could not check pvc in external cluster") (λ o. o.meta.name) Exists law ns m
              (upper.claim ns m) s (λ f h r. unanswered m e f h) (named_as m e) h)
          names s fine)
        listed refl
    where
      unanswered : (m : String) → m ≡ n → (e : ApiError) → upper.claim ns m ≡ err e → ⊥
      unanswered m e f h = ground (arith, ap (upper.claim ns) e)

      named_as :
          (m : String)
          → m ≡ n
          → (p : PersistentVolumeClaim) → upper.claim ns m ≡ ok p
          → p.meta.name ≡ m
      named_as m e p h = ground (arith, ap (upper.claim ns) e)
