-- ===== src/Provider/Dependencies/Secrets.antt =====
-- pkg/provider/pod.go: the secrets of a pod, and the service accounts that some of them belong to.
use tensile_kube.Prelude.{
  String, ◌≡◌, inl, inr, refl, Bool, true, false, Option, none, some, List, arith, All, subst, ap,
  ◌∙◌, if◌then◌else◌, ◌==◌,
}
use tensile_kube.Prelude.Dict.{
  index, index_nil, insert, make_if_nil, lookup-insert, index_nil-make_if_nil,
}
use tensile_kube.Prelude.Run.{Result, ok, err}
use tensile_kube.Api.{Secret, ServiceAccount, ApiError, not_found, already_exists, other}
use tensile_kube.Util.Consts.{global_label}
use tensile_kube.Util.Conversions.{trim_object_meta}
use tensile_kube.Controllers.Global.{set_object_global, is_object_global}
use tensile_kube.Provider.Dependencies.{
  Lower, Upper, account_secret, refer_to_secret, create_absent, with_account, find_account,
  create_account_secret, create_service_account, create_marked_secret, create_secret,
  create_secrets,
}
use tensile_kube.Provider.Dependencies.Exist.{IsStore, create-exists, for_each-All, Result-cases}

module _ {S : Type 0} (lower : Lower S) (ns : String) (Exists : S → String → String → Type 0)
    (law : IsStore lower.secrets (λ o. o.meta.name) Exists)
    (accounts_keep : (s : S) (n m : String) (o : ServiceAccount)
      → Exists s ns n
      → Exists (lower.accounts.create s m o).0 ns n)
    (updates_keep : (s : S) (n m : String) (o : ServiceAccount)
      → Exists s ns n
      → Exists (lower.update_account s m o).0 ns n) where
  refer_to_secret-keeps :
      (n : String) (sa : ServiceAccount) (sent : Secret) (r : S × Result ApiError Secret)
      → Exists r.0 ns n
      → Exists (refer_to_secret lower sa sent r).0 ns n
  unfolding refer_to_secret
  refer_to_secret-keeps n sa sent (t, err already_exists) p = p
  refer_to_secret-keeps n sa sent (t, err not_found) p = updates_keep t n _ _ p
  refer_to_secret-keeps n sa sent (t, err (other m)) p = updates_keep t n _ _ p
  refer_to_secret-keeps n sa sent (t, ok o) p = updates_keep t n _ _ p

  create_account_secret-keeps :
      (account n : String) (sa : ServiceAccount) (secret : Secret) (s : S)
      → Exists s ns n
      → Exists (create_account_secret lower account sa secret s).0 ns n
  unfolding create_account_secret
  create_account_secret-keeps account n sa secret s p =
      refer_to_secret-keeps n sa _ _ (law.kept s ns n _ _ p)

  with_account-keeps :
      (account n : String) (secret : Secret) (r : S × Result ApiError ServiceAccount)
      → Exists r.0 ns n
      → Exists (with_account lower account secret r).0 ns n
  unfolding with_account
  with_account-keeps account n secret (t, ok sa) p =
      create_account_secret-keeps account n sa secret t p
  with_account-keeps account n secret (t, err already_exists) p = p
  with_account-keeps account n secret (t, err not_found) p = p
  with_account-keeps account n secret (t, err (other m)) p = p

  find_account-keeps :
      (account n : String) (secret : Secret) (s : S)
      → Exists s ns n
      → Exists (find_account lower account secret s).0 ns n
  unfolding find_account
  find_account-keeps account n secret s p =
      elim (Result-cases (lower.accounts.find s secret.meta.namespace account)) [
        | inl (sa, seen) ↦
            rw (seen, find_account) (create_account_secret-keeps account n sa secret s p)
        | inr (e, seen) ↦
            rw (seen, find_account)
              (with_account-keeps account n secret _ (accounts_keep s n _ _ p))
      ]

  create_service_account-keeps :
      (enabled : Bool) (n : String) (secret : Secret) (s : S)
      → Exists s ns n
      → Exists (create_service_account lower enabled secret s).0 ns n
  unfolding create_service_account
  create_service_account-keeps false n secret s p = p
  create_service_account-keeps true n secret s p = ground (
    arith,
    find_account-keeps
        (index "kubernetes.io/service-account.name" (make_if_nil secret.meta.annotations)) n secret
        s p,
  )

  refer_to_secret-sent :
      (sa : ServiceAccount) (sent : Secret) (r : S × Result ApiError Secret)
      → (refer_to_secret lower sa sent r).1 ≡ sent
  unfolding refer_to_secret
  refer_to_secret-sent sa sent (t, err already_exists) = refl
  refer_to_secret-sent sa sent (t, err not_found) = refl
  refer_to_secret-sent sa sent (t, err (other m)) = refl
  refer_to_secret-sent sa sent (t, ok o) = refl

  create_account_secret-name :
      (account : String) (sa : ServiceAccount) (secret : Secret) (s : S)
      → (create_account_secret lower account sa secret s).1.meta.name ≡ secret.meta.name
  unfolding create_account_secret account_secret
  create_account_secret-name account sa secret s =
      ap (λ (o : Secret). o.meta.name) (refer_to_secret-sent sa _ _)

  with_account-name :
      (account : String) (secret : Secret) (r : S × Result ApiError ServiceAccount)
      → (with_account lower account secret r).1.meta.name ≡ secret.meta.name
  unfolding with_account
  with_account-name account secret (t, ok sa) = create_account_secret-name account sa secret t
  with_account-name account secret (t, err already_exists) = refl
  with_account-name account secret (t, err not_found) = refl
  with_account-name account secret (t, err (other m)) = refl

  find_account-name :
      (account : String) (secret : Secret) (s : S)
      → (find_account lower account secret s).1.meta.name ≡ secret.meta.name
  unfolding find_account
  find_account-name account secret s =
      elim (Result-cases (lower.accounts.find s secret.meta.namespace account)) [
        | inl (sa, seen) ↦ rw (seen, find_account) (create_account_secret-name account sa secret s)
        | inr (e, seen) ↦ rw (seen, find_account) (with_account-name account secret _)
      ]

  create_service_account-name :
      (enabled : Bool) (secret : Secret) (s : S)
      → (create_service_account lower enabled secret s).1.meta.name ≡ secret.meta.name
  unfolding create_service_account
  create_service_account-name false secret s = refl
  create_service_account-name true secret s = ground (
    arith,
    find_account-name
        (index "kubernetes.io/service-account.name" (make_if_nil secret.meta.annotations)) secret s,
  )

  create_marked_secret-exists :
      (r : S × Secret × Option ApiError)
      → (create_marked_secret lower ns r).1 ≡ none
      → Exists (create_marked_secret lower ns r).0 ns r.1.meta.name
  unfolding create_marked_secret set_object_global
  create_marked_secret-exists (s, secret, some e) h = ground arith
  create_marked_secret-exists (s, secret, none) h =
      create-exists law s ns (record secret { meta = set_object_global secret.meta }) (ground arith)

  create_marked_secret-keeps :
      (n : String) (r : S × Secret × Option ApiError)
      → Exists r.0 ns n
      → Exists (create_marked_secret lower ns r).0 ns n
  unfolding create_marked_secret
  create_marked_secret-keeps n (s, secret, some e) p = p
  create_marked_secret-keeps n (s, secret, none) p = law.kept s ns n _ _ p

  -- The secret before it is created, with its service account or without.
  abbrev prepared : Bool → Secret → S → S × Secret × Option ApiError
  prepared enabled secret s =
      if secret.type == "kubernetes.io/service-account-token"
      then create_service_account lower enabled secret s
      else (s, secret, none)

  prepared-name :
      (enabled : Bool) (secret : Secret) (s : S)
      → (prepared enabled secret s).1.meta.name ≡ secret.meta.name
  prepared-name enabled secret s = ground (arith, create_service_account-name enabled secret s)

  prepared-keeps :
      (enabled : Bool) (n : String) (secret : Secret) (s : S)
      → Exists s ns n
      → Exists (prepared enabled secret s).0 ns n
  prepared-keeps enabled n secret s p =
      ground (arith, create_service_account-keeps enabled n secret s p)

  module _ (upper : Upper) (enabled : Bool)
      (named : (n : String) (o : Secret) → upper.secret ns n ≡ ok o → o.meta.name ≡ n) where
    create_absent-exists :
        (n : String) (r : Result ApiError Secret) (s : S)
        → ((o : Secret) → r ≡ ok o → o.meta.name ≡ n)
        → (create_absent lower upper enabled ns r s).1 ≡ none
        → Exists (create_absent lower upper enabled ns r s).0 ns n
    unfolding create_absent trim_object_meta
    create_absent-exists n (err e) s name h = ground arith
    create_absent-exists n (ok o) s name h =
        let secret : Secret = record o { meta = trim_object_meta o.meta } in
        subst (Exists (create_marked_secret lower ns (prepared enabled secret s)).0 ns)
          (prepared-name enabled secret s ∙ name o refl)
          (create_marked_secret-exists (prepared enabled secret s) h)

    create_absent-keeps :
        (n : String) (r : Result ApiError Secret) (s : S)
        → Exists s ns n
        → Exists (create_absent lower upper enabled ns r s).0 ns n
    unfolding create_absent trim_object_meta
    create_absent-keeps n (err e) s p = p
    create_absent-keeps n (ok o) s p =
        let secret : Secret = record o { meta = trim_object_meta o.meta } in
        create_marked_secret-keeps n (prepared enabled secret s)
          (prepared-keeps enabled n secret s p)

    create_secret-exists :
        (n : String) (s : S)
        → (create_secret lower upper enabled ns n s).1 ≡ none
        → Exists (create_secret lower upper enabled ns n s).0 ns n
    unfolding create_secret
    create_secret-exists n s h = elim (Result-cases (lower.secrets.find s ns n)) [
      | inl (o, seen) ↦ rw (seen, create_secret) (law.found s ns n o seen)
      | inr (e, seen) ↦ ground (arith, create_absent-exists n (upper.secret ns n) s (named n))
    ]

    create_secret-keeps :
        (n m : String) (s : S)
        → Exists s ns n
        → Exists (create_secret lower upper enabled ns m s).0 ns n
    unfolding create_secret
    create_secret-keeps n m s p = ground (arith, create_absent-keeps n (upper.secret ns m) s p)

    -- After `createSecrets` has returned no error, every secret that the pod names is in the lower
    -- cluster, with service accounts enabled or not, where the lower API server and lister behave
    -- as documented and the upper one answers with the object of the name that it is asked for.
    pub create_secrets-exist :
        (names : List String) (s : S)
        → (create_secrets lower upper enabled ns names s).1 ≡ none
        → All (Exists (create_secrets lower upper enabled ns names s).0 ns) names
    unfolding create_secrets
    create_secrets-exist names s h =
        for_each-All (create_secret lower upper enabled ns) (λ s n. Exists s ns n)
          (λ n m s p. create_secret-keeps n m s p) (λ n s e. create_secret-exists n s e) names s h

-- The secret that is created together with its service account carries the mark of the virtual kubelet
-- only where the upper secret does; the creation with the mark finds it there already.
is_object_global-account_secret :
    (account : String) (sa : ServiceAccount) (secret : Secret)
    → is_object_global (account_secret account sa secret).meta ≡ is_object_global secret.meta
unfolding account_secret is_object_global index_nil index
is_object_global-account_secret account sa secret =
    let m = make_if_nil secret.meta.annotations in
    ap (λ v. v == "true")
      (ground (
        arith,
        lookup-insert global_label "kubernetes.io/service-account.uid" sa.meta.uid
            (insert "kubernetes.io/service-account.name" account m),
        lookup-insert global_label "kubernetes.io/service-account.name" account m,
      )
        ∙ index_nil-make_if_nil global_label secret.meta.annotations)
