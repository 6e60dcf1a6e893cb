-- ===== src/Common/Resource/Amounts.antt =====
-- How much of each resource the node has.
use tensile_kube.Prelude.{
  String, ◌≡◌, refl, true, false, ◌∙◌, ap, Option, none, some, [], ◌∷◌, arith, eq_iff, ◌==◌,
  if◌then◌else◌, Bool-cases, inl, inr,
}
use tensile_kube.Prelude.Dict.{
  Dict, lookup, insert, make_if_nil, NodupKeys, lookup-insert, insert-NodupKeys,
}
use tensile_kube.Common.Resource.{
  Quantity, Resource, new_resource, quota, combine_custom, combine, convert_entry, convert_loop,
  convert_resource,
}

pub flip : (a b : String) → (a == b) ≡ (b == a)
flip a b = ground (arith, eq_iff a b, eq_iff b a)

named : (k name : String) → (k == name) ≡ true → name ≡ k
named k name h = ground (arith, eq_iff k name)

pub exclusive : (j a b : String) → (a == b) ≡ false → (j == a) ≡ true → (j == b) ≡ false
exclusive j a b differ h = ground (arith, eq_iff j a)

module _ {Q : Type 0} (qs : Quantity Q) where
  -- The quantity of the name in a resource.
  abbrev pub held : String → Resource Q → Q
  held j r =
      if j == "cpu"
      then r.cpu
      else if j == "memory"
      then r.memory
      else if j == "pods"
      then r.pods
      else if j == "ephemeral-storage"
      then r.ephemeral_storage
      else quota qs j (make_if_nil r.custom)

  -- The custom resources are a map, and have none of the four standard names.
  pub record Plain (r : Resource Q) : Type 0 where
    pub nodup : NodupKeys (make_if_nil r.custom)
    pub no_cpu : lookup "cpu" (make_if_nil r.custom) ≡ none
    pub no_memory : lookup "memory" (make_if_nil r.custom) ≡ none
    pub no_pods : lookup "pods" (make_if_nil r.custom) ≡ none
    pub no_storage : lookup "ephemeral-storage" (make_if_nil r.custom) ≡ none

  pub lookup-combine_custom :
      (op : Q → Q → Q) (j : String) (xs : Dict Q) (c : Option (Dict Q))
      → NodupKeys xs
      → lookup j (make_if_nil (combine_custom qs op xs c)) ≡ elim (lookup j xs) [
        | none ↦ lookup j (make_if_nil c)
        | some x ↦ some (op (quota qs j (make_if_nil c)) x)
      ]
  unfolding combine_custom lookup quota
  lookup-combine_custom op j [] c u = refl
  lookup-combine_custom op j ((k, x) ∷ xs) c (fresh, u) = ground (
    arith,
    eq_iff k j,
    lookup-insert j k (op (quota qs k (make_if_nil c)) x) (make_if_nil c),
    lookup-combine_custom op j xs
        (some (insert k (op (quota qs k (make_if_nil c)) x) (make_if_nil c))) u,
  )

  combine_custom-NodupKeys :
      (op : Q → Q → Q) (xs : Dict Q) (c : Option (Dict Q))
      → NodupKeys (make_if_nil c)
      → NodupKeys (make_if_nil (combine_custom qs op xs c))
  unfolding combine_custom
  combine_custom-NodupKeys op [] c u = u
  combine_custom-NodupKeys op ((k, x) ∷ xs) c u =
      combine_custom-NodupKeys op xs _ (insert-NodupKeys k _ (make_if_nil c) u)

  pub combine-Plain :
      (op : Q → Q → Q) (r nc : Resource Q) → Plain r → Plain nc → Plain (combine qs op r nc)
  unfolding combine
  combine-Plain op r nc p q = record {
    nodup = combine_custom-NodupKeys op (make_if_nil nc.custom) r.custom p.nodup;
    no_cpu =
        rw (lookup-combine_custom op "cpu" (make_if_nil nc.custom) r.custom q.nodup, q.no_cpu)
          p.no_cpu;
    no_memory =
        rw (lookup-combine_custom op "memory" (make_if_nil nc.custom) r.custom q.nodup, q.no_memory)
          p.no_memory;
    no_pods =
        rw (lookup-combine_custom op "pods" (make_if_nil nc.custom) r.custom q.nodup, q.no_pods)
          p.no_pods;
    no_storage =
        rw
          (
            lookup-combine_custom op "ephemeral-storage" (make_if_nil nc.custom) r.custom q.nodup,
            q.no_storage,
          )
          p.no_storage;
  }

  held_cpu :
      (j : String) (q : Q) (r : Resource Q)
      → held j (record r { cpu = q }) ≡ (if "cpu" == j then q else held j r)
  held_cpu j q r = rw (flip "cpu" j) (ground arith)

  held_memory :
      (j : String) (q : Q) (r : Resource Q)
      → held j (record r { memory = q }) ≡ (if "memory" == j then q else held j r)
  held_memory j q r = rw (flip "memory" j) (ground (arith, exclusive j "cpu" "memory" refl))

  held_pods :
      (j : String) (q : Q) (r : Resource Q)
      → held j (record r { pods = q }) ≡ (if "pods" == j then q else held j r)
  held_pods j q r =
      rw (flip "pods" j)
        (ground (arith, exclusive j "cpu" "pods" refl, exclusive j "memory" "pods" refl))

  held_storage :
      (j : String) (q : Q) (r : Resource Q)
      → held j (record r { ephemeral_storage = q })
        ≡ (if "ephemeral-storage" == j then q else held j r)
  held_storage j q r = rw (flip "ephemeral-storage" j) (
      ground (
        arith,
        exclusive j "cpu" "ephemeral-storage" refl,
        exclusive j "memory" "ephemeral-storage" refl,
        exclusive j "pods" "ephemeral-storage" refl,
      ))

  quota-insert :
      (j k : String) (q : Q) (m : Dict Q)
      → quota qs j (insert k q m) ≡ (if k == j then q else quota qs j m)
  unfolding quota
  quota-insert j k q m = ground (arith, lookup-insert j k q m)

  held_other :
      (j k : String) (q : Q) (r : Resource Q)
      → (k == "cpu") ≡ false
      → (k == "memory") ≡ false
      → (k == "pods") ≡ false
      → (k == "ephemeral-storage") ≡ false
      → held j (record r { custom = some (insert k q (make_if_nil r.custom)) })
        ≡ (if k == j then q else held j r)
  held_other j k q r c m d e = ground (arith, eq_iff k j, quota-insert j k q (make_if_nil r.custom))

  held-convert_entry :
      (j k : String) (q : Q) (r : Resource Q)
      → held j (convert_entry qs k q r) ≡ (if k == j then q else held j r)
  held-convert_entry j k q r = elim (Bool-cases (k == "cpu")) [
    | inl c ↦ rw c (rw (← named k "cpu" c) (held_cpu j q r))
    | inr c ↦ elim (Bool-cases (k == "memory")) [
      | inl m ↦ rw (c, m) (rw (← named k "memory" m) (held_memory j q r))
      | inr m ↦ elim (Bool-cases (k == "pods")) [
        | inl d ↦ rw (c, m, d) (rw (← named k "pods" d) (held_pods j q r))
        | inr d ↦ elim (Bool-cases (k == "ephemeral-storage")) [
          | inl e ↦ rw (c, m, d, e) (rw (← named k "ephemeral-storage" e) (held_storage j q r))
          | inr e ↦ rw (c, m, d, e) (held_other j k q r c m d e)
        ]
      ]
    ]
  ]

  -- A name that is not standard, under which a quantity is inserted.
  insert-Plain :
      (k : String) (q : Q) (r : Resource Q)
      → Plain r
      → (k == "cpu") ≡ false
      → (k == "memory") ≡ false
      → (k == "pods") ≡ false
      → (k == "ephemeral-storage") ≡ false
      → Plain (record r { custom = some (insert k q (make_if_nil r.custom)) })
  insert-Plain k q r p c m d e = record {
    nodup = insert-NodupKeys k q (make_if_nil r.custom) p.nodup;
    no_cpu = rw (lookup-insert "cpu" k q (make_if_nil r.custom), c) p.no_cpu;
    no_memory = rw (lookup-insert "memory" k q (make_if_nil r.custom), m) p.no_memory;
    no_pods = rw (lookup-insert "pods" k q (make_if_nil r.custom), d) p.no_pods;
    no_storage = rw (lookup-insert "ephemeral-storage" k q (make_if_nil r.custom), e) p.no_storage;
  }

  -- Quantities under the standard names do not matter.
  same-Plain :
      (r : Resource Q) (c m d e : Q)
      → Plain r
      → Plain (record { cpu = c; memory = m; pods = d; ephemeral_storage = e; custom = r.custom })
  same-Plain r c m d e p = record {
    nodup = p.nodup;
    no_cpu = p.no_cpu;
    no_memory = p.no_memory;
    no_pods = p.no_pods;
    no_storage = p.no_storage;
  }

  convert_entry-Plain :
      (k : String) (q : Q) (r : Resource Q) → Plain r → Plain (convert_entry qs k q r)
  convert_entry-Plain k q r p = elim (Bool-cases (k == "cpu")) [
    | inl c ↦ rw c (same-Plain r q r.memory r.pods r.ephemeral_storage p)
    | inr c ↦ elim (Bool-cases (k == "memory")) [
      | inl m ↦ rw (c, m) (same-Plain r r.cpu q r.pods r.ephemeral_storage p)
      | inr m ↦ elim (Bool-cases (k == "pods")) [
        | inl d ↦ rw (c, m, d) (same-Plain r r.cpu r.memory q r.ephemeral_storage p)
        | inr d ↦ elim (Bool-cases (k == "ephemeral-storage")) [
          | inl e ↦ rw (c, m, d, e) (same-Plain r r.cpu r.memory r.pods q p)
          | inr e ↦ rw (c, m, d, e) (insert-Plain k q r p c m d e)
        ]
      ]
    ]
  ]

  abbrev found_or : Option Q → Q → Q
  found_or none d = d
  found_or (some q) d = q

  found_or-cons :
      (j k : String) (q d : Q) (xs : Dict Q)
      → lookup k xs ≡ none
      → found_or (lookup j xs) (if k == j then q else d) ≡ found_or (lookup j ((k, q) ∷ xs)) d
  unfolding lookup
  found_or-cons j k q d xs fresh = ground (arith, eq_iff k j)

  held-convert_loop :
      (j : String) (xs : Dict Q) (r : Resource Q)
      → NodupKeys xs
      → held j (convert_loop qs xs r) ≡ found_or (lookup j xs) (held j r)
  unfolding convert_loop lookup
  held-convert_loop j [] r u = refl
  held-convert_loop j ((k, q) ∷ xs) r (fresh, u) =
      held-convert_loop j xs (convert_entry qs k q r) u
      ∙ ap (found_or (lookup j xs)) (held-convert_entry j k q r)
      ∙ found_or-cons j k q (held j r) xs fresh

  pub held-new_resource : (j : String) → held j (new_resource qs) ≡ qs.zero
  unfolding quota lookup
  held-new_resource j = ground arith

  pub convert_loop-Plain : (xs : Dict Q) (r : Resource Q) → Plain r → Plain (convert_loop qs xs r)
  unfolding convert_loop
  convert_loop-Plain [] r p = p
  convert_loop-Plain ((k, q) ∷ xs) r p =
      convert_loop-Plain xs (convert_entry qs k q r) (convert_entry-Plain k q r p)

  pub new_resource-Plain : Plain (new_resource qs)
  unfolding lookup
  new_resource-Plain = record {
    nodup = tt;
    no_cpu = refl;
    no_memory = refl;
    no_pods = refl;
    no_storage = refl;
  }

  pub held-convert_resource :
      (j : String) (capacity : Dict Q)
      → NodupKeys capacity
      → held j (convert_resource qs capacity) ≡ quota qs j capacity
  unfolding convert_resource quota
  held-convert_resource j capacity u =
      held-convert_loop j capacity (new_resource qs) u
      ∙ ap (found_or (lookup j capacity)) (held-new_resource j)
      ∙ ground arith
