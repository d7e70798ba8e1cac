-- ===== src/Server/Registry/Services.antt =====
-- What registering a service does to the registry.
use xdrpp.Common.{
  ℕ, ◌^◌, ◌<◌, ◌≡◌, ◌≢◌, refl, sym, subst, ◌∙◌, ap, Option, some, List, [], Bool-cases, inl, inr,
  ◌⊎◌, Option-cases, get_some, ◌==◌, ==_iff, ne_of_==,
}
use xdrpp.Server.Registry.{lookup, assign, Service, Servers, versions_of, register_service_base}
use xdrpp.Server.Registry.Order.{
  IsSorted, assign-IsSorted, lookup-assign, lookup-assign_other, Below, assign-Below,
}

-- The versions of a program: they ascend, there is at least one, and each stands under its own
-- program and version.
pub record AreVersions (prog : ℕ) (versions : List (ℕ × Service)) : Type 0 where
  pub ascend : IsSorted versions
  pub bounded : Below (2 ^ 32) versions
  pub some_vers : (v : ℕ) × (s : Service) × (lookup v versions ≡ some s)
  pub own : (v : ℕ) (s : Service) → lookup v versions ≡ some s → (prog ≡ s.prog) × (v ≡ s.vers)

pub record IsRegistry (servers : Servers) : Type 0 where
  pub sorted : IsSorted servers
  pub programs :
      (prog : ℕ) (versions : List (ℕ × Service))
      → lookup prog servers ≡ some versions
      → AreVersions prog versions

-- What stands under a key after an assignment.
lookup-assign_cases :
    {A : Type 0} (i k : ℕ) (a b : A) (m : List (ℕ × A))
    → lookup i (assign k a m) ≡ some b
    → ((i ≡ k) × (a ≡ b)) ⊎ ((i ≢ k) × (lookup i m ≡ some b))
lookup-assign_cases i k a b m e = elim (Bool-cases (i == k)) [
  | inl same ↦
      let i≡k : i ≡ k = (==_iff i k).0 same in
      inl (
        i≡k,
        get_some b
            (sym (lookup-assign k a m) ∙ subst (λ (j : ℕ). lookup j (assign k a m) ≡ some b) i≡k e),
      )
  | inr other ↦ inr (ne_of_== i k other, sym (lookup-assign_other i k a m (ne_of_== i k other)) ∙ e)
]

AreVersions-assign :
    (s : Service) (versions : List (ℕ × Service))
    → s.vers < 2 ^ 32
    → IsSorted versions
    → Below (2 ^ 32) versions
    → ((v : ℕ) (t : Service) → lookup v versions ≡ some t → (s.prog ≡ t.prog) × (v ≡ t.vers))
    → AreVersions s.prog (assign s.vers s versions)
AreVersions-assign s versions h asc below own = record {
  ascend = assign-IsSorted s.vers s versions asc;
  bounded = assign-Below (2 ^ 32) s.vers s versions h below;
  some_vers = (s.vers, s, lookup-assign s.vers s versions);
  own = λ v t e. elim (lookup-assign_cases v s.vers s t versions e) [
    | inl (v≡, s≡t) ↦ (ap (λ (u : Service). u.prog) s≡t, v≡ ∙ ap (λ (u : Service). u.vers) s≡t)
    | inr (n, old) ↦ own v t old
  ];
}

-- A program that has no services yet has no versions.
versions_of-AreVersions :
    (s : Service) (servers : Servers)
    → s.vers < 2 ^ 32
    → IsRegistry servers
    → AreVersions s.prog (assign s.vers s (versions_of s.prog servers))
versions_of-AreVersions s servers h r = elim (Option-cases (lookup s.prog servers)) [
  | inl none' ↦
      rw (none', versions_of)
        (AreVersions-assign s [] h tt tt (λ v t e. absurd (unfold lookup in (cc))))
  | inr (versions, found) ↦
      let old : AreVersions s.prog versions = r.programs s.prog versions found in
      rw (found, versions_of) (AreVersions-assign s versions h old.ascend old.bounded old.own)
]

-- Registering a service whose version is a `uint32_t` keeps the registry well formed: programs and
-- versions ascend, no program is without versions, and every service stands under its own program
-- and version.
pub register_service_base-IsRegistry :
    (s : Service) (servers : Servers)
    → s.vers < 2 ^ 32
    → IsRegistry servers
    → IsRegistry (register_service_base s servers)
unfolding register_service_base
register_service_base-IsRegistry s servers h r = record {
  sorted = assign-IsSorted s.prog (assign s.vers s (versions_of s.prog servers)) servers r.sorted;
  programs = λ prog versions e.
      elim (lookup-assign_cases prog s.prog (assign s.vers s (versions_of s.prog servers)) versions
        servers e) [
          | inl (p≡, v≡) ↦
              subst (λ (p : ℕ). AreVersions p versions) (sym p≡)
                (subst (AreVersions s.prog) v≡ (versions_of-AreVersions s servers h r))
          | inr (n, old) ↦ r.programs prog versions old
        ];
}

-- The service for a program and a version.
unfoldable pub service_for : ℕ → ℕ → Servers → Option Service
service_for prog vers servers = lookup vers (versions_of prog servers)

-- After a registration its service is found under its program and version, and under every other
-- program or version the service that was there before.
pub register_service_base-service_for :
    (s : Service) (servers : Servers)
    → (service_for s.prog s.vers (register_service_base s servers) ≡ some s)
      × ((prog vers : ℕ)
          → ¬ ((prog ≡ s.prog) × (vers ≡ s.vers))
          → service_for prog vers (register_service_base s servers) ≡ service_for prog vers servers)
unfolding register_service_base service_for
register_service_base-service_for s servers = (here, others)
  where
    versions : List (ℕ × Service)
    versions = assign s.vers s (versions_of s.prog servers)

    own : versions_of s.prog (assign s.prog versions servers) ≡ versions
    own = rw (lookup-assign s.prog versions servers, versions_of) refl

    here : lookup s.vers (versions_of s.prog (assign s.prog versions servers)) ≡ some s
    here = ap (lookup s.vers) own ∙ lookup-assign s.vers s (versions_of s.prog servers)

    others :
        (prog vers : ℕ)
        → ¬ ((prog ≡ s.prog) × (vers ≡ s.vers))
        → lookup vers (versions_of prog (assign s.prog versions servers))
          ≡ lookup vers (versions_of prog servers)
    others prog vers n = elim (Bool-cases (prog == s.prog)) [
      | inl same ↦
          let p≡ : prog ≡ s.prog = (==_iff prog s.prog).0 same in
          rw p≡ (
            ap (lookup vers) own
            ∙ lookup-assign_other vers s.vers s (versions_of s.prog servers) (λ v≡. n (p≡, v≡)))
      | inr other ↦
          rw
            (
              lookup-assign_other prog s.prog versions servers (ne_of_== prog s.prog other),
              versions_of,
            )
            refl
    ]
