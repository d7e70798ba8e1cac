-- ===== src/Server/Registry.antt =====
-- The services of `rpc_server_base` (xdrpp/server.h, server.cc): a map from programs to maps from
-- versions to services. A `std::map` is the list of its entries in the order of their keys.
pub mod Order
pub mod Services
use xdrpp.Common.{ℕ, Option, none, some, List, [], ◌∷◌, ltb, ◌==◌, if◌then◌else◌}
use xdrpp.Common.Result.{Res, ok, fault}
use xdrpp.Types.{Ty, Vals}
use xdrpp.Message.{Arg}

module _ {A : Type 0} where
  -- `find`
  unfoldable pub lookup : ℕ → List (ℕ × A) → Option A
  lookup k [] = none
  lookup k ((j, a) ∷ m) = if k == j then some a else lookup k m

  -- `m[k] = a`
  unfoldable pub assign : ℕ → A → List (ℕ × A) → List (ℕ × A)
  assign k a [] = (k, a) ∷ []
  assign k a ((j, b) ∷ m) =
      let rest = assign k a m in
      if ltb k j then (k, a) ∷ (j, b) ∷ m else if k == j then (k, a) ∷ m else (j, b) ∷ rest

  -- `cbegin()->first`; there is no first entry in an empty map.
  unfoldable pub first_key : List (ℕ × A) → Res ℕ
  first_key [] = fault
  first_key ((k, a) ∷ m) = ok k

  -- `crbegin()->first`
  unfoldable pub last_key : List (ℕ × A) → Res ℕ
  last_key [] = fault
  last_key ((k, a) ∷ []) = ok k
  last_key ((k, a) ∷ e ∷ m) = last_key (e ∷ m)

-- A procedure of an interface, with the method of the server object that it calls, which returns
-- the result (nothing for a void one) or throws.
pub record Procedure : Type 0 where
  pub proc : ℕ
  pub arg : List Ty
  pub res : List Ty
  pub method : Vals → Res (List Arg)

-- `srpc_service`: the program and the version of its interface, and the procedures.
pub record Service : Type 0 where
  pub prog : ℕ
  pub vers : ℕ
  pub procs : List Procedure

abbrev pub Servers : Type 0
Servers = List (ℕ × List (ℕ × Service))

-- `servers_[prog]`, which makes an empty map where there is none.
abbrev pub versions_of : ℕ → Servers → List (ℕ × Service)
versions_of prog servers = elim (lookup prog servers) [ none ↦ [] | some versions ↦ versions ]

unfoldable pub register_service_base : Service → Servers → Servers
unfolding lookup assign
register_service_base s servers =
    assign s.prog (assign s.vers s (versions_of s.prog servers)) servers
