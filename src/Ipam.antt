-- ===== src/Ipam.antt =====
-- The addresses of the cluster (internal/ipam): pools of addresses of IPv4, the allocations of stacks,
-- and the reservations of services of IPv6. `World` is what the tables hold; `Env` answers the effects
-- by their number. Times and the ids of rows are left out.
pub mod Ranges
pub mod Pools
pub mod Allocations
pub mod Reservations
pub mod Apart
pub mod Disjoint
pub mod Free
pub mod Usable
pub mod Allotted
use floatlab_core.Base.{Bool, List, Map, Option, String, nat_eq, string_eq, ℕ}
use floatlab_core.Base.Steps.{Step}

-- `Pool`
pub record AddressPool : Type 0 where
  pub id : String
  pub name : String
  pub cidr : String
  pub start_ip : String
  pub end_ip : String
  pub is_default : Bool
  pub node_ids : List String
  pub membership_resolved : Bool

-- A row of `network_allocations`.
pub record Allocation : Type 0 where
  pub pool_id : String
  pub stack_id : String
  pub address : String
  pub is_active : Bool

-- A row of `ip_reservations`.
pub record Reservation : Type 0 where
  pub stack_id : String
  pub service : String
  pub address : String
  pub prefix_pool : String

-- The rows of `node_pool_ranges`, by their pool.
pub record NodeRange : Type 0 where
  pub first : ℕ
  pub last : ℕ
  pub owner : String

-- What becomes of a transaction: done, unless a constraint forbids it; not done; or done, unless a
-- constraint forbids it, and reported as failed.
pub data Delivery : Type 0 where
  applied : Delivery
  refused unconfirmed : String → Delivery

pub record Env : Type 0 where
  pub query : ℕ → Option String
  pub execute : ℕ → Delivery
  pub hosts : ℕ → List String
  pub uuid : ℕ → String

pub record World : Type 0 where
  pub effects : ℕ
  pub pools : List AddressPool
  pub ranges : Map String NodeRange
  pub allocations : List Allocation
  pub reservations : List Reservation

abbrev pub M : Type 0 → Type 0
M A = Step World A

abbrev pub Outcome : Type 0
Outcome = Option String

-- What a search for an address comes to.
pub data Search (A : Type 0) : Type 0 where
  found : A → Search A
  exhausted out_of_fuel : Search A
  failed : String → Search A
