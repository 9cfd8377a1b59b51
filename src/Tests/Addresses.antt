-- ===== src/Tests/Addresses.antt =====
-- Pools and addresses of a small cluster.
use floatlab_core.Base.{
  List, Option, String, [], false, if◌then◌else◌, nat_eq, none, refl, some, string_eq, suc, true, ℕ,
  ◌==◌, ◌∷◌, ◌≡◌, ◌≢◌,
}
use floatlab_core.Net.{Addr, Netip, Prefix, masked}
use floatlab_core.Ipam.{AddressPool, Env, World, applied, found}
use floatlab_core.Ipam.Allocations.{allocate_ipv4, taken_by}
use floatlab_core.Ipam.Reservations.{first_free}
use floatlab_core.Ipam.Apart.{IsOrderly}
use floatlab_core.Ipam.Disjoint.{IsReached-IsOrderly, did, empty, performed, saves}
use floatlab_core.Ipam.Free.{IsFirst, first_free-IsFirst}
use floatlab_core.Ipam.Allotted.{IsAllotted, allocate_ipv4-IsAllotted}

abbrev address_of : String → Option Addr
address_of s =
    if s == "10.0.0.2"
    then some (record { is4 = true; value = 167772162 })
    else if s == "10.0.0.5"
    then some (record { is4 = true; value = 167772165 })
    else none

abbrev netip : Netip
netip = record {
  parse_addr = address_of;
  parse_prefix = λ s.
      if s == "10.0.0.0/29"
      then some (record { addr = record { is4 = true; value = 167772160 }; bits = 29 })
      else none;
  show_addr = λ a. if a.value == 167772162 then "10.0.0.2" else "10.0.0.5";
  show_prefix = λ _. "";
}

abbrev env : Env
env = record { query = λ _. none; execute = λ _. applied; hosts = λ _. []; uuid = λ _. "pool" }

abbrev wanted : AddressPool
wanted = record {
  id = "";
  name = "lan";
  cidr = "10.0.0.0/29";
  start_ip = "10.0.0.2";
  end_ip = "10.0.0.5";
  is_default = false;
  node_ids = "a" ∷ [];
  membership_resolved = true;
}

abbrev bare : World
bare = record { effects = 0; pools = []; ranges = []; allocations = []; reservations = [] }

abbrev saved : World
saved = performed netip env (saves wanted) bare

-- The pool is saved under its new id.
saved-pool : saved.pools ≡ record wanted { id = "pool" } ∷ []
unfolding performed
saved-pool = refl

named_pool : (n : ℕ) → env.uuid n ≢ ""
named_pool n h = cc h

IsReached-IsOrderly_example : IsOrderly netip saved.pools
IsReached-IsOrderly_example =
    IsReached-IsOrderly netip (did env (saves wanted) named_pool (empty refl))

-- Its first address is given to the first stack.
allocated-first : (allocate_ipv4 netip env wanted "web" bare).0 ≡ found "10.0.0.2"
unfolding allocate_ipv4
allocated-first = refl

allocate_ipv4-IsAllotted_example :
    IsAllotted netip env wanted "web"
      (taken_by netip "" [])
      (allocate_ipv4 netip env wanted "web" bare)
allocate_ipv4-IsAllotted_example = allocate_ipv4-IsAllotted netip env wanted "web" bare

abbrev lan : Prefix
lan = record { addr = record { is4 = true; value = 167772160 }; bits = 29 }

abbrev two_taken : List Addr
two_taken = record { is4 = true; value = 167772161 } ∷ record { is4 = true; value = 167772162 } ∷ []

first_free-third : first_free lan two_taken ≡ found 167772163
unfolding first_free
first_free-third = refl

first_free-IsFirst_example :
    IsFirst (masked lan) two_taken (suc (masked lan).addr.value) (first_free lan two_taken)
first_free-IsFirst_example = first_free-IsFirst lan two_taken
