-- ===== src/Tests/Failovers.antt =====
-- Runs of a failover and of a restore (internal/failover), and of the names of snapshots
-- (pkg/store/timestamp.go).
use floatlab_core.Base.{
  &&-eq-true, Bool, Bool-cases, List, Option, Option-cases, [], all, ap, arith, codes,
  if◌then◌else◌, inl, inr, leb, nat_eq, none, refl, some, string_eq, suc, sym, true, ℕ, ◌&&◌, ◌*◌,
  ◌++◌, ◌+◌, ◌-◌, ◌/◌, ◌==◌, ◌∙◌, ◌∷◌, ◌≡◌,
}
use floatlab_core.Run.{event_eq, state_eq}
use floatlab_core.Raft.{new_fsm}
use floatlab_core.Failover.{Env, Stack, World, applied}
use floatlab_core.Snapshot.{
  alphabet, automated_snapshot_name, decode, encode, epoch, index_of, is_automated_snapshot,
}
use floatlab_core.Snapshot.RoundTrip.{decode-automated_snapshot_name}

abbrev two_nodes : Stack
two_nodes = record {
  name = "web";
  primary_node_id = "a";
  backup_node_id = "b";
  zfs_dataset = "tank/web";
  compose_yaml = "services: {}";
}

abbrev all_well : Env
all_well = record {
  failure = λ n c. none;
  outcome = λ n. applied;
  stack = λ n. two_nodes;
  service = λ n. some "10.0.0.2/24";
  addresses = λ n. [];
  compose = λ n. "services: {}";
  now = λ n. n;
}

abbrev at_rest : World
at_rest = record { effects = 0; active = []; fsm = new_fsm; calls = [] }

-- The letters of ASCII.
abbrev upper_ascii : ℕ → ℕ
upper_ascii c = if leb b'a' c && leb c b'z' then c - 32 else c

is_upper : ℕ → Bool
is_upper c = upper_ascii c == c

index_of-all :
    (p : ℕ → Bool) (cs : List ℕ) (c n : ℕ) → all p cs ≡ true → index_of c cs ≡ some n → p c ≡ true
index_of-all p [] c n h e = cc
index_of-all p (d ∷ cs) c n h e = elim (Bool-cases (d == c)) [
  | inl t ↦ sym (ap p ((nat_eq.beq_iff d c).0 t)) ∙ (&&-eq-true (p d) _ h).0
  | inr f ↦ elim (Option-cases (index_of c cs)) [
    | inl x ↦ absent (
        sym (
          ap
            (λ b.
              if b then some 0 else elim (index_of c cs) [ some k ↦ some (suc k) | none ↦ none ])
            f
          ∙ ap (λ o. elim o as (λ z. Option ℕ) [ some k ↦ some (suc k) | none ↦ none ]) x)
        ∙ e)
    | inr (k, x) ↦ index_of-all p cs c k (&&-eq-true (p d) _ h).1 x
  ]
]
  where
    absent : none ≡ some n → p c ≡ true
    absent q = cc

upper_alphabet : all is_upper alphabet ≡ true
unfolding is_upper
upper_alphabet = refl

upper_fixed : (c n : ℕ) → index_of c alphabet ≡ some n → upper_ascii c ≡ c
unfolding is_upper
upper_fixed c n e =
    (nat_eq.beq_iff (upper_ascii c) c).0 (index_of-all is_upper alphabet c n upper_alphabet e)

decode-automated_snapshot_name_example :
    (stamp : List ℕ) × (automated_snapshot_name 1767225600 ≡ some (codes "fl-" ++ stamp))
    × (is_automated_snapshot (codes "fl-" ++ stamp) ≡ true)
    × (decode upper_ascii stamp ≡ some (epoch + (1767225600 - epoch) / 3 * 3))
decode-automated_snapshot_name_example =
    decode-automated_snapshot_name upper_ascii 1767225600 upper_fixed (omega arith) (omega arith)

-- The vector of 2026 in pkg/store/timestamp_test.go.
encode_2026 : encode 1767225600 ≡ some (codes "0A0SM0")
unfolding encode
encode_2026 = refl
