-- ===== src/HostNetwork/Reads.antt =====
-- What internal/hostnetwork/manager.go answers from a snapshot of the journal, without the lock:
-- `Status`, `Get` and `Retry`.
use floatlab_core.Base.{
  Bool, List, Option, String, [], concat, false, if◌then◌else◌, inl, inr, lookup, nat_eq, none,
  some, string_eq, true, ◌==◌, ◌⊎◌,
}
use floatlab_core.Base.Steps.{pure, ◌>>=◌}
use floatlab_core.HostNetwork.{Change, Env, Journal, Live, M, NetworkConfig, Request}
use floatlab_core.HostNetwork.Disk.{ask, change_of}
use floatlab_core.HostNetwork.Config.{Parsers, invalid, primary_addresses, valid, validate}
use floatlab_core.HostNetwork.Changes.{find_request}

-- `Status`, with the live state where it could be read.
pub record Status : Type 0 where
  pub config : NetworkConfig
  pub revision : String
  pub live : Option Live
  pub primary : List String
  pub change : Option Change

module _ (parsers : Parsers) (revision_of : NetworkConfig → String) (env : Env) where
  -- `snapshot`: a journal that is not there is an error.
  unfoldable pub snapshot : M (Journal ⊎ String)
  unfolding ask
  snapshot = do
    e ← ask env env.read
    elim e [
      | some x ↦ pure (inr x)
      | none ↦ λ w. (elim w.journal [ none ↦ inr "file does not exist" | some s ↦ inl s ], w)
    ]

  -- `Status`; its second result is the error of the live state.
  unfoldable pub status : M ((Status × Bool) ⊎ String)
  unfolding snapshot ask change_of primary_addresses
  status = do
    read ← snapshot
    elim read [
      | inr e ↦ pure (inr e)
      | inl s ↦ do
        live ← ask env env.live
        pure (
            inl (
              record {
                config = s.confirmed_config;
                revision = revision_of s.confirmed_config;
                live = live;
                primary = elim live [
                  | none ↦ []
                  | some l ↦ primary_addresses l.addresses s.services
                ];
                change = if s.pending == "" then none else some (change_of s.pending s);
              },
              elim live [ none ↦ false | some _ ↦ true ],
            ))
    ]

  -- `Get`
  unfoldable pub get : String → M (Change ⊎ String)
  unfolding snapshot
  get id = do
    read ← snapshot
    elim read [
      | inr e ↦ pure (inr e)
      | inl s ↦
          pure
            (elim (lookup id s.changes) [ none ↦ inr "network change not found" | some c ↦ inl c ])
    ]

  -- What `Retry` finds in a snapshot.
  unfoldable pub answer_again : Request → NetworkConfig → Journal → Option Change ⊎ String
  unfolding find_request
  answer_again p c s = elim (find_request p.key p.actor s.changes) [
    | none ↦ inl none
    | some old ↦
        if old.request_hash == concat p.revision (concat ":" (revision_of c))
        then inl (some old)
        else inr "idempotency key already used for another request"
  ]

  -- `Retry`
  unfoldable pub retry : Request → M (Option Change ⊎ String)
  unfolding validate snapshot answer_again
  retry p = elim (validate parsers p.config) [
    | invalid e ↦ pure (inr e)
    | valid c ↦ do read ← snapshot; pure (elim read [ inr e ↦ inr e | inl s ↦ answer_again p c s ])
  ]
