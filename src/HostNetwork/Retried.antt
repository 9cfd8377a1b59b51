-- ===== src/HostNetwork/Retried.antt =====
-- A request that comes again is answered from the journal alone: `Retry` of
-- internal/hostnetwork/manager.go.
use floatlab_core.Base.{
  List, Option, String, [], ap, inl, inr, nat_eq, none, refl, some, string_eq, suc, true, ◌==◌, ◌≡◌,
  ◌≢◌, ◌⊎◌,
}
use floatlab_core.HostNetwork.{Change, Env, Journal, NetworkConfig, Request, World}
use floatlab_core.HostNetwork.Disk.{ask, journal_of}
use floatlab_core.HostNetwork.Config.{Parsers}
use floatlab_core.HostNetwork.Changes.{find_request, submit}
use floatlab_core.HostNetwork.Reads.{answer_again, retry, snapshot}
use floatlab_core.HostNetwork.Repeated.{IsTaken, Takes, hash_of, later-IsTaken, submit-Takes}
use floatlab_core.HostNetwork.Held.{stamp}
use floatlab_core.HostNetwork.Applied.{apply_rounds}

module _ (parsers : Parsers) (revision_of : NetworkConfig → String) (env : Env) where
  nothing : (p : Request) (c : Change) → find_request p.key p.actor [] ≢ some c
  unfolding find_request
  nothing p c h = cc h

  answer_known :
      (p : Request) (c : Change) (x : NetworkConfig) (s : Journal)
      → find_request p.key p.actor s.changes ≡ some c
      → (c.request_hash == hash_of parsers revision_of env p x) ≡ true
      → answer_again parsers revision_of env p x s ≡ inl (some c)
  unfolding answer_again
  answer_known p c x s h k = rw (answer_again, h, k) refl

  taken-retry :
      (p : Request) (c : Change) (v : World)
      → IsTaken parsers revision_of env p c v
      → env.read v.effects ≡ none
      → retry parsers revision_of env p v ≡ (inl (some c), record v { effects = suc v.effects })
  unfolding retry ask answer_again
  taken-retry p c v t n =
      rw (retry, t.validated, snapshot, ask, n)
        (ap (λ a. (a, record v { effects = suc v.effects })) (found v.journal t.known.found))
    where
      found :
          (j : Option Journal)
          → find_request p.key p.actor (journal_of j).changes ≡ some c
          → elim (elim j as (λ x. Journal ⊎ String) [
            | none ↦ inr "file does not exist"
            | some s ↦ inl s
          ])
              as (λ x. Option Change ⊎ String) [
                | inr e ↦ inr e
                | inl s ↦ answer_again parsers revision_of env p t.config s
              ]
            ≡ inl (some c)
      found none h = absurd (nothing p c h)
      found (some s) h = answer_known p c t.config s h t.known.hash

  -- `Submit` answered a request with a change, and `apply`, which it starts, has run since, any number
  -- of times, to any end and whatever of its calls and writes failed. While no other operation has
  -- written the journal, `Retry` answers the request with the change with the same id, request and
  -- candidate, if the journal can be read.
  pub retry-submit :
      (p : Request) (c : Change) (w : World)
      → (submit parsers revision_of env p w).0 ≡ (none, some c)
      → (ids : List String) (v : World)
      → v.journal
        ≡ (apply_rounds parsers revision_of env ids (submit parsers revision_of env p w).1).journal
      → env.read v.effects ≡ none
      → (d : Change) × (retry parsers revision_of env p v
          ≡ (inl (some d), record v { effects = suc v.effects }))
        × (stamp d ≡ stamp c)
  unfolding Takes
  retry-submit p c w h ids v e n =
      let (d, t, q) =
        later-IsTaken parsers revision_of env p c ids (submit parsers revision_of env p w).1 v e
          (submit-Takes parsers revision_of env p c w h) in
      (d, taken-retry p d v t n, q)
