-- ===== src/HostNetwork/Booted.antt =====
-- What `Initialize` of internal/hostnetwork/manager.go leaves on the disk when it reports no error.
use floatlab_core.Base.{
  Bool, String, ap, false, if◌then◌else◌, inl, inr, nat_eq, none, refl, some, string_eq, true, ◌==◌,
  ◌≡◌, ◌⊎◌,
}
use floatlab_core.Base.Steps.{on_option, pure, ◌>>=◌}
use floatlab_core.HostNetwork.{Env, Journal, M, NetworkConfig, Outcome, World}
use floatlab_core.HostNetwork.Disk.{ask, change_of, journal_of, put_change, save, write_config}
use floatlab_core.HostNetwork.Config.{Checked, Parsers, invalid, valid, validate, validate_services}
use floatlab_core.HostNetwork.Changes.{apply_and_verify}
use floatlab_core.HostNetwork.Startup.{
  booted, choose, initialize, initialize_boot, initialize_locked, read_config, recovered_change,
  settle, start_up, with_bridge,
}
use floatlab_core.HostNetwork.Written.{
  IsSettled, Succeeds, locked-Succeeds, on_then, some-Succeeds, written_thrice,
}

-- The disk holds a confirmed configuration and the journal asks for nothing more.
pub record IsReady (w : World) : Type 0 where
  pub config : NetworkConfig
  pub settled : IsSettled config w
  pub has_confirmed : (journal_of w.journal).has_confirmed ≡ true
  pub startup : (journal_of w.journal).startup ≡ none
  pub needs_config : (journal_of w.journal).needs_config ≡ false

on_valid :
    (P : Outcome × World → Type 0) (v : Checked NetworkConfig) (f : NetworkConfig → M Outcome)
    (w : World)
    → ((e : String) → P (some e, w))
    → ((c : NetworkConfig) → P (f c w))
    → P ((elim v as (λ x. M Outcome) [ invalid e ↦ pure (some e) | valid c ↦ f c ]) w)
on_valid P (valid c) f w h k = k c
on_valid P (invalid e) f w h k = h e

on_either :
    (P : Outcome × World → Type 0) (v : NetworkConfig ⊎ String) (f : NetworkConfig → M Outcome)
    (w : World)
    → ((e : String) → P (some e, w))
    → ((c : NetworkConfig) → P (f c w))
    → P ((elim v as (λ x. M Outcome) [ inr e ↦ pure (some e) | inl c ↦ f c ]) w)
on_either P (inl c) f w h k = k c
on_either P (inr e) f w h k = h e

module _ (parsers : Parsers) (revision_of : NetworkConfig → String) (env : Env) where
  settle-Succeeds :
      (c : NetworkConfig) (s : Journal) (w : World)
      → Succeeds IsReady (settle parsers revision_of env c s w)
  unfolding settle Succeeds
  settle-Succeeds c s w = λ h.
      at_end (if s.pending == "" then s else rolled_back_pending)
        (closed (s.pending == "") (λ t. (string_eq.beq_iff s.pending "").0 t)) h
    where
      rolled_back_pending : Journal
      rolled_back_pending =
          put_change s.pending (recovered_change parsers revision_of env (change_of s.pending s))
            (record s { pending = "" })

      closed :
          (b : Bool)
          → (b ≡ true → s.pending ≡ "")
          → (if b then s else rolled_back_pending).pending ≡ ""
      closed true h = h refl
      closed false h = refl

      at_end :
          (t : Journal)
          → t.pending ≡ ""
          → Succeeds IsReady (
              (save env (record t {
                confirmed_config = c;
                has_confirmed = true;
                startup = none;
                needs_config = true;
              })
                  >>= λ u. elim u as (λ x. M Outcome) [
                    | some x ↦ pure (some x)
                    | none ↦ write_config env c >>= λ v. elim v as (λ x. M Outcome) [
                      | some x ↦ pure (some x)
                      | none ↦ save env (record t {
                        confirmed_config = c;
                        has_confirmed = true;
                        startup = none;
                        needs_config = false;
                      })
                    ]
                  ])
                w)
      at_end t e h =
          let asking : Journal = record t {
            confirmed_config = c;
            has_confirmed = true;
            startup = none;
            needs_config = true;
          } in
          let wrote : Journal = record t {
            confirmed_config = c;
            has_confirmed = true;
            startup = none;
            needs_config = false;
          } in
          let (i, j) = written_thrice env asking wrote c refl e w h in
          record {
            config = c;
            settled = i;
            has_confirmed = ap (λ x. (journal_of x).has_confirmed) j;
            startup = ap (λ x. (journal_of x).startup) j;
            needs_config = ap (λ x. (journal_of x).needs_config) j;
          }

  start_up-Succeeds :
      (c previous : NetworkConfig) (s : Journal) (w : World)
      → Succeeds IsReady (start_up parsers revision_of env c previous s w)
  unfolding start_up
  start_up-Succeeds c previous s w =
      on_option (Succeeds IsReady) (validate_services parsers c s.services) _ _ w
        (λ e _. some-Succeeds IsReady e w)
        (λ _.
          let noted : Journal = record s { startup = some c } in
          let v : World = (save env noted w).1 in
          on_then (Succeeds IsReady) (save env noted) _ w (some-Succeeds IsReady) (λ _.
            on_then (Succeeds IsReady)
              (apply_and_verify parsers revision_of env previous c s.services) _ v
              (some-Succeeds IsReady)
              (λ _.
                settle-Succeeds c noted
                  (apply_and_verify parsers revision_of env previous c s.services v).1)))

  initialize_boot-Succeeds :
      (file : NetworkConfig) (boot : String) (s : Journal) (w : World)
      → Succeeds IsReady (initialize_boot parsers revision_of env file boot s w)
  unfolding initialize_boot
  initialize_boot-Succeeds file boot s w =
      on_valid (Succeeds IsReady) (validate parsers (choose parsers revision_of env file s).0) _ w
        (λ e. some-Succeeds IsReady e w)
        (λ c.
          let v : World = (ask env env.live w).1 in
          on_option (Succeeds IsReady) (ask env env.live w).0 _ _ v
            (λ l _.
              on_option (Succeeds IsReady)
                (with_bridge parsers revision_of env c l (booted parsers revision_of env boot s)) _
                _ v (λ t _. start_up-Succeeds c (choose parsers revision_of env file s).1 t v)
                (λ _. some-Succeeds IsReady "no eligible Ethernet adapter for LAN bridge" v))
            (λ _. some-Succeeds IsReady "live state" v))

  -- A start that reports no error leaves one configuration confirmed, in the journal and in
  -- network.toml, nothing pending, and no note of a start or of a file that is to be written.
  pub initialize-IsReady :
      (w : World)
      → (initialize parsers revision_of env w).0 ≡ none
      → IsReady (initialize parsers revision_of env w).1
  unfolding initialize initialize_locked Succeeds
  initialize-IsReady w =
      locked-Succeeds env IsReady (initialize_locked parsers revision_of env) w (λ v _.
        let s : Journal = journal_of w.journal in
        let u : World = (read_config parsers revision_of env s v).1 in
        on_either (Succeeds IsReady) (read_config parsers revision_of env s v).0 _ u
          (λ e. some-Succeeds IsReady e u)
          (λ c.
            on_option (Succeeds IsReady) (ask env env.boot_id u).0 _ _ (ask env env.boot_id u).1
              (λ b _. initialize_boot-Succeeds c b s (ask env env.boot_id u).1)
              (λ _. some-Succeeds IsReady "boot_id" (ask env env.boot_id u).1)))
