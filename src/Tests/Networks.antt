-- ===== src/Tests/Networks.antt =====
-- A host whose network is configured, and changed, once.
use floatlab_core.Base.{
  Option, String, [], false, if◌then◌else◌, inl, insert, lookup, nat_eq, none, refl, some,
  string_eq, suc, true, ℕ, ◌==◌, ◌∷◌, ◌≡◌, ◌≢◌, ◌≤◌,
}
use floatlab_core.Net.{Addr, Prefix}
use floatlab_core.HostNetwork.{
  Change, Env, Live, NetworkConfig, Request, World, absent, awaiting_confirmation, default_config,
  written,
}
use floatlab_core.HostNetwork.Disk.{journal_of, new_journal}
use floatlab_core.HostNetwork.Config.{Parsers, prefix_of, valid, validate}
use floatlab_core.HostNetwork.Bounds.{IsUsable, validate-IsUsable}
use floatlab_core.HostNetwork.Changes.{new_change, submit}
use floatlab_core.HostNetwork.Decisions.{confirm, is_confirmed, rollback}
use floatlab_core.HostNetwork.Startup.{initialize}
use floatlab_core.HostNetwork.Sound.{IsSound}
use floatlab_core.HostNetwork.Reach.{
  IsNamed, IsReached, IsReached-IsSound, applies, did, fresh, performed, starts, submits,
}
use floatlab_core.HostNetwork.Held.{stamp}
use floatlab_core.HostNetwork.Applied.{apply_rounds}
use floatlab_core.HostNetwork.Repeated.{submit-again}
use floatlab_core.HostNetwork.Reads.{retry}
use floatlab_core.HostNetwork.Retried.{retry-submit}
use floatlab_core.HostNetwork.Recovered.{
  ConfirmedInTime, RolledBackBy, confirm-IsSettled, rollback-IsSettled,
}
use floatlab_core.HostNetwork.Booted.{IsReady, initialize-IsReady}

abbrev address_of : String → Option Addr
address_of s =
    if s == "1.1.1.1"
    then some (record { is4 = true; value = 16843009 })
    else if s == "8.8.8.8"
    then some (record { is4 = true; value = 134744072 })
    else if s == "9.9.9.9"
    then some (record { is4 = true; value = 151587081 })
    else if s == "192.168.1.1"
    then some (record { is4 = true; value = 3232235777 })
    else if s == "192.168.1.10"
    then some (record { is4 = true; value = 3232235786 })
    else none

abbrev parsers : Parsers
parsers = record {
  netip = record {
    parse_addr = address_of;
    parse_prefix = λ _. none;
    show_addr = λ _. "";
    show_prefix = λ _. "";
  };
  parse_mac = λ _. none;
  parse_ip4 = λ s. if s == "255.255.255.0" then some 4294967040 else none;
}

-- The first server stands for the digest.
abbrev revision_of : NetworkConfig → String
revision_of c = elim c.dns_servers [ [] ↦ "" | d ∷ _ ↦ d ]

abbrev live : Live
live = record {
  adapters = record { permanent_mac = "02:00:00:00:00:01"; eligible = true } ∷ [];
  addresses = "192.168.1.10/24" ∷ [];
}

abbrev env : Env
env = record {
  lock = λ _. none;
  read = λ _. none;
  write = λ _. written;
  call = λ _ _. none;
  live = λ _. some live;
  boot_id = λ _. some "boot";
  file = λ _. absent;
  polls = λ _. 1;
  now = λ n. n;
  uuid = λ _. "first";
}

abbrev bare : World
bare = record { effects = 0; journal = none; toml = none; calls = [] }

abbrev wanted : NetworkConfig
wanted = record default_config { dns_servers = "9.9.9.9" ∷ [] }

abbrev request : Request
request = record { revision = "1.1.1.1"; config = wanted; key = "key"; actor = "admin" }

abbrev first_change : Change
first_change =
    new_change parsers revision_of env "first" request wanted
      (record new_journal { confirmed_config = default_config })

abbrev started : World
started = performed parsers revision_of env starts bare

abbrev submitted : World
submitted = performed parsers revision_of env (submits request) started

abbrev applied : World
applied = performed parsers revision_of env (applies "first") submitted

named_first : ◌≢◌ {A = String} "first" ""
named_first h = cc h

reached : IsReached parsers revision_of applied
unfolding IsNamed
reached =
    did env (applies "first") named_first
      (did env (submits request) (λ _. named_first) (did env starts tt (fresh refl)))

IsReached-IsSound_example : IsSound (journal_of applied.journal)
IsReached-IsSound_example = IsReached-IsSound parsers revision_of reached

started-none : (initialize parsers revision_of env bare).0 ≡ none
unfolding initialize
started-none = refl

initialize-IsReady_example : IsReady (initialize parsers revision_of env bare).1
initialize-IsReady_example = initialize-IsReady parsers revision_of env bare started-none

submitted-first : (submit parsers revision_of env request started).0 ≡ (none, some first_change)
unfolding submit performed
submitted-first = refl

same_journal :
    applied.journal
    ≡ (apply_rounds parsers revision_of env
        ("first" ∷ [])
        (submit parsers revision_of env request started).1).journal
unfolding performed apply_rounds
same_journal = refl

submit-again_example :
    (d : Change) × (submit parsers revision_of env request applied
      ≡ ((none, some d), record applied { effects = suc applied.effects }))
    × (stamp d ≡ stamp first_change)
submit-again_example =
    submit-again parsers revision_of env request first_change started submitted-first ("first" ∷ [])
      applied same_journal refl

retry-submit_example :
    (d : Change) × (retry parsers revision_of env request applied
      ≡ (inl (some d), record applied { effects = suc applied.effects }))
    × (stamp d ≡ stamp first_change)
retry-submit_example =
    retry-submit parsers revision_of env request first_change started submitted-first ("first" ∷ [])
      applied same_journal refl

-- Once applied, the change waits for a decision.
abbrev waiting : Change
waiting = record first_change { state = awaiting_confirmation; deadline = 60000015 }

applied-waiting : lookup "first" (journal_of applied.journal).changes ≡ some waiting
unfolding performed lookup insert
applied-waiting = refl

waiting-unconfirmed : is_confirmed awaiting_confirmation ≡ false
unfolding is_confirmed
waiting-unconfirmed = refl

confirmed-none : (confirm parsers revision_of env "first" applied).0 ≡ none
unfolding confirm performed lookup insert
confirmed-none = refl

confirm-IsSettled_example :
    ConfirmedInTime parsers revision_of env "first" waiting
      (confirm parsers revision_of env "first" applied).1
confirm-IsSettled_example =
    confirm-IsSettled parsers revision_of env "first" waiting applied applied-waiting
      waiting-unconfirmed confirmed-none

applied-pending : (journal_of applied.journal).pending ≡ "first"
unfolding performed lookup insert
applied-pending = refl

rolled_back-none : (rollback parsers revision_of env "first" false applied).0 ≡ none
unfolding rollback performed lookup insert
rolled_back-none = refl

rollback-IsSettled_example :
    RolledBackBy parsers revision_of env "first" waiting
      (rollback parsers revision_of env "first" false applied).1
    × (false ≡ true → (n : ℕ) × (60000015 ≤ env.now n))
rollback-IsSettled_example =
    rollback-IsSettled parsers revision_of env "first" false waiting applied applied-waiting
      applied-pending rolled_back-none

abbrev static_config : NetworkConfig
static_config = record default_config {
  ipv4 = record {
    mode = "static";
    address = "192.168.1.10";
    netmask = "255.255.255.0";
    gateway = "192.168.1.1";
  };
}

static_config-valid : validate parsers static_config ≡ valid static_config
unfolding validate
static_config-valid = refl

validate-IsUsable_example :
    (p : Prefix) × (prefix_of parsers static_config.ipv4 ≡ valid p)
    × (1 ≤ p.bits)
    × (p.bits ≤ 30)
    × IsUsable p p.addr
    × ((gw : Addr) × (parsers.netip.parse_addr "192.168.1.1" ≡ some gw)
        × IsUsable p gw
        × (gw.value ≢ p.addr.value))
validate-IsUsable_example =
    validate-IsUsable parsers static_config static_config static_config-valid refl
